-- ===== src/Storage/Txn/Locks.antt =====
-- internal/conn/memory/storage/storage.go: only `Commit` and `Rollback` end a transaction and release
-- the mutex.
use riposo.Prelude.{
  ℕ, ◌≡◌, refl, ◌∙◌, Bool, true, false, not, List, [], ◌∷◌, arith, Option, none, some, Option-cases,
  inl, inr, Result, either, either_when, is_empty, is_some, Text,
}
use riposo.Locks.{Keeps, IsReleased, HasEnded, unchanged, transitive, released}
use riposo.Path.{is_node, namespace, split}
use riposo.Schema.{Object}
use riposo.Storage.Tree as Tree
use riposo.Storage.Tree.{Tree}
use riposo.Storage.Backend as Backend
use riposo.Storage.Txn.{
  Transaction, Error, commit, rollback, finish, backup_ns, write, create_in, create, update,
  delete_at, delete_object, note_deleted, delete_each, some_node, delete_all, purge_each, purge,
  flush,
}
use riposo.Storage.Txn.Calls.{
  Call, create_call, update_call, delete_call, delete_all_call, purge_call, flush_call, step, run,
}

abbrev done : Transaction → Bool
done t = t.done

abbrev locked : Transaction → Bool
locked t = t.b.locked

abbrev Kept : Transaction → Transaction → Type 0
Kept = Keeps done locked

abbrev Beside : {A : Type 0} → Transaction → A × Transaction → Type 0
Beside t r = Kept t r.1

backup_ns-Keeps : (ns : Text) (t : Transaction) → Kept t (backup_ns ns t)
unfolding backup_ns
backup_ns-Keeps ns t =
    either (Kept t) t.flushed (unchanged done locked t)
      (record { same_done = refl; same_lock = refl })

write-Keeps : (ns : Text) (obj : Object) (now : ℕ) (t : Transaction) → Kept t (write ns obj now t).1
unfolding write
write-Keeps ns obj now t = record { same_done = refl; same_lock = refl }

create_in-Keeps :
    (ns : Text) (obj : Object) (now : ℕ) (next_id : Text) (t : Transaction)
    → Kept t (create_in ns obj now next_id t).1
unfolding create_in
create_in-Keeps ns obj now next_id t =
    either (Beside t) (not (is_empty obj.id))
      (either (Beside t) (is_some (Tree.get ns obj.id t.b.tree)) (unchanged done locked t)
        (write-Keeps ns obj now t))
      (write-Keeps ns (record obj { id = next_id }) now t)

create-Keeps :
    (path : Text) (obj : Object) (now : ℕ) (next_id : Text) (t : Transaction)
    → Kept t (create path obj now next_id t).1
unfolding create
create-Keeps path obj now next_id t =
    let t' = backup_ns (namespace path) t in
    either (Beside t) (not (is_node path)) (unchanged done locked t) (
      either (Beside t) t.done (unchanged done locked t) (
        transitive done locked t t' (create_in (namespace path) obj now next_id t').1
          (backup_ns-Keeps (namespace path) t)
          (create_in-Keeps (namespace path) obj now next_id t')))

update-Keeps :
    (path : Text) (obj : Object) (now : ℕ) (t : Transaction) → Kept t (update path obj now t).1
unfolding update
update-Keeps path obj now t =
    let t' = backup_ns (namespace path) t in
    either (Beside t) t.done (unchanged done locked t) (
      transitive done locked t t' (write (namespace path) obj now t').1
        (backup_ns-Keeps (namespace path) t) (write-Keeps (namespace path) obj now t'))

delete_in-same :
    (path : Text) (now : ℕ) (exact : Bool) (ns : Text) (r : Option Object × Tree.Node)
    (b : Backend.Backend)
    → (Backend.delete_in path now exact ns r b).1.locked ≡ b.locked
unfolding Backend.delete_in Backend.delete_below
delete_in-same path now exact ns (none, node) b = ground arith
delete_in-same path now exact ns (some obj, node) b = refl

delete-same :
    (path : Text) (now : ℕ) (exact : Bool) (b : Backend.Backend)
    → (Backend.delete path now exact b).1.locked ≡ b.locked
unfolding Backend.delete
delete-same path now exact b =
    let (ns, object_id) = split path in
    elim (Option-cases (Tree.get_node ns b.tree)) [
      | inl e ↦ rw (e, Backend.delete) refl
      | inr (node, e) ↦
          rw (e, Backend.delete) (delete_in-same path now exact ns (Tree.del object_id now node) b)
    ]

delete_object-Keeps :
    (path : Text) (now : ℕ) (t : Transaction) → Kept t (delete_object path now t).1
unfolding delete_object delete_at
delete_object-Keeps path now t =
    let t' = backup_ns (namespace path) t in
    let h = backup_ns-Keeps (namespace path) t in
    either (Beside t) (is_node path) (unchanged done locked t) (
      either (Beside t) t.done (unchanged done locked t) (record {
        same_done = h.same_done;
        same_lock = delete-same path now true t'.b ∙ h.same_lock;
      }))

delete_each-Keeps :
    (paths : List Text) (now : ℕ) (acc : ℕ × List Text) (t : Transaction)
    → Kept t (delete_each paths now acc t).1
unfolding delete_each
delete_each-Keeps [] now acc t = unchanged done locked t
delete_each-Keeps (path ∷ paths) now acc t =
    let t' = backup_ns (namespace path) t in
    let (reports, b) = Backend.delete path now false t'.b in
    let h = backup_ns-Keeps (namespace path) t in
    let t'' : Transaction = record t' { b = b } in
    let gone : Kept t t'' = record {
      same_done = h.same_done;
      same_lock = delete-same path now false t'.b ∙ h.same_lock;
    } in
    transitive done locked t t'' (delete_each paths now (note_deleted reports acc) t'').1 gone
      (delete_each-Keeps paths now (note_deleted reports acc) t'')

delete_all-Keeps :
    (paths : List Text) (now : ℕ) (t : Transaction) → Kept t (delete_all paths now t).1
unfolding delete_all
delete_all-Keeps paths now t = either (Beside t) (some_node paths) (unchanged done locked t) (
    either (Beside t) t.done (unchanged done locked t) (
      either (Beside t) (is_empty paths) (unchanged done locked t)
        (delete_each-Keeps paths now (0, []) t)))

purge_each-Keeps :
    (older_than : ℕ) (nodes : Tree) (cnt : ℕ) (t : Transaction)
    → Kept t (purge_each older_than nodes cnt t).1
unfolding purge_each
purge_each-Keeps older_than [] cnt t = unchanged done locked t
purge_each-Keeps older_than ((ns, node) ∷ nodes) cnt t =
    transitive done locked t _ _
      (record {
        same_done = (backup_ns-Keeps ns t).same_done;
        same_lock = (backup_ns-Keeps ns t).same_lock;
      })
      (purge_each-Keeps older_than nodes _ _)

purge-Keeps : (older_than : ℕ) (t : Transaction) → Kept t (purge older_than t).1
unfolding purge
purge-Keeps older_than t =
    either (Beside t) t.done (unchanged done locked t) (purge_each-Keeps older_than t.b.dead 0 t)

flush-Keeps : (t : Transaction) → Kept t (flush t).1
unfolding flush
flush-Keeps t =
    either (Beside t) t.done (unchanged done locked t)
      (record { same_done = refl; same_lock = refl })

step-Keeps : (call : Call) (t : Transaction) → Kept t (step call t)
unfolding step
step-Keeps (create_call path obj now next_id) t = create-Keeps path obj now next_id t
step-Keeps (update_call path obj now) t = update-Keeps path obj now t
step-Keeps (delete_call path now) t = delete_object-Keeps path now t
step-Keeps (delete_all_call paths now) t = delete_all-Keeps paths now t
step-Keeps (purge_call older_than) t = purge-Keeps older_than t
step-Keeps flush_call t = flush-Keeps t

-- What the calls, a commit and a rollback leave behind.
pub run-open : (calls : List Call) (t : Transaction) → t.done ≡ false → (run calls t).done ≡ false
unfolding run
run-open [] t h = h
run-open (call ∷ calls) t h = run-open calls (step call t) ((step-Keeps call t).same_done ∙ h)

pub step-IsReleased :
    (call : Call) (t : Transaction)
    → IsReleased done locked t
    → IsReleased done locked (step call t)
step-IsReleased call t = released done locked t (step call t) (step-Keeps call t)

pub commit-HasEnded :
    (t : Transaction) → IsReleased done locked t → HasEnded done locked (commit t).1
unfolding commit finish
commit-HasEnded t h =
    either_when (λ (r : Result Error (Unit {0}) × Transaction). HasEnded done locked r.1) t.done
      (λ e. (e, h e)) (λ e. (refl, refl))

pub rollback-HasEnded :
    (t : Transaction) → IsReleased done locked t → HasEnded done locked (rollback t).1
unfolding rollback finish
rollback-HasEnded t h =
    let P : Result Error (Unit {0}) × Transaction → Type 0 = λ r. HasEnded done locked r.1 in
    either_when P t.done (λ e. (e, h e)) (λ e. either P t.flushed (refl, refl) (refl, refl))
