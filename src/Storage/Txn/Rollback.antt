-- ===== src/Storage/Txn/Rollback.antt =====
-- internal/conn/memory/storage/storage.go: what a rollback brings back.
use mathlib.Core.Path.{subst}
use riposo.Prelude.{
  ℕ, ◌+◌, ◌≡◌, refl, true, false, Option, List, [], ◌∷◌, arith, if◌then◌else◌, Bool-cases, inl, inr,
  is_some, is_empty, Text, text_eq, lookup, insert, delete, lookup-insert, lookup-delete,
  has_prefix, ok,
}
use riposo.Path.{is_node, namespace}
use riposo.Undo.{restore, backup}
use riposo.Undo.Laws.{restores_at-write}
use riposo.Schema.{Object, norm}
use riposo.Storage.Tree
use riposo.Storage.Tree.{Node, Tree, copy_node, get_node, put_at, unlink}
use riposo.Storage.Tree.Laws.{copy_node-eq, lookup-put_at, lookup-unlink_ne}
use riposo.Storage.Backend
use riposo.Storage.Backend.{Backend}
use riposo.Storage.Backend.Unreached.{SameAt, delete-SameAt}
use riposo.Storage.Txn.{
  Transaction, begin, rollback, finish, backup_ns, write, create, create_in, update, delete_object,
  delete_at, delete_each, delete_all, some_node, note_deleted, purge, purge_each, purge_objects,
}
use riposo.Storage.Txn.Calls.{
  Call, create_call, update_call, delete_call, delete_all_call, purge_call, flush_call, step, run,
  below, Spares,
}

abbrev seen : Option Node → Option Node
seen o = o

backup_ns-unflushed :
    (ns : Text) (t : Transaction)
    → t.flushed ≡ false
    → backup_ns ns t ≡ record t {
      xtree = backup copy_node ns t.b.tree t.xtree;
      xdead = backup copy_node ns t.b.dead t.xdead;
    }
unfolding backup_ns
backup_ns-unflushed ns t h = ground arith

backup_ns-b : (ns : Text) (t : Transaction) → (backup_ns ns t).b ≡ t.b
unfolding backup_ns
backup_ns-b ns t = ground arith

write-SameAt :
    (k ns : Text) (obj : Object) (now : ℕ) (t : Transaction)
    → text_eq ns k ≡ false
    → SameAt k (write ns obj now t).1.b t.b
unfolding write
write-SameAt k ns obj now t apart = (
  ground (arith, lookup-put_at ns k (norm obj) now t.b.tree),
  lookup-unlink_ne ns k obj.id t.b.dead apart,
)

-- An open transaction that was not flushed, and that a rollback takes back to `start` at the
-- namespace k.
record Undoes (k : Text) (start : Backend) (t : Transaction) : Type 0 where
  open_yet : t.done ≡ false
  unflushed : t.flushed ≡ false
  live : lookup k (restore t.xtree t.b.tree) ≡ lookup k start.tree
  dead : lookup k (restore t.xdead t.b.dead) ≡ lookup k start.dead

module _ (k : Text) (start : Backend) where
  begin-Undoes : Undoes k start (begin start)
  unfolding begin restore
  begin-Undoes = record { open_yet = refl; unflushed = refl; live = refl; dead = refl }

  -- Logging a namespace and changing the backend there, as far as k is concerned.
  log-Undoes :
      (ns : Text) (t : Transaction) (b : Backend)
      → Undoes k start t
      → (text_eq ns k ≡ false → SameAt k b (backup_ns ns t).b)
      → Undoes k start (record (backup_ns ns t) { b = b })
  log-Undoes ns t b h same =
      let same' : (text_eq ns k ≡ false → SameAt k b t.b) =
        λ a. subst (λ c. SameAt k b c) (backup_ns-b ns t) (same a) in
      rw (backup_ns-unflushed ns t h.unflushed) (record {
        open_yet = h.open_yet;
        unflushed = h.unflushed;
        live =
            restores_at-write seen copy_node ns k t.b.tree b.tree t.xtree copy_node-eq h.live
              (λ a. (same' a).0);
        dead =
            restores_at-write seen copy_node ns k t.b.dead b.dead t.xdead copy_node-eq h.dead
              (λ a. (same' a).1);
      })

  backup_ns-Undoes :
      (ns : Text) (t : Transaction) → Undoes k start t → Undoes k start (backup_ns ns t)
  backup_ns-Undoes ns t h = log-Undoes ns t (backup_ns ns t).b h (λ a. (refl, refl))

  write-Undoes :
      (ns : Text) (obj : Object) (now : ℕ) (t : Transaction)
      → Undoes k start t
      → Undoes k start (write ns obj now (backup_ns ns t)).1
  unfolding write
  write-Undoes ns obj now t h =
      log-Undoes ns t (write ns obj now (backup_ns ns t)).1.b h
        (write-SameAt k ns obj now (backup_ns ns t))

  create-Undoes :
      (path : Text) (obj : Object) (now : ℕ) (next_id : Text) (t : Transaction)
      → Undoes k start t
      → Undoes k start (create path obj now next_id t).1
  unfolding create create_in
  create-Undoes path obj now next_id t h =
      let ns = namespace path in
      let own = write-Undoes ns obj now t h in
      let new = write-Undoes ns (record obj { id = next_id }) now t h in
      let logged = backup_ns-Undoes ns t h in
      elim (Bool-cases (is_node path)) [
        | inr leaf ↦ rw leaf h
        | inl node ↦ elim (Bool-cases (is_empty obj.id)) [
          | inl unnamed ↦ rw node (simp (h.open_yet, unnamed) new)
          | inr named ↦ elim (Bool-cases (is_some (Tree.get ns obj.id (backup_ns ns t).b.tree))) [
            | inl taken ↦ rw node (simp (h.open_yet, named, taken) logged)
            | inr free ↦ rw node (simp (h.open_yet, named, free) own)
          ]
        ]
      ]

  update-Undoes :
      (path : Text) (obj : Object) (now : ℕ) (t : Transaction)
      → Undoes k start t
      → Undoes k start (update path obj now t).1
  unfolding update
  update-Undoes path obj now t h = simp (h.open_yet) (write-Undoes (namespace path) obj now t h)

  delete_object-Undoes :
      (path : Text) (now : ℕ) (t : Transaction)
      → has_prefix k path ≡ false
      → Undoes k start t
      → Undoes k start (delete_object path now t).1
  unfolding delete_object delete_at
  delete_object-Undoes path now t aside h =
      let ns = namespace path in
      let b = (backup_ns ns t).b in
      elim (Bool-cases (is_node path)) [
        | inl node ↦ rw node h
        | inr leaf ↦ rw leaf (
            simp (h.open_yet) (
              log-Undoes ns t (Backend.delete path now true b).1 h
                (λ a. delete-SameAt path k now true b a aside)))
      ]

  delete_each-Undoes :
      (paths : List Text) (now : ℕ) (acc : ℕ × List Text) (t : Transaction)
      → below k paths ≡ false
      → Undoes k start t
      → Undoes k start (delete_each paths now acc t).1
  unfolding delete_each below
  delete_each-Undoes [] now acc t aside h = h
  delete_each-Undoes (path ∷ paths) now acc t aside h =
      let ns = namespace path in
      let b = (backup_ns ns t).b in
      let d = Backend.delete path now false b in
      delete_each-Undoes paths now (note_deleted d.0 acc) (record (backup_ns ns t) { b = d.1 })
        (ground arith)
        (log-Undoes ns t d.1 h (λ a. delete-SameAt path k now false b a (ground arith)))

  purge_each-Undoes :
      (older_than : ℕ) (nodes : Tree) (cnt : ℕ) (t : Transaction)
      → Undoes k start t
      → Undoes k start (purge_each older_than nodes cnt t).1
  unfolding purge_each
  purge_each-Undoes older_than [] cnt t h = h
  purge_each-Undoes older_than ((ns, node) ∷ nodes) cnt t h =
      let t' = backup_ns ns t in
      let (purged, objects) = purge_objects older_than node.objects in
      let dead =
        if is_empty objects
        then delete ns t'.b.dead
        else insert ns (record node { objects = objects }) t'.b.dead in
      let b = record t'.b { dead = dead } in
      purge_each-Undoes older_than nodes (cnt + purged) (record t' { b = b })
        (log-Undoes ns t b h (λ a. (
          refl,
          ground (
            arith,
            lookup-delete ns k t'.b.dead,
            lookup-insert ns k (record node { objects = objects }) t'.b.dead,
          ),
        )))

  purge-Undoes :
      (older_than : ℕ) (t : Transaction) → Undoes k start t → Undoes k start (purge older_than t).1
  unfolding purge
  purge-Undoes older_than t h = simp (h.open_yet) (purge_each-Undoes older_than t.b.dead 0 t h)

  delete_all-Undoes :
      (paths : List Text) (now : ℕ) (t : Transaction)
      → below k paths ≡ false
      → Undoes k start t
      → Undoes k start (delete_all paths now t).1
  unfolding delete_all
  delete_all-Undoes paths now t aside h =
      let done = delete_each-Undoes paths now (0, []) t aside h in
      elim (Bool-cases (some_node paths)) [
        | inl node ↦ rw node h
        | inr leaves ↦ elim (Bool-cases (is_empty paths)) [
          | inl no_path ↦ rw leaves (simp (h.open_yet, no_path) h)
          | inr more ↦ rw leaves (simp (h.open_yet, more) done)
        ]
      ]

  step-Undoes :
      (call : Call) (calls : List Call) (t : Transaction)
      → Spares k (call ∷ calls)
      → Undoes k start t
      → Undoes k start (step call t) × Spares k calls
  unfolding step
  step-Undoes (create_call path obj now next_id) calls t s h =
      (create-Undoes path obj now next_id t h, s)
  step-Undoes (update_call path obj now) calls t s h = (update-Undoes path obj now t h, s)
  step-Undoes (delete_call path now) calls t s h = (delete_object-Undoes path now t s.0 h, s.1)
  step-Undoes (delete_all_call paths now) calls t s h = (delete_all-Undoes paths now t s.0 h, s.1)
  step-Undoes (purge_call older_than) calls t s h = (purge-Undoes older_than t h, s)
  step-Undoes flush_call calls t s h = absurd s

  run-Undoes :
      (calls : List Call) (t : Transaction)
      → Spares k calls
      → Undoes k start t
      → Undoes k start (run calls t)
  unfolding run
  run-Undoes [] t s h = h
  run-Undoes (call ∷ calls) t s h =
      let (h', s') = step-Undoes call calls t s h in run-Undoes calls (step call t) s' h'

-- After calls with no flush among them a rollback succeeds and releases the mutex, and a namespace
-- that begins with no path which the calls deleted has the live and the deleted objects, and the
-- epoch, that it had at the beginning.
pub rollback-begin_at :
    (k : Text) (b : Backend) (calls : List Call)
    → Spares k calls
    → let t = run calls (begin b) in
      ((rollback t).0 ≡ ok tt) × SameAt k (rollback t).1.b b × ((rollback t).1.b.locked ≡ false)
unfolding rollback finish
rollback-begin_at k b calls s =
    let h = run-Undoes k b calls (begin b) s (begin-Undoes k b) in
    simp (h.open_yet, h.unflushed) (refl, (h.live, h.dead), refl)
