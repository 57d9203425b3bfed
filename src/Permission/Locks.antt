-- ===== src/Permission/Locks.antt =====
-- internal/conn/memory/permission/permission.go: only `Commit` and `Rollback` end a transaction and
-- release the mutex.
use riposo.Prelude.{
  ◌≡◌, refl, ◌∙◌, Bool, false, Option, none, some, List, [], ◌∷◌, either, either_when,
  if◌then◌else◌, is_empty, lookup, keys, Dict, Text, Result,
}
use riposo.Locks.{Keeps, IsReleased, HasEnded, unchanged, transitive, released}
use riposo.Set.{Set, remove}
use riposo.Permission.{
  Transaction, Error, commit, rollback, finish, flush, backup_user, write_user, with_principal,
  add_each, add_user_principal, remove_one, remove_each, remove_user_principal, purge_each,
  purge_user_principals,
}
use riposo.Permission.Aces.{
  Ace, backup_perms, write_perms, add_ace_principal, remove_ace, without_principal,
  remove_ace_principal, create_permissions, merge_permissions, covers, drop_perms, drop_covered,
  delete_each, delete_permissions,
}
use riposo.Permission.Calls.{
  Call, add_user_call, remove_user_call, purge_call, add_ace_call, remove_ace_call, create_call,
  merge_call, delete_call, flush_call, step, run,
}

abbrev done : Transaction → Bool
done t = t.done

abbrev locked : Transaction → Bool
locked t = t.b.locked

abbrev Kept : Transaction → Transaction → Type 0
Kept = Keeps done locked

abbrev Beside : {A : Type 0} → Transaction → A × Transaction → Type 0
Beside t r = Kept t r.1

write_user-Keeps :
    (user_id : Text) (set : Set) (t : Transaction) → Kept t (write_user user_id set t)
unfolding write_user backup_user
write_user-Keeps user_id set t =
    let backed : Kept t (backup_user user_id t) =
      either (Kept t) t.flushed (unchanged done locked t)
        (record { same_done = refl; same_lock = refl }) in
    record { same_done = backed.same_done; same_lock = backed.same_lock }

write_perms-Keeps :
    (path : Text) (perms : Dict Set) (t : Transaction) → Kept t (write_perms path perms t)
unfolding write_perms backup_perms
write_perms-Keeps path perms t =
    let backed : Kept t (backup_perms path t) =
      either (Kept t) t.flushed (unchanged done locked t)
        (record { same_done = refl; same_lock = refl }) in
    record { same_done = backed.same_done; same_lock = backed.same_lock }

drop_perms-Keeps : (path : Text) (t : Transaction) → Kept t (drop_perms path t)
unfolding drop_perms backup_perms
drop_perms-Keeps path t =
    let backed : Kept t (backup_perms path t) =
      either (Kept t) t.flushed (unchanged done locked t)
        (record { same_done = refl; same_lock = refl }) in
    record { same_done = backed.same_done; same_lock = backed.same_lock }

-- The loops.
add_each-Keeps :
    (principal : Text) (user_ids : List Text) (t : Transaction)
    → Kept t (add_each principal user_ids t)
unfolding add_each
add_each-Keeps principal [] t = unchanged done locked t
add_each-Keeps principal (user_id ∷ user_ids) t =
    let set = with_principal principal (lookup user_id t.b.users) in
    let t' = write_user user_id set t in
    transitive done locked t t' (add_each principal user_ids t') (write_user-Keeps user_id set t)
      (add_each-Keeps principal user_ids t')

remove_one-Keeps :
    (principal user_id : Text) (o : Option Set) (t : Transaction)
    → Kept t (remove_one principal user_id o t)
unfolding remove_one
remove_one-Keeps principal user_id none t = unchanged done locked t
remove_one-Keeps principal user_id (some set) t = write_user-Keeps user_id (remove principal set) t

remove_each-Keeps :
    (principal : Text) (user_ids : List Text) (t : Transaction)
    → Kept t (remove_each principal user_ids t)
unfolding remove_each
remove_each-Keeps principal [] t = unchanged done locked t
remove_each-Keeps principal (user_id ∷ user_ids) t =
    let t' = remove_one principal user_id (lookup user_id t.b.users) t in
    transitive done locked t t' (remove_each principal user_ids t')
      (remove_one-Keeps principal user_id (lookup user_id t.b.users) t)
      (remove_each-Keeps principal user_ids t')

purge_each-Keeps : (principals : List Text) (t : Transaction) → Kept t (purge_each principals t)
unfolding purge_each
purge_each-Keeps [] t = unchanged done locked t
purge_each-Keeps (principal ∷ principals) t =
    let t' = remove_each principal (keys t.b.users) t in
    transitive done locked t t' (purge_each principals t')
      (remove_each-Keeps principal (keys t.b.users) t) (purge_each-Keeps principals t')

remove_ace-Keeps :
    (principal : Text) (ent : Ace) (o : Option (Dict Set)) (t : Transaction)
    → Kept t (remove_ace principal ent o t)
unfolding remove_ace
remove_ace-Keeps principal ent none t = unchanged done locked t
remove_ace-Keeps principal ent (some perms) t =
    write_perms-Keeps ent.path (without_principal principal ent.perm perms) t

drop_covered-Keeps :
    (paths : List Text) (path : Text) (t : Transaction) → Kept t (drop_covered paths path t)
unfolding drop_covered
drop_covered-Keeps [] path t = unchanged done locked t
drop_covered-Keeps (pattern ∷ paths) path t =
    let t' = if covers pattern path then drop_perms path t else t in
    transitive done locked t t' (drop_covered paths path t')
      (either (Kept t) (covers pattern path) (drop_perms-Keeps path t) (unchanged done locked t))
      (drop_covered-Keeps paths path t')

delete_each-Keeps : (paths rest : List Text) (t : Transaction) → Kept t (delete_each paths rest t)
unfolding delete_each
delete_each-Keeps paths [] t = unchanged done locked t
delete_each-Keeps paths (path ∷ rest) t =
    let t' = drop_covered paths path t in
    transitive done locked t t' (delete_each paths rest t') (drop_covered-Keeps paths path t)
      (delete_each-Keeps paths rest t')

step-Keeps : (call : Call) (t : Transaction) → Kept t (step call t)
unfolding step add_user_principal remove_user_principal purge_user_principals add_ace_principal
    remove_ace_principal create_permissions merge_permissions delete_permissions flush
step-Keeps (add_user_call principal user_ids) t =
    either (Beside t) t.done (unchanged done locked t) (add_each-Keeps principal user_ids t)
step-Keeps (remove_user_call principal user_ids) t =
    either (Beside t) t.done (unchanged done locked t) (remove_each-Keeps principal user_ids t)
step-Keeps (purge_call principals) t =
    either (Beside t) t.done (unchanged done locked t) (purge_each-Keeps principals t)
step-Keeps (add_ace_call principal ent) t =
    either (Beside t) t.done (unchanged done locked t) (write_perms-Keeps ent.path _ t)
step-Keeps (remove_ace_call principal ent) t =
    either (Beside t) t.done (unchanged done locked t)
      (remove_ace-Keeps principal ent (lookup ent.path t.b.perms) t)
step-Keeps (create_call path set) t =
    either (Beside t) t.done (unchanged done locked t) (write_perms-Keeps path _ t)
step-Keeps (merge_call path set) t =
    either (Beside t) t.done (unchanged done locked t) (write_perms-Keeps path _ t)
step-Keeps (delete_call paths) t = either (Beside t) t.done (unchanged done locked t) (
    either (Beside t) (is_empty paths) (unchanged done locked t)
      (delete_each-Keeps paths (keys t.b.perms) t))
step-Keeps flush_call t =
    either (Beside t) t.done (unchanged done locked t)
      (record { same_done = refl; same_lock = refl })

-- What the calls, a commit and a rollback leave behind.
pub run-open : (calls : List Call) (t : Transaction) → t.done ≡ false → (run calls t).done ≡ false
unfolding run
run-open [] t h = h
run-open (call ∷ calls) t h = run-open calls (step call t) ((step-Keeps call t).same_done ∙ h)

pub step-IsReleased :
    (call : Call) (t : Transaction)
    → IsReleased done locked t
    → IsReleased done locked (step call t)
step-IsReleased call t = released done locked t (step call t) (step-Keeps call t)

pub commit-HasEnded :
    (t : Transaction) → IsReleased done locked t → HasEnded done locked (commit t).1
unfolding commit finish
commit-HasEnded t h =
    either_when (λ (r : Result Error (Unit {0}) × Transaction). HasEnded done locked r.1) t.done
      (λ e. (e, h e)) (λ e. (refl, refl))

pub rollback-HasEnded :
    (t : Transaction) → IsReleased done locked t → HasEnded done locked (rollback t).1
unfolding rollback finish
rollback-HasEnded t h =
    let P : Result Error (Unit {0}) × Transaction → Type 0 = λ r. HasEnded done locked r.1 in
    either_when P t.done (λ e. (e, h e)) (λ e. either P t.flushed (refl, refl) (refl, refl))
