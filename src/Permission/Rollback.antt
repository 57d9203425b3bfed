-- ===== src/Permission/Rollback.antt =====
-- internal/conn/memory/permission/permission.go: what a rollback brings back.
use riposo.Prelude.{
  ◌≡◌, refl, Bool, true, false, Option, none, some, List, [], ◌∷◌, arith, if◌then◌else◌, Bool-cases,
  inl, inr, Text, Dict, lookup, keys, lookup-insert, lookup-delete, Result, ok, err,
}
use riposo.Undo.{restore}
use riposo.Undo.Laws.{restores_at-write}
use riposo.Set.{Set, remove}
use riposo.Permission.{
  Backend, Transaction, Error, tx_done, begin, rollback, finish, copy_user, write_user,
  with_principal, add_each, add_user_principal, remove_one, remove_each, remove_user_principal,
  purge_each, purge_user_principals,
}
use riposo.Permission.Aces.{
  Ace, set_at, copy_perms, write_perms, add_ace_principal, without_principal, remove_ace,
  remove_ace_principal, create_permissions, merge_permissions, covers, drop_perms, drop_covered,
  delete_each, delete_permissions,
}
use riposo.Permission.Calls.{
  Call, add_user_call, remove_user_call, purge_call, add_ace_call, remove_ace_call, create_call,
  merge_call, delete_call, flush_call, step, run, NoFlush,
}
use riposo.Permission.Holds.{
  holds, allows, holds-copy_user, allows-copy_perms, backup_user-unflushed, backup_perms-unflushed,
}

-- An open transaction that was not flushed, and that a rollback takes back to `start` for the
-- principal v of the user u, and of a permission of a path.
record Undoes (u path perm v : Text) (start : Backend) (t : Transaction) : Type 0 where
  open_yet : t.done ≡ false
  unflushed : t.flushed ≡ false
  user : holds v (lookup u (restore t.xusers t.b.users)) ≡ holds v (lookup u start.users)
  entry :
      allows perm v (lookup path (restore t.xperms t.b.perms))
      ≡ allows perm v (lookup path start.perms)

module _ (u path perm v : Text) (start : Backend) where
  begin-Undoes : Undoes u path perm v start (begin start)
  unfolding begin restore
  begin-Undoes = record { open_yet = refl; unflushed = refl; user = refl; entry = refl }

  write_user-Undoes :
      (k : Text) (s : Set) (t : Transaction)
      → Undoes u path perm v start t
      → Undoes u path perm v start (write_user k s t)
  unfolding write_user
  write_user-Undoes k s t h = rw (backup_user-unflushed k t h.unflushed) (record {
    open_yet = h.open_yet;
    unflushed = h.unflushed;
    user =
        restores_at-write (holds v) copy_user k u t.b.users _ t.xusers (holds-copy_user v) h.user
          λ e. rw (lookup-insert, e) refl;
    entry = h.entry;
  })

  write_perms-Undoes :
      (k : Text) (m : Dict Set) (t : Transaction)
      → Undoes u path perm v start t
      → Undoes u path perm v start (write_perms k m t)
  unfolding write_perms
  write_perms-Undoes k m t h = rw (backup_perms-unflushed k t h.unflushed) (record {
    open_yet = h.open_yet;
    unflushed = h.unflushed;
    user = h.user;
    entry =
        restores_at-write (allows perm v) copy_perms k path t.b.perms _ t.xperms
          (allows-copy_perms perm v) h.entry λ e. rw (lookup-insert, e) refl;
  })

  drop_perms-Undoes :
      (k : Text) (t : Transaction)
      → Undoes u path perm v start t
      → Undoes u path perm v start (drop_perms k t)
  unfolding drop_perms
  drop_perms-Undoes k t h = rw (backup_perms-unflushed k t h.unflushed) (record {
    open_yet = h.open_yet;
    unflushed = h.unflushed;
    user = h.user;
    entry =
        restores_at-write (allows perm v) copy_perms k path t.b.perms _ t.xperms
          (allows-copy_perms perm v) h.entry λ e. rw (lookup-delete, e) refl;
  })

  add_each-Undoes :
      (principal : Text) (ids : List Text) (t : Transaction)
      → Undoes u path perm v start t
      → Undoes u path perm v start (add_each principal ids t)
  unfolding add_each
  add_each-Undoes principal [] t h = h
  add_each-Undoes principal (id ∷ ids) t h =
      let s = with_principal principal (lookup id t.b.users) in
      add_each-Undoes principal ids (write_user id s t) (write_user-Undoes id s t h)

  remove_one-Undoes :
      (principal id : Text) (o : Option Set) (t : Transaction)
      → Undoes u path perm v start t
      → Undoes u path perm v start (remove_one principal id o t)
  unfolding remove_one
  remove_one-Undoes principal id none t h = h
  remove_one-Undoes principal id (some s) t h = write_user-Undoes id (remove principal s) t h

  remove_each-Undoes :
      (principal : Text) (ids : List Text) (t : Transaction)
      → Undoes u path perm v start t
      → Undoes u path perm v start (remove_each principal ids t)
  unfolding remove_each
  remove_each-Undoes principal [] t h = h
  remove_each-Undoes principal (id ∷ ids) t h =
      let o = lookup id t.b.users in
      remove_each-Undoes principal ids (remove_one principal id o t)
        (remove_one-Undoes principal id o t h)

  purge_each-Undoes :
      (principals : List Text) (t : Transaction)
      → Undoes u path perm v start t
      → Undoes u path perm v start (purge_each principals t)
  unfolding purge_each
  purge_each-Undoes [] t h = h
  purge_each-Undoes (principal ∷ principals) t h =
      purge_each-Undoes principals (remove_each principal (keys t.b.users) t)
        (remove_each-Undoes principal (keys t.b.users) t h)

  remove_ace-Undoes :
      (principal : Text) (ent : Ace) (o : Option (Dict Set)) (t : Transaction)
      → Undoes u path perm v start t
      → Undoes u path perm v start (remove_ace principal ent o t)
  unfolding remove_ace
  remove_ace-Undoes principal ent none t h = h
  remove_ace-Undoes principal ent (some m) t h =
      write_perms-Undoes ent.path (without_principal principal ent.perm m) t h

  drop_covered-Undoes :
      (patterns : List Text) (k : Text) (t : Transaction)
      → Undoes u path perm v start t
      → Undoes u path perm v start (drop_covered patterns k t)
  unfolding drop_covered
  drop_covered-Undoes [] k t h = h
  drop_covered-Undoes (pattern ∷ patterns) k t h = elim (Bool-cases (covers pattern k)) [
    | inl e ↦ rw e (drop_covered-Undoes patterns k (drop_perms k t) (drop_perms-Undoes k t h))
    | inr e ↦ rw e (drop_covered-Undoes patterns k t h)
  ]

  delete_each-Undoes :
      (patterns paths : List Text) (t : Transaction)
      → Undoes u path perm v start t
      → Undoes u path perm v start (delete_each patterns paths t)
  unfolding delete_each
  delete_each-Undoes patterns [] t h = h
  delete_each-Undoes patterns (k ∷ paths) t h =
      delete_each-Undoes patterns paths (drop_covered patterns k t)
        (drop_covered-Undoes patterns k t h)

  guarded :
      (d : Bool) (t t' : Transaction)
      → d ≡ false
      → Undoes u path perm v start t'
      → let r : Result Error (Unit {0}) × Transaction =
          if d then (err tx_done, t) else (ok tt, t') in
        Undoes u path perm v start r.1
  guarded true t t' e h = absurd (ground arith)
  guarded false t t' e h = h

  step-Undoes :
      (call : Call) (calls : List Call) (t : Transaction)
      → NoFlush (call ∷ calls)
      → Undoes u path perm v start t
      → Undoes u path perm v start (step call t) × NoFlush calls
  unfolding step add_user_principal remove_user_principal purge_user_principals add_ace_principal
      remove_ace_principal create_permissions merge_permissions delete_permissions
  step-Undoes (add_user_call principal ids) calls t n h =
      (guarded t.done t _ h.open_yet (add_each-Undoes principal ids t h), n)
  step-Undoes (remove_user_call principal ids) calls t n h =
      (guarded t.done t _ h.open_yet (remove_each-Undoes principal ids t h), n)
  step-Undoes (purge_call principals) calls t n h =
      (guarded t.done t _ h.open_yet (purge_each-Undoes principals t h), n)
  step-Undoes (add_ace_call principal ent) calls t n h =
      (guarded t.done t _ h.open_yet (write_perms-Undoes ent.path _ t h), n)
  step-Undoes (remove_ace_call principal ent) calls t n h = (
    guarded t.done t _ h.open_yet (remove_ace-Undoes principal ent (lookup ent.path t.b.perms) t h),
    n,
  )
  step-Undoes (create_call k set) calls t n h =
      (guarded t.done t _ h.open_yet (write_perms-Undoes k _ t h), n)
  step-Undoes (merge_call k set) calls t n h =
      (guarded t.done t _ h.open_yet (write_perms-Undoes k _ t h), n)
  step-Undoes (delete_call []) calls t n h = (guarded t.done t t h.open_yet h, n)
  step-Undoes (delete_call (pattern ∷ patterns)) calls t n h =
      let done = delete_each-Undoes (pattern ∷ patterns) (keys t.b.perms) t h in
      (guarded t.done t _ h.open_yet done, n)
  step-Undoes flush_call calls t n h = absurd n

  run-Undoes :
      (calls : List Call) (t : Transaction)
      → NoFlush calls
      → Undoes u path perm v start t
      → Undoes u path perm v start (run calls t)
  unfolding run
  run-Undoes [] t n h = h
  run-Undoes (call ∷ calls) t n h =
      let (h', n') = step-Undoes call calls t n h in run-Undoes calls (step call t) n' h'

-- After calls with no flush among them a rollback succeeds and releases the mutex, and every user
-- has the principals, and every permission of every path the principals, of the beginning.
pub rollback-begin_principals :
    (b : Backend) (calls : List Call)
    → NoFlush calls
    → let t = run calls (begin b) in
      ((rollback t).0 ≡ ok tt)
      × ((rollback t).1.b.locked ≡ false)
      × ((u v : Text) → holds v (lookup u (rollback t).1.b.users) ≡ holds v (lookup u b.users))
      × ((path perm v : Text)
          → holds v (set_at path perm (rollback t).1.b.perms) ≡ holds v (set_at path perm b.perms))
unfolding rollback finish set_at
rollback-begin_principals b calls n =
    let all = λ (u path perm v : Text).
      run-Undoes u path perm v b calls (begin b) n (begin-Undoes u path perm v b) in
    let h = all [] [] [] [] in
    simp (h.open_yet, h.unflushed)
      (refl, refl, λ u v. (all u [] [] v).user, λ path perm v. (all [] path perm v).entry)
