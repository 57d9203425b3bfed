-- ===== src/Permission/Grants/Runs.antt =====
-- internal/conn/memory/permission/permission.go: the principals after a sequence of calls.
use riposo.Permission.Grants.Users.{
  has_nothing, add_each-Shows, remove_each-Shows, purge_each-Shows,
}
use riposo.Permission.Grants.Entries.{add_ace-Shows, remove_ace-Shows, create-Shows, merge-Shows}
use riposo.Permission.Grants.Deletes.{delete-Shows}
use riposo.Prelude.{
  ◌≡◌, refl, Bool, true, false, List, [], ◌∷◌, arith, if◌then◌else◌, Text, lookup, IsMap, Result,
  ok, err,
}
use riposo.Permission.{
  Error, tx_done, Backend, Transaction, begin, flush, add_user_principal, remove_user_principal,
  purge_user_principals,
}
use riposo.Permission.Aces.{set_at, remove_ace_principal}
use riposo.Permission.Calls.{
  Call, add_user_call, remove_user_call, purge_call, add_ace_call, remove_ace_call, create_call,
  merge_call, delete_call, flush_call, step, run,
}
use riposo.Permission.Holds.{holds}
use riposo.Permission.Grants.{Users, Entries, expect_users, expect_entries, Shows}

-- The permission sets of the calls hold each permission once.
abbrev pub AreMaps : List Call → Type 0
AreMaps [] = Unit
AreMaps (merge_call path set ∷ calls) = IsMap set × AreMaps calls
AreMaps (call ∷ calls) = AreMaps calls

unfoldable pub expect_run_users : List Call → Users → Users
expect_run_users [] f = f
expect_run_users (call ∷ calls) f = expect_run_users calls (expect_users call f)

unfoldable pub expect_run_entries : List Call → Entries → Entries
expect_run_entries [] g = g
expect_run_entries (call ∷ calls) g = expect_run_entries calls (expect_entries call g)

flush-Shows :
    (t : Transaction) (f : Users) (g : Entries)
    → Shows f g t
    → Shows (λ u v. false) (λ path perm v. false) (flush t).1
unfolding flush set_at lookup
flush-Shows t f g h = simp (h.open_yet) (record {
  open_yet = refl;
  users = λ u v. has_nothing v;
  entries = λ path perm v. has_nothing v;
})

guarded :
    (d : Bool) (t t' : Transaction) (f : Users) (g : Entries)
    → d ≡ false
    → Shows f g t'
    → let r : Result Error (Unit {0}) × Transaction = if d then (err tx_done, t) else (ok tt, t') in
      Shows f g r.1
guarded true t t' f g e h = absurd (ground arith)
guarded false t t' f g e h = h

step-Shows :
    (call : Call) (calls : List Call) (t : Transaction) (f : Users) (g : Entries)
    → AreMaps (call ∷ calls)
    → Shows f g t
    → Shows (expect_users call f) (expect_entries call g) (step call t) × AreMaps calls
unfolding step add_user_principal remove_user_principal purge_user_principals remove_ace_principal
    expect_users expect_entries
step-Shows (add_user_call principal ids) calls t f g n h =
    (guarded t.done t _ _ _ h.open_yet (add_each-Shows principal ids t f g h), n)
step-Shows (remove_user_call principal ids) calls t f g n h =
    (guarded t.done t _ _ _ h.open_yet (remove_each-Shows principal ids t f g h), n)
step-Shows (purge_call principals) calls t f g n h =
    (guarded t.done t _ _ _ h.open_yet (purge_each-Shows principals t f g h), n)
step-Shows (add_ace_call principal ent) calls t f g n h = (add_ace-Shows principal ent t f g h, n)
step-Shows (remove_ace_call principal ent) calls t f g n h = (
  guarded t.done t _ _ _ h.open_yet
      (remove_ace-Shows principal ent (lookup ent.path t.b.perms) t f g refl h),
  n,
)
step-Shows (create_call k set) calls t f g n h = (create-Shows k set t f g h, n)
step-Shows (merge_call k set) calls t f g n h = (merge-Shows k set t f g n.0 h, n.1)
step-Shows (delete_call patterns) calls t f g n h = (delete-Shows patterns t f g h, n)
step-Shows flush_call calls t f g n h = (flush-Shows t f g h, n)

run-Shows :
    (calls : List Call) (t : Transaction) (f : Users) (g : Entries)
    → AreMaps calls
    → Shows f g t
    → Shows (expect_run_users calls f) (expect_run_entries calls g) (run calls t)
unfolding run expect_run_users expect_run_entries
run-Shows [] t f g n h = h
run-Shows (call ∷ calls) t f g n h =
    let (h', n') = step-Shows call calls t f g n h in
    run-Shows calls (step call t) (expect_users call f) (expect_entries call g) n' h'

-- Whatever calls a transaction makes, where the permission sets of its merges hold each permission
-- once, the principals of the users and of the permissions of paths change as the two functions
-- `expect_users` and `expect_entries` say of each call.
pub run-grants :
    (calls : List Call) (b : Backend)
    → AreMaps calls
    → let b' = (run calls (begin b)).b in
      ((u v : Text)
        → holds v (lookup u b'.users)
          ≡ expect_run_users calls (λ u v. holds v (lookup u b.users)) u v)
      × ((path perm v : Text)
          → holds v (set_at path perm b'.perms)
            ≡ expect_run_entries calls
                (λ path perm v. holds v (set_at path perm b.perms))
                path
                perm
                v)
run-grants calls b n =
    let f : Users = λ u v. holds v (lookup u b.users) in
    let g : Entries = λ path perm v. holds v (set_at path perm b.perms) in
    let start : Shows f g (begin b) =
      unfold begin in
      record { open_yet = refl; users = λ u v. refl; entries = λ path perm v. refl } in
    let h = run-Shows calls (begin b) f g n start in (h.users, h.entries)
