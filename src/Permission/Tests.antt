-- ===== src/Permission/Tests.antt =====
-- internal/conn/memory/permission/permission.go: runs, and instances of the theorems.
use riposo.Prelude.{
  ◌≡◌, refl, ◌↔◌, ◌⊎◌, true, false, some, List, [], ◌∷◌, Text, bytes, text_eq, text_lt, lookup,
  insert, delete, has_prefix, last_index_byte, elem, ok,
}
use riposo.Path.{is_node, namespace, split, contains}
use riposo.Undo.{restore, backup}
use riposo.Set
use riposo.Set.{Set, add, merge_slice, new_set, merge, remove, has, has_any, slice, sort_strings}
use riposo.Permission.{
  Backend, everyone, begin, commit, rollback, finish, copy_user, backup_user, write_user,
  principals_of, get_user_principals, with_principal, add_each, add_user_principal, remove_one,
  remove_each, purge_each, purge_user_principals,
}
use riposo.Permission.Aces.{
  Ace, set_at, copy_sets, copy_perms, backup_perms, write_perms, merge_each, merge_permissions,
  covers, drop_perms, drop_covered, delete_each, delete_permissions, match, grants, accessible,
  get_accessible_paths,
}
use riposo.Permission.Calls.{Call, add_user_call, purge_call, merge_call, delete_call, step, run}
use riposo.Permission.Rollback.{rollback-begin_principals}
use riposo.Permission.Holds.{holds}
use riposo.Permission.Grants.Runs.{expect_run_users, expect_run_entries, run-grants}
use riposo.Permission.Access.{inherits, get_user_principals_lem, get_accessible_paths_lem}
use riposo.Permission.Reaches.{Reaches}

program : Unit {0}
unfolding text_eq text_lt lookup insert delete has_prefix last_index_byte is_node namespace split
    contains restore backup add merge_slice new_set merge Set.copy remove has has_any slice
    sort_strings begin commit rollback finish copy_user backup_user write_user principals_of
    get_user_principals with_principal add_each add_user_principal remove_one remove_each purge_each
    purge_user_principals copy_sets copy_perms backup_perms write_perms merge_each merge_permissions
    covers drop_perms drop_covered delete_each delete_permissions match grants accessible
    get_accessible_paths step run
program = tt

abbrev alice : Text
alice = bytes "account:alice"

abbrev foo : Text
foo = bytes "/buckets/foo"

abbrev one : Text → Set
one v = (v, tt) ∷ []

-- Alice is in a group, and the group may write to the bucket foo.
abbrev start : Backend
start = record {
  users = (alice, one (bytes "team")) ∷ (everyone, one (bytes "all")) ∷ [];
  perms = (foo, (bytes "write", one (bytes "team")) ∷ []) ∷ [];
  locked = false;
}

abbrev calls : List Call
calls =
    add_user_call (bytes "other") (alice ∷ bytes "bob" ∷ [])
    ∷ purge_call (bytes "team" ∷ [])
    ∷ merge_call foo ((bytes "write", []) ∷ (bytes "read", alice ∷ []) ∷ [])
    ∷ delete_call (bytes "/buckets" ∷ [])
    ∷ []

abbrev ents : List Ace
ents = record { perm = bytes "write"; path = bytes "/buckets/*" } ∷ []

alice_has :
    get_user_principals alice (begin start)
    ≡ ok (
        alice
        ∷ bytes "all"
        ∷ bytes "system.Authenticated"
        ∷ bytes "system.Everyone"
        ∷ bytes "team"
        ∷ [])
unfolding program
alice_has = refl

team_reaches : get_accessible_paths [] (bytes "team" ∷ []) ents (begin start) ≡ ok (foo ∷ [])
unfolding program
team_reaches = refl

-- The paths that were given are not returned where no principal is.
given_are_dropped : get_accessible_paths (foo ∷ []) [] ents (begin start) ≡ ok []
unfolding program
given_are_dropped = refl

-- A rollback leaves an empty set for a user who had none.
bob_stays : lookup (bytes "bob") (rollback (run calls (begin start))).1.b.users ≡ some []
unfolding program
bob_stays = refl

rollback-begin_principals_example :
    ((rollback (run calls (begin start))).0 ≡ ok tt)
    × ((rollback (run calls (begin start))).1.b.locked ≡ false)
    × ((u v : Text)
        → holds v (lookup u (rollback (run calls (begin start))).1.b.users)
          ≡ holds v (lookup u start.users))
    × ((path perm v : Text)
        → holds v (set_at path perm (rollback (run calls (begin start))).1.b.perms)
          ≡ holds v (set_at path perm start.perms))
rollback-begin_principals_example = rollback-begin_principals start calls tt

run-grants_example :
    ((u v : Text)
      → holds v (lookup u (run calls (begin start)).b.users)
        ≡ expect_run_users calls (λ u v. holds v (lookup u start.users)) u v)
    × ((path perm v : Text)
        → holds v (set_at path perm (run calls (begin start)).b.perms)
          ≡ expect_run_entries calls
              (λ path perm v. holds v (set_at path perm start.perms))
              path
              perm
              v)
unfolding lookup text_eq
run-grants_example = run-grants calls start ((refl, (refl, tt)), tt)

get_user_principals_lem_example :
    (out : List Text) × (get_user_principals alice (begin start) ≡ ok out)
    × ((v : Text) → elem v out ≡ inherits alice v (begin start).b.users)
unfolding program
get_user_principals_lem_example = get_user_principals_lem alice (begin start) refl

get_accessible_paths_lem_example :
    (out : List Text) × (get_accessible_paths [] (bytes "team" ∷ []) ents (begin start) ≡ ok out)
    × ((path : Text)
        → (elem path out ≡ true) ↔ (
            (elem path [] ≡ true)
            ⊎ Reaches (bytes "team" ∷ []) ents path (lookup path (begin start).b.perms)))
unfolding program
get_accessible_paths_lem_example =
    get_accessible_paths_lem [] (bytes "team" ∷ []) ents (begin start) refl refl
      (refl, (refl, tt), tt)
