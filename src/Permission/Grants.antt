-- ===== src/Permission/Grants.antt =====
-- internal/conn/memory/permission/permission.go: which principals users and permissions have after a
-- sequence of calls, described without maps or sets.
pub mod Users
pub mod Entries
pub mod Deletes
pub mod Runs
use riposo.Prelude.{
  ◌≡◌, ◌==◌, refl, sym, ap, ◌∙◌, Bool, true, false, ◌&&◌, ◌||◌, Option, none, some, List, [], ◌∷◌,
  arith, if◌then◌else◌, Bool-cases, Option-cases, inl, inr, is_empty, Text, text_eq, text_eq_iff,
  text_eq_refl, Dict, lookup, insert, delete, keys, elem, elem-keys, IsMap, lookup-insert,
  lookup-delete,
}
use riposo.Set
use riposo.Set.{Set, has, add, remove, new_set, merge_slice}
use riposo.Set.Members.{has-new, has-add, has-remove, has-merge_slice}
use riposo.Permission.{
  Backend, Transaction, begin, flush, or_empty, backup_user, write_user, with_principal, add_each,
  add_user_principal, remove_one, remove_each, remove_user_principal, purge_each,
  purge_user_principals,
}
use riposo.Permission.Aces.{
  Ace, PermissionSet, set_at, backup_perms, write_perms, add_ace_principal, without_principal,
  remove_ace, remove_ace_principal, create_each, create_permissions, merge_each, merge_permissions,
  drop_perms, drop_covered, delete_each, delete_permissions,
}
use riposo.Permission.Calls.{
  Call, add_user_call, remove_user_call, purge_call, add_ace_call, remove_ace_call, create_call,
  merge_call, delete_call, flush_call, step, run,
}
use riposo.Permission.Holds.{holds, allows}

-- Which principals each user has.
abbrev pub Users : Type 0
Users = Text → Text → Bool

-- Which principals each permission of each path has.
abbrev pub Entries : Type 0
Entries = Text → Text → Text → Bool

unfoldable pub added : Text → List Text → Users → Users
added principal ids f u v = f u v || (elem u ids && text_eq principal v)

unfoldable pub taken : Text → List Text → Users → Users
taken principal ids f u v = if elem u ids && text_eq principal v then false else f u v

unfoldable pub purged : List Text → Users → Users
purged principals f u v = if elem v principals then false else f u v

-- Whether a permission set lists a principal under a permission.
unfoldable pub listed : PermissionSet → Text → Text → Bool
listed [] perm v = false
listed ((k, principals) ∷ set) perm v = (text_eq k perm && elem v principals) || listed set perm v

-- Whether a path is the pattern, or goes on after it with a slash.
unfoldable pub own_or_below : Text → Text → Bool
own_or_below [] [] = true
own_or_below [] (c ∷ path) = c == b'/'
own_or_below (p ∷ pattern) [] = false
own_or_below (p ∷ pattern) (c ∷ path) = (p == c) && own_or_below pattern path

-- Whether a path is one of the patterns, or lies below one.
unfoldable pub covered : List Text → Text → Bool
covered [] path = false
covered (pattern ∷ patterns) path = own_or_below pattern path || covered patterns path

-- A principal list in place of whether a principal was there, if there is one.
unfoldable pub replaced : Text → Option (List Text) → Bool → Bool
replaced v none old = old
replaced v (some principals) old = elem v principals

unfoldable pub expect_users : Call → Users → Users
expect_users (add_user_call principal ids) f = added principal ids f
expect_users (remove_user_call principal ids) f = taken principal ids f
expect_users (purge_call principals) f = purged principals f
expect_users flush_call f = λ u v. false
expect_users call f = f

unfoldable pub expect_entries : Call → Entries → Entries
expect_entries (add_ace_call principal ent) g = λ path perm v.
    g path perm v || (text_eq ent.path path && text_eq ent.perm perm && text_eq principal v)
expect_entries (remove_ace_call principal ent) g = λ path perm v.
    if text_eq ent.path path && text_eq ent.perm perm && text_eq principal v
    then false
    else g path perm v
expect_entries (create_call k set) g =
    λ path perm v. g path perm v || (text_eq k path && listed set perm v)
expect_entries (merge_call k set) g = λ path perm v.
    if text_eq k path then replaced v (lookup perm set) (g path perm v) else g path perm v
expect_entries (delete_call patterns) g =
    λ path perm v. if covered patterns path then false else g path perm v
expect_entries flush_call g = λ path perm v. false
expect_entries call g = g

-- An open transaction whose backend holds these principals.
pub record Shows (f : Users) (g : Entries) (t : Transaction) : Type 0 where
  pub open_yet : t.done ≡ false
  pub users : (u v : Text) → holds v (lookup u t.b.users) ≡ f u v
  pub entries : (path perm v : Text) → holds v (set_at path perm t.b.perms) ≡ g path perm v

-- Other descriptions of the same principals.
pub same-Shows :
    (f f' : Users) (g g' : Entries) (t : Transaction)
    → ((u v : Text) → f u v ≡ f' u v)
    → ((path perm v : Text) → g path perm v ≡ g' path perm v)
    → Shows f g t
    → Shows f' g' t
same-Shows f f' g g' t p q h = record {
  open_yet = h.open_yet;
  users = λ u v. h.users u v ∙ p u v;
  entries = λ path perm v. h.entries path perm v ∙ q path perm v;
}
