-- ===== src/Permission/Aces.antt =====
-- internal/conn/memory/permission/permission.go: the methods on access control entries and on the
-- permissions of paths.

use riposo.Prelude.{
  Bool, true, false, ◌&&◌, ◌||◌, Option, none, some, List, [], ◌∷◌, ◌++◌, if◌then◌else◌, is_empty,
  Text, bytes, text_eq, has_prefix, Dict, lookup, insert, delete, keys, Result, ok, err,
}
use riposo.Path.{contains}
use riposo.Undo.{backup}
use riposo.Set
use riposo.Set.{Set, new_set, merge_slice, merge, remove, slice, has_any, sort_strings}
use riposo.Permission.{Transaction, Error, tx_done, or_empty, with_principal}

pub record Ace : Type 0 where
  pub perm : Text
  pub path : Text

-- schema.PermissionSet
abbrev pub PermissionSet : Type 0
PermissionSet = Dict (List Text)

-- The loop of `backupPerms`.
unfoldable pub copy_sets : Dict Set → Dict Set
copy_sets [] = []
copy_sets ((k, v) ∷ pristine) = (k, Set.copy v) ∷ copy_sets pristine

unfoldable pub copy_perms : Option (Dict Set) → Option (Dict Set)
copy_perms o = some (copy_sets (or_empty o))

unfoldable pub backup_perms : Text → Transaction → Transaction
backup_perms path t =
    if t.flushed then t else record t { xperms = backup copy_perms path t.b.perms t.xperms }

-- The backup of a path, and the permissions of the path after they were put in or changed.
unfoldable pub write_perms : Text → Dict Set → Transaction → Transaction
write_perms path perms t =
    let t' = backup_perms path t in
    record t' { b = record t'.b { perms = insert path perms t'.b.perms } }

unfoldable pub set_at : Text → Text → Dict (Dict Set) → Option Set
set_at path perm perms = lookup perm (or_empty (lookup path perms))

slice_or_nil : Option Set → List Text
slice_or_nil none = []
slice_or_nil (some set) = slice set

unfoldable pub get_ace_principals : Ace → Transaction → Result Error (List Text)
unfolding slice_or_nil
get_ace_principals ent t =
    if t.done then err tx_done else ok (slice_or_nil (set_at ent.path ent.perm t.b.perms))

unfoldable pub add_ace_principal : Text → Ace → Transaction → Result Error (Unit {0}) × Transaction
add_ace_principal principal ent t =
    if t.done
    then (err tx_done, t)
    else let perms = or_empty (lookup ent.path t.b.perms) in
      let set = with_principal principal (lookup ent.perm perms) in
      (ok tt, write_perms ent.path (insert ent.perm set perms) t)

-- The permissions of a path without a principal.
unfoldable pub without_principal : Text → Text → Dict Set → Dict Set
without_principal principal perm perms = elim (lookup perm perms) [
  | none ↦ perms
  | some set ↦ insert perm (remove principal set) perms
]

unfoldable pub remove_ace : Text → Ace → Option (Dict Set) → Transaction → Transaction
remove_ace principal ent none t = t
remove_ace principal ent (some perms) t =
    write_perms ent.path (without_principal principal ent.perm perms) t

unfoldable pub remove_ace_principal :
    Text → Ace → Transaction → Result Error (Unit {0}) × Transaction
remove_ace_principal principal ent t =
    if t.done
    then (err tx_done, t)
    else (ok tt, remove_ace principal ent (lookup ent.path t.b.perms) t)

unfoldable pub merge_aces : List Ace → Dict (Dict Set) → Set → Set
merge_aces [] perms res = res
merge_aces (ent ∷ ents) perms res =
    merge_aces ents perms (merge res (or_empty (set_at ent.path ent.perm perms)))

unfoldable pub get_all_ace_principals : List Ace → Transaction → Result Error (List Text)
get_all_ace_principals ents t =
    if t.done
    then err tx_done
    else if is_empty ents
    then ok []
    else ok (slice (merge_aces ents t.b.perms []))

unfoldable pub slices : Dict Set → PermissionSet
slices [] = []
slices ((perm, set) ∷ perms) = (perm, slice set) ∷ slices perms

unfoldable pub get_permissions : Text → Transaction → Result Error PermissionSet
get_permissions path t =
    if t.done then err tx_done else ok (slices (or_empty (lookup path t.b.perms)))

-- The loop of `CreatePermissions`.
unfoldable pub create_each : PermissionSet → Dict Set → Dict Set
create_each [] perms = perms
create_each ((perm, principals) ∷ set) perms =
    create_each set (insert perm (merge_slice principals (or_empty (lookup perm perms))) perms)

unfoldable pub create_permissions :
    Text → PermissionSet → Transaction → Result Error (Unit {0}) × Transaction
create_permissions path set t =
    if t.done
    then (err tx_done, t)
    else (ok tt, write_perms path (create_each set (or_empty (lookup path t.b.perms))) t)

-- The loop of `MergePermissions`.
unfoldable pub merge_each : PermissionSet → Dict Set → Dict Set
merge_each [] perms = perms
merge_each ((perm, principals) ∷ set) perms =
    merge_each set
      (if is_empty principals then delete perm perms else insert perm (new_set principals) perms)

unfoldable pub merge_permissions :
    Text → PermissionSet → Transaction → Result Error (Unit {0}) × Transaction
merge_permissions path set t =
    if t.done
    then (err tx_done, t)
    else (ok tt, write_perms path (merge_each set (or_empty (lookup path t.b.perms))) t)

-- pattern == path || strings.HasPrefix(path.String(), pattern.String()+"/")
unfoldable pub covers : Text → Text → Bool
covers pattern path = text_eq pattern path || has_prefix path (pattern ++ bytes "/")

unfoldable pub drop_perms : Text → Transaction → Transaction
drop_perms path t =
    let t' = backup_perms path t in record t' { b = record t'.b { perms = delete path t'.b.perms } }

-- The loop of `DeletePermissions` over the patterns.
unfoldable pub drop_covered : List Text → Text → Transaction → Transaction
drop_covered [] path t = t
drop_covered (pattern ∷ paths) path t =
    drop_covered paths path (if covers pattern path then drop_perms path t else t)

unfoldable pub delete_each : List Text → List Text → Transaction → Transaction
delete_each paths [] t = t
delete_each paths (path ∷ rest) t = delete_each paths rest (drop_covered paths path t)

unfoldable pub delete_permissions : List Text → Transaction → Result Error (Unit {0}) × Transaction
delete_permissions paths t =
    if t.done
    then (err tx_done, t)
    else if is_empty paths
    then (ok tt, t)
    else (ok tt, delete_each paths (keys t.b.perms) t)

unfoldable pub match : List Ace → Text → Text → Bool
match [] path perm = false
match (ent ∷ ents) path perm =
    if text_eq ent.perm perm && contains ent.path path then true else match ents path perm

-- The loop of `GetAccessiblePaths` over the permissions of a path, up to its `break`.
unfoldable pub grants : List Text → List Ace → Text → Dict Set → Bool
grants principals ents path [] = false
grants principals ents path ((perm, allowed) ∷ perms) =
    if match ents path perm && has_any allowed principals
    then true
    else grants principals ents path perms

unfoldable pub accessible : List Text → List Ace → Dict (Dict Set) → List Text → List Text
accessible principals ents [] dst = dst
accessible principals ents ((path, perms) ∷ rest) dst =
    accessible principals ents rest
      (if grants principals ents path perms then dst ++ path ∷ [] else dst)

unfoldable pub get_accessible_paths :
    List Text → List Text → List Ace → Transaction → Result Error (List Text)
get_accessible_paths dst principals ents t =
    if t.done
    then err tx_done
    else if is_empty principals || is_empty ents
    then ok []
    else ok (sort_strings (accessible principals ents t.b.perms dst))
