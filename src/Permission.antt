-- ===== src/Permission.antt =====
-- internal/conn/memory/permission/permission.go: the backend in memory, which holds the principals
-- of the users and, for each path, sets of principals by permission; its transactions, and the
-- methods on the principals of users. A set that is changed in place is put back under its key.
pub mod Aces
pub mod Calls
pub mod Locks
pub mod Holds
pub mod Rollback
pub mod Grants
pub mod Reaches
pub mod Access
mod Tests
use riposo.Prelude.{
  Bool, true, false, ◌||◌, Option, none, some, List, [], ◌∷◌, if◌then◌else◌, Text, bytes, text_eq,
  Dict, lookup, insert, keys, Result, ok, err,
}
use riposo.Undo.{Log, restore, backup, pointers, values}
use riposo.Set
use riposo.Set.{Set, new_set, add, remove, merge, slice}

abbrev pub everyone : Text
everyone = bytes "system.Everyone"

abbrev pub authenticated : Text
authenticated = bytes "system.Authenticated"

pub record Backend : Type 0 where
  pub users : Dict Set
  pub perms : Dict (Dict Set)
  pub locked : Bool

abbrev pub new : Backend
new = record { users = []; perms = []; locked = false }

pub record Transaction : Type 0 where
  pub b : Backend
  pub xusers : Log Set
  pub xperms : Log (Dict Set)
  pub done : Bool
  pub flushed : Bool

pub data Error : Type 0 where
  tx_done : Error

-- Waits for the mutex first: it is called where `locked` is false.
unfoldable pub begin : Backend → Transaction
begin b = record {
  b = record b { locked = true };
  xusers = [];
  xperms = [];
  done = false;
  flushed = false;
}

-- t.done = true, and the deferred unlock
unfoldable pub finish : Transaction → Dict Set → Dict (Dict Set) → Transaction
finish t users perms = record t {
  b = record t.b { users = users; perms = perms; locked = false };
  done = true;
}

unfoldable pub commit : Transaction → Result Error (Unit {0}) × Transaction
commit t = if t.done then (err tx_done, t) else (ok tt, finish t t.b.users t.b.perms)

unfoldable pub rollback : Transaction → Result Error (Unit {0}) × Transaction
rollback t =
    if t.done
    then (err tx_done, t)
    else if t.flushed
    then (ok tt, finish t (values t.xusers) (values t.xperms))
    else (ok tt, finish t (restore t.xusers t.b.users) (restore t.xperms t.b.perms))

unfoldable pub flush : Transaction → Result Error (Unit {0}) × Transaction
flush t = if t.done then (err tx_done, t) else (
  ok tt,
  record t {
    b = record t.b { users = []; perms = [] };
    xusers = if t.flushed then t.xusers else pointers t.b.users;
    xperms = if t.flushed then t.xperms else pointers t.b.perms;
    flushed = true;
  },
)

-- m[k] for a map of maps, where a missing key gives a nil map, which reads as an empty one.
abbrev pub or_empty {ℓ} : {V : Type ℓ} → Option (Dict V) → Dict V
or_empty none = []
or_empty (some m) = m

-- t.b.users[userID].Copy(), which is an empty set for a missing user.
unfoldable pub copy_user : Option Set → Option Set
copy_user o = some (Set.copy (or_empty o))

unfoldable pub backup_user : Text → Transaction → Transaction
backup_user user_id t =
    if t.flushed then t else record t { xusers = backup copy_user user_id t.b.users t.xusers }

-- The backup of a user, and the set of the user after it was put in or changed.
unfoldable pub write_user : Text → Set → Transaction → Transaction
write_user user_id set t =
    let t' = backup_user user_id t in
    record t' { b = record t'.b { users = insert user_id set t'.b.users } }

-- The set that `GetUserPrincipals` builds.
unfoldable pub principals_of : Text → Dict Set → Set
principals_of user_id users =
    let set = add user_id (Set.copy (or_empty (lookup user_id users))) in
    if text_eq user_id everyone
    then set
    else if text_eq user_id authenticated
    then merge (add everyone set) (or_empty (lookup everyone users))
    else merge
        (merge (add everyone (add authenticated set)) (or_empty (lookup authenticated users)))
        (or_empty (lookup everyone users))

unfoldable pub get_user_principals : Text → Transaction → Result Error (List Text)
get_user_principals user_id t =
    if t.done then err tx_done else ok (slice (principals_of user_id t.b.users))

-- The set of a user with one more principal.
unfoldable pub with_principal : Text → Option Set → Set
with_principal principal none = new_set (principal ∷ [])
with_principal principal (some set) = add principal set

unfoldable pub add_each : Text → List Text → Transaction → Transaction
add_each principal [] t = t
add_each principal (user_id ∷ user_ids) t =
    add_each principal user_ids
      (write_user user_id (with_principal principal (lookup user_id t.b.users)) t)

unfoldable pub add_user_principal :
    Text → List Text → Transaction → Result Error (Unit {0}) × Transaction
add_user_principal principal user_ids t =
    if t.done then (err tx_done, t) else (ok tt, add_each principal user_ids t)

-- A round of the loop of `RemoveUserPrincipal`.
unfoldable pub remove_one : Text → Text → Option Set → Transaction → Transaction
remove_one principal user_id none t = t
remove_one principal user_id (some set) t = write_user user_id (remove principal set) t

unfoldable pub remove_each : Text → List Text → Transaction → Transaction
remove_each principal [] t = t
remove_each principal (user_id ∷ user_ids) t =
    remove_each principal user_ids (remove_one principal user_id (lookup user_id t.b.users) t)

unfoldable pub remove_user_principal :
    Text → List Text → Transaction → Result Error (Unit {0}) × Transaction
remove_user_principal principal user_ids t =
    if t.done then (err tx_done, t) else (ok tt, remove_each principal user_ids t)

-- The loop of `PurgeUserPrincipals` over all users does what `remove_each` does with their IDs.
unfoldable pub purge_each : List Text → Transaction → Transaction
purge_each [] t = t
purge_each (principal ∷ principals) t =
    purge_each principals (remove_each principal (keys t.b.users) t)

unfoldable pub purge_user_principals :
    List Text → Transaction → Result Error (Unit {0}) × Transaction
purge_user_principals principals t =
    if t.done then (err tx_done, t) else (ok tt, purge_each principals t)
