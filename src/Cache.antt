-- ===== src/Cache.antt =====
-- internal/conn/memory/cache/cache.go: the in-memory cache, whose keys expire, and its
-- transactions; and `ValidateKey` of pkg/conn/cache/cache.go. Times are numbers, and each method
-- that reads the clock takes the time. A method returns its result and the transaction after it.
-- The backend that a transaction points to is a field of it: the mutex, which `Begin` takes and
-- `Commit` or `Rollback` releases, keeps others away meanwhile.
pub mod Calls
pub mod Locks
mod Steps
pub mod Rollback
pub mod Reads
mod Tests
use riposo.Prelude.{
  ℕ, Bool, true, false, ◌||◌, Option, none, some, List, [], ◌∷◌, ltb, ◌==◌, if◌then◌else◌, Text,
  Dict, lookup, insert, delete, Result, ok, err, rune_count,
}
use riposo.Undo.{Log, restore, backup, pointers, values}

pub record Item : Type 0 where
  pub val : Text
  pub exp : ℕ

-- A copy has the same bytes and the same time; the copy of nil is nil.
abbrev pub copy_item : Option Item → Option Item
copy_item none = none
copy_item (some it) = some (record { val = it.val; exp = it.exp })

-- it.exp.Before(now)
unfoldable pub expired : Item → ℕ → Bool
expired it now = ltb it.exp now

pub record Backend : Type 0 where
  pub keys : Dict Item
  pub locked : Bool
  pub closed : Bool

abbrev pub new : Backend
new = record { keys = []; locked = false; closed = false }

pub record Transaction : Type 0 where
  pub b : Backend
  pub xkeys : Log Item
  pub done : Bool
  pub flushed : Bool

pub data Error : Type 0 where
  not_found tx_done invalid_key : Error

-- Waits for the mutex first: it is called where `locked` is false.
unfoldable pub begin : Backend → Transaction
begin b = record { b = record b { locked = true }; xkeys = []; done = false; flushed = false }

-- Also called where `locked` is false; the mutex is free again at the end.
unfoldable pub close : Backend → Backend
close b = record b { closed = true }

reap : ℕ → Dict Item → Dict Item
reap now [] = []
reap now ((key, it) ∷ keys) =
    let rest = reap now keys in if expired it now then rest else (key, it) ∷ rest

unfoldable pub reap_expired : ℕ → Backend → Backend
unfolding reap
reap_expired now b = record b { keys = reap now b.keys }

-- t.done = true, and the deferred unlock
unfoldable pub finish : Transaction → Dict Item → Transaction
finish t keys = record t { b = record t.b { keys = keys; locked = false }; done = true }

unfoldable pub commit : Transaction → Result Error (Unit {0}) × Transaction
commit t = if t.done then (err tx_done, t) else (ok tt, finish t t.b.keys)

unfoldable pub rollback : Transaction → Result Error (Unit {0}) × Transaction
rollback t =
    if t.done
    then (err tx_done, t)
    else if t.flushed
    then (ok tt, finish t (values t.xkeys))
    else (ok tt, finish t (restore t.xkeys t.b.keys))

unfoldable pub flush : Transaction → Result Error (Unit {0}) × Transaction
flush t = if t.done then (err tx_done, t) else (
  ok tt,
  record t {
    b = record t.b { keys = [] };
    xkeys = if t.flushed then t.xkeys else pointers t.b.keys;
    flushed = true;
  },
)

-- What `Get` finds of an entry.
unfoldable pub fresh : ℕ → Option Item → Result Error Text
fresh now none = err not_found
fresh now (some it) = if expired it now then err not_found else ok it.val

unfoldable pub get : Text → ℕ → Transaction → Result Error Text × Transaction
get key now t = if t.done then (err tx_done, t) else (fresh now (lookup key t.b.keys), t)

unfoldable pub backup_key : Text → Transaction → Transaction
backup_key key t =
    if t.flushed then t else record t { xkeys = backup copy_item key t.b.keys t.xkeys }

unfoldable pub validate_key : Text → Result Error (Unit {0})
validate_key key =
    let n = rune_count key in if (n == 0) || ltb 256 n then err invalid_key else ok tt

-- After the guards: the item of the key is overwritten in place, or a new one is put in.
unfoldable pub store : Text → Text → ℕ → Transaction → Transaction
store key val exp t =
    let t' = backup_key key t in
    record t' { b = record t'.b { keys = insert key (record { val = val; exp = exp }) t'.b.keys } }

unfoldable pub set : Text → Text → ℕ → Transaction → Result Error (Unit {0}) × Transaction
set key val exp t = elim (validate_key key) [
  | err e ↦ (err e, t)
  | ok _ ↦ if t.done then (err tx_done, t) else (ok tt, store key val exp t)
]

-- The result of `Del` from the entry that it removed.
unfoldable pub removed : ℕ → Option Item → Result Error (Unit {0})
removed now none = err not_found
removed now (some it) = if expired it now then err not_found else ok tt

unfoldable pub drop_key : Text → Transaction → Transaction
drop_key key t =
    let t' = backup_key key t in record t' { b = record t'.b { keys = delete key t'.b.keys } }

unfoldable pub del : Text → ℕ → Transaction → Result Error (Unit {0}) × Transaction
del key now t =
    if t.done then (err tx_done, t) else (removed now (lookup key t.b.keys), drop_key key t)
