-- ===== src/Cache/Steps.antt =====
-- internal/conn/memory/cache/cache.go: the methods of an open transaction, branch by branch.
use riposo.Prelude.{ℕ, ◌≡◌, refl, false, arith, Text, ok, err}
use riposo.Undo.{backup}
use riposo.Cache.{
  Transaction, Error, copy_item, get, set, del, store, drop_key, backup_key, validate_key,
}

pub backup_key-unflushed :
    (key : Text) (t : Transaction)
    → t.flushed ≡ false
    → backup_key key t ≡ record t { xkeys = backup copy_item key t.b.keys t.xkeys }
unfolding backup_key
backup_key-unflushed key t h = ground arith

pub backup_key-b : (key : Text) (t : Transaction) → (backup_key key t).b ≡ t.b
unfolding backup_key
backup_key-b key t = ground arith

pub backup_key-done : (key : Text) (t : Transaction) → (backup_key key t).done ≡ t.done
unfolding backup_key
backup_key-done key t = ground arith

pub set-valid :
    (key val : Text) (exp : ℕ) (t : Transaction) {u : Unit {0}}
    → t.done ≡ false
    → validate_key key ≡ ok u
    → (set key val exp t).1 ≡ store key val exp t
unfolding set
set-valid key val exp t h valid = rw (valid, set) (ground arith)

pub set-invalid :
    (key val : Text) (exp : ℕ) (t : Transaction) {e : Error}
    → validate_key key ≡ err e
    → (set key val exp t).1 ≡ t
unfolding set
set-invalid key val exp t invalid = rw (invalid, set) refl

pub del-open :
    (key : Text) (now : ℕ) (t : Transaction) → t.done ≡ false → (del key now t).1 ≡ drop_key key t
unfolding del
del-open key now t h = ground arith

pub get-same : (key : Text) (now : ℕ) (t : Transaction) → (get key now t).1 ≡ t
unfolding get
get-same key now t = ground arith
