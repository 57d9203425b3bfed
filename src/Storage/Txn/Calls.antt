-- ===== src/Storage/Txn/Calls.antt =====
-- internal/conn/memory/storage/storage.go: the calls that change objects, between `Begin` and the
-- end of a transaction, one after another. The methods that only read change nothing.
use mathlib.Core.Path.{◌≡◌}
use riposo.Prelude.{ℕ, ◌||◌, Bool, false, List, [], ◌∷◌, Text, has_prefix}
use riposo.Schema.{Object}
use riposo.Storage.Txn.{Transaction, create, update, delete_object, delete_all, purge, flush}

pub data Call : Type 0 where
  create_call : Text → Object → ℕ → Text → Call
  update_call : Text → Object → ℕ → Call
  delete_call : Text → ℕ → Call
  delete_all_call : List Text → ℕ → Call
  purge_call : ℕ → Call
  flush_call : Call

unfoldable pub step : Call → Transaction → Transaction
step (create_call path obj now next_id) t = (create path obj now next_id t).1
step (update_call path obj now) t = (update path obj now t).1
step (delete_call path now) t = (delete_object path now t).1
step (delete_all_call paths now) t = (delete_all paths now t).1
step (purge_call older_than) t = (purge older_than t).1
step flush_call t = (flush t).1

unfoldable pub run : List Call → Transaction → Transaction
run [] t = t
run (call ∷ calls) t = run calls (step call t)

-- Whether a namespace begins with one of the paths.
unfoldable pub below : Text → List Text → Bool
below k [] = false
below k (path ∷ paths) = has_prefix k path || below k paths

-- The calls do not flush, and delete no path that the namespace begins with.
abbrev pub Spares : Text → List Call → Type 0
Spares k [] = Unit
Spares k (create_call path obj now next_id ∷ calls) = Spares k calls
Spares k (update_call path obj now ∷ calls) = Spares k calls
Spares k (delete_call path now ∷ calls) = (has_prefix k path ≡ false) × Spares k calls
Spares k (delete_all_call paths now ∷ calls) = (below k paths ≡ false) × Spares k calls
Spares k (purge_call older_than ∷ calls) = Spares k calls
Spares k (flush_call ∷ calls) = ⊥
