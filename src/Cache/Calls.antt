-- ===== src/Cache/Calls.antt =====
-- internal/conn/memory/cache/cache.go: the calls of a client between `Begin` and the end of its
-- transaction, one after another.
use riposo.Prelude.{ℕ, Bool, true, false, List, [], ◌∷◌, Text, Result, ok, err}
use riposo.Cache.{Transaction, Error, get, set, del, flush}

pub data Call : Type 0 where
  get_call : Text → ℕ → Call
  set_call : Text → Text → ℕ → Call
  del_call : Text → ℕ → Call
  flush_call : Call

-- What a call returns: the value of `Get`, or nothing.
pub data Reply : Type 0 where
  bytes_of : Text → Reply
  done : Reply

abbrev pub as_value : Result Error Text → Result Error Reply
as_value (ok val) = ok (bytes_of val)
as_value (err e) = err e

abbrev pub as_done : Result Error (Unit {0}) → Result Error Reply
as_done (ok u) = ok done
as_done (err e) = err e

unfoldable pub reply : Call → Transaction → Result Error Reply
reply (get_call key now) t = as_value (get key now t).0
reply (set_call key val exp) t = as_done (set key val exp t).0
reply (del_call key now) t = as_done (del key now t).0
reply flush_call t = as_done (flush t).0

unfoldable pub step : Call → Transaction → Transaction
step (get_call key now) t = (get key now t).1
step (set_call key val exp) t = (set key val exp t).1
step (del_call key now) t = (del key now t).1
step flush_call t = (flush t).1

unfoldable pub run : List Call → Transaction → Transaction
run [] t = t
run (call ∷ calls) t = run calls (step call t)

unfoldable pub replies : List Call → Transaction → List (Result Error Reply)
replies [] t = []
replies (call ∷ calls) t = reply call t ∷ replies calls (step call t)

abbrev pub is_flush : Call → Bool
is_flush flush_call = true
is_flush _ = false

abbrev pub NoFlush : List Call → Type 0
NoFlush [] = Unit
NoFlush (flush_call ∷ calls) = ⊥
NoFlush (_ ∷ calls) = NoFlush calls
