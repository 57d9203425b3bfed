-- ===== src/Undo.antt =====
-- The undo log that the three in-memory backends (internal/conn/memory) keep in a transaction: a
-- map of the values from before the first write of each key, where a nil pointer stands for a key
-- that was missing. `copy` is what a backend keeps of a value.
pub mod Laws
use riposo.Prelude.{Option, none, some, List, [], ◌∷◌, Text, Dict, lookup, insert, delete}

abbrev pub Log {ℓ} : Type ℓ → Type ℓ
Log V = Dict (Option V)

module _ {ℓ} {V : Type ℓ} where
  -- The loop of `Rollback` over the log.
  unfoldable pub restore : Log V → Dict V → Dict V
  restore [] m = m
  restore ((k, none) ∷ log) m = delete k (restore log m)
  restore ((k, some v) ∷ log) m = insert k v (restore log m)

  -- `if _, ok := log[k]; !ok { log[k] = copy(m[k]) }`
  unfoldable pub backup : (Option V → Option V) → Text → Dict V → Log V → Log V
  backup copy k m log = elim (lookup k log) [
    | some old ↦ log
    | none ↦ insert k (copy (lookup k m)) log
  ]

  -- A map of pointers none of which is nil, kept whole at a flush.
  unfoldable pub pointers : Dict V → Log V
  pointers [] = []
  pointers ((k, v) ∷ m) = (k, some v) ∷ pointers m

  -- The map that is kept in the log, put back whole after a flush.
  unfoldable pub values : Log V → Dict V
  values [] = []
  values ((k, none) ∷ log) = values log
  values ((k, some v) ∷ log) = (k, v) ∷ values log
