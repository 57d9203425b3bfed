-- ===== src/Undo/Laws.antt =====
-- The laws of the undo log: what `Rollback` would bring back stays the same while keys are logged
-- and while logged keys are written.
use riposo.Prelude.{
  ◌≡◌, refl, sym, ap, ◌∙◌, Option, none, some, [], ◌∷◌, arith, if◌then◌else◌, Bool-cases, inl, inr,
  false, Text, text_eq, text_eq_iff, Dict, lookup, lookup-insert, lookup-delete,
}
use riposo.Undo.{Log, restore, backup, pointers, values}

module _ {ℓ} {V : Type ℓ} where
  -- The log goes before the map.
  abbrev first_log : Option (Option V) → Option V → Option V
  first_log none now = now
  first_log (some old) now = old

  pub lookup-restore :
      (j : Text) (log : Log V) (m : Dict V)
      → lookup j (restore log m) ≡ first_log (lookup j log) (lookup j m)
  unfolding restore lookup
  lookup-restore j [] m = refl
  lookup-restore j ((k, none) ∷ log) m =
      ground (arith, lookup-delete k j (restore log m), lookup-restore j log m)
  lookup-restore j ((k, some v) ∷ log) m =
      ground (arith, lookup-insert k j v (restore log m), lookup-restore j log m)

  pub lookup-backup :
      (copy : Option V → Option V) (k j : Text) (m : Dict V) (log : Log V)
      → lookup j (backup copy k m log) ≡ (
          if text_eq k j then some (first_log (lookup j log) (copy (lookup j m))) else lookup j log)
  unfolding backup
  lookup-backup copy k j m log =
      ground (arith, lookup-insert k j (copy (lookup k m)) log, text_eq_iff k j)

  pub values-pointers : (m : Dict V) → values (pointers m) ≡ m
  unfolding values pointers
  values-pointers [] = refl
  values-pointers ((k, v) ∷ m) = ap (◌∷◌ (k, v)) (values-pointers m)

-- `view` is what can be seen of a value or of its absence.
module _ {ℓ} {V W : Type ℓ} (view : Option V → W) where
  -- A rollback from here shows `start` again.
  abbrev pub Restores : Dict V → Log V → Dict V → Type ℓ
  Restores start log m = (j : Text) → view (lookup j (restore log m)) ≡ view (lookup j start)

  pub Restores-start : (m : Dict V) → Restores m [] m
  unfolding restore
  Restores-start m j = refl

  -- Logging a key and then writing, as it is seen at one key j.
  pub restores_at-write :
      (copy : Option V → Option V) (k j : Text) (m m' : Dict V) (log : Log V) {w : W}
      → ((o : Option V) → view (copy o) ≡ view o)
      → view (lookup j (restore log m)) ≡ w
      → (text_eq k j ≡ false → lookup j m' ≡ lookup j m)
      → view (lookup j (restore (backup copy k m log) m')) ≡ w
  restores_at-write copy k j m m' log {w} kept h same = elim (Bool-cases (text_eq k j)) [
    | inl here ↦ rw (lookup-restore, lookup-backup, here) (seen_copy (lookup j log) ∙ old)
    | inr elsewhere ↦ rw (lookup-restore, lookup-backup, elsewhere) (rw (same elsewhere) old)
  ]
    where
      old : view (first_log (lookup j log) (lookup j m)) ≡ w
      old = ap view (sym (lookup-restore j log m)) ∙ h

      seen_copy :
          (l : Option (Option V))
          → view (first_log l (copy (lookup j m))) ≡ view (first_log l (lookup j m))
      seen_copy none = kept (lookup j m)
      seen_copy (some o) = refl

  -- Logging a key and then changing the map at that key alone.
  pub Restores-write :
      (copy : Option V → Option V) (k : Text) (start m m' : Dict V) (log : Log V)
      → ((o : Option V) → view (copy o) ≡ view o)
      → Restores start log m
      → ((j : Text) → text_eq k j ≡ false → lookup j m' ≡ lookup j m)
      → Restores start (backup copy k m log) m'
  Restores-write copy k start m m' log kept h same j =
      restores_at-write copy k j m m' log kept (h j) (same j)
