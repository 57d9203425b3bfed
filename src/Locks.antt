-- ===== src/Locks.antt =====
-- internal/conn/memory: the transactions of the three backends hold a mutex from `Begin` until they are
-- done. What follows for a transaction of any type, by whether it is done and whether the mutex of its
-- backend is held.
use riposo.Prelude.{◌≡◌, refl, sym, ◌∙◌, Bool, true, false}

module _ {T : Type 0} (done : T → Bool) (locked : T → Bool) where
  -- The second transaction is as much at its end as the first, and holds the mutex as the first does.
  pub record Keeps (t t' : T) : Type 0 where
    pub same_done : done t' ≡ done t
    pub same_lock : locked t' ≡ locked t

  -- So is the one beside a result.
  abbrev pub Stays : {A : Type 0} → T → A × T → Type 0
  Stays t r = Keeps t r.1

  -- A transaction that is done does not hold the mutex.
  abbrev pub IsReleased : T → Type 0
  IsReleased t = done t ≡ true → locked t ≡ false

  abbrev pub HasEnded : T → Type 0
  HasEnded t = (done t ≡ true) × (locked t ≡ false)

  pub unchanged : (t : T) → Keeps t t
  unchanged t = record { same_done = refl; same_lock = refl }

  pub transitive : (t t' t'' : T) → Keeps t t' → Keeps t' t'' → Keeps t t''
  transitive t t' t'' h k = record {
    same_done = k.same_done ∙ h.same_done;
    same_lock = k.same_lock ∙ h.same_lock;
  }

  pub released : (t t' : T) → Keeps t t' → IsReleased t → IsReleased t'
  released t t' k h e = k.same_lock ∙ h (sym k.same_done ∙ e)
