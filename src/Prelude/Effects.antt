-- ===== src/Prelude/Effects.antt =====
-- Methods that change a state and return a value or an error. What was changed before an error
-- stays changed.
use mathlib.Core.Path.{◌≡◌, refl, ap, ◌∙◌}
use mathlib.Core.Logic.{inl, inr}
use mathlib.Core.Bool.{Bool, true, false}
use riposo.Prelude.Tests.{Result, ok, err, Result-cases, if◌then◌else◌}

abbrev pub Effect : Type 0 → Type 0 → Type 0 → Type 0
Effect S E A = S → Result E A × S

module _ {S E A : Type 0} where
  abbrev pub pure : A → Effect S E A
  pure a s = (ok a, s)

  abbrev pub raise : E → Effect S E A
  raise e s = (err e, s)

  abbrev pub gets : (S → A) → Effect S E A
  gets f s = (ok (f s), s)

  -- A method that only reads.
  abbrev pub reads : (S → Result E A) → Effect S E A
  reads f s = (f s, s)

abbrev pub raise_if : {S E : Type 0} → Bool → E → Effect S E (Unit {0})
raise_if c e s = (if c then err e else ok tt, s)

abbrev pub modify : {S E : Type 0} → (S → S) → Effect S E (Unit {0})
modify f s = (ok tt, f s)

-- What follows a call, by how it ended.
abbrev pub continue : {S E A B : Type 0} → (A → Effect S E B) → Result E A × S → Result E B × S
continue f (ok a, s) = f a s
continue f (err e, s) = (err e, s)

infixl 5 ◌>>=◌ ◌>>◌
abbrev pub ◌>>=◌ : {S E A B : Type 0} → Effect S E A → (A → Effect S E B) → Effect S E B
◌>>=◌ m f s = continue f (m s)

abbrev pub ◌>>◌ : {S E A B : Type 0} → Effect S E A → Effect S E B → Effect S E B
m >> k = m >>= λ _. k

abbrev pub map_err : {E F A : Type 0} → (E → F) → Result E A → Result F A
map_err f (ok a) = ok a
map_err f (err e) = err (f e)

abbrev pub map_ok : {E A B : Type 0} → (A → B) → Result E A → Result E B
map_ok f (ok a) = ok (f a)
map_ok f (err e) = err e

-- A method of a part of the state, with its errors as errors of the whole.
abbrev pub within :
    {S T E F A : Type 0} → (S → T) → (T → S → S) → (E → F) → Effect T E A → Effect S F A
within part put f m s = let (r, t) = m (part s) in (map_err f r, put t s)

module _ {S E A B : Type 0} (m : Effect S E A) (f : A → Effect S E B) (s : S) where
  pub bind-ok : (a : A) → (m s).0 ≡ ok a → (m >>= f) s ≡ f a (m s).1
  bind-ok a e = ap (λ r. continue f (r, (m s).1)) e

  pub bind-err : (x : E) → (m s).0 ≡ err x → (m >>= f) s ≡ (err x, (m s).1)
  bind-err x e = ap (λ r. continue f (r, (m s).1)) e

pub continue-continue :
    {S E A B C : Type 0} (f : A → Effect S E B) (g : B → Effect S E C) (p : Result E A × S)
    → continue g (continue f p) ≡ continue (λ a. f a >>= g) p
continue-continue f g (ok a, s) = refl
continue-continue f g (err e, s) = refl

-- An effect fails, and leaves the state as it is.
abbrev pub Refuses : {S E A : Type 0} → Effect S E A → S → Type 0
Refuses {E = E} m s = (e : E) × (m s ≡ (err e, s))

module _ {S E A B : Type 0} where
  pub reads_refused :
      (f : S → Result E A) (k : A → Effect S E B) (s : S)
      → ((a : A) → f s ≡ ok a → Refuses (k a) s)
      → Refuses (reads f >>= k) s
  reads_refused f k s h = elim (Result-cases (f s)) [
    | inl (a, e) ↦ let (x, there) = h a e in (x, bind-ok (reads f) k s a e ∙ there)
    | inr (x, e) ↦ (x, bind-err (reads f) k s x e)
  ]

  pub refused_here :
      (f : S → Result E A) (k : A → Effect S E B) (s : S) (x : E)
      → f s ≡ err x
      → Refuses (reads f >>= k) s
  refused_here f k s x e = (x, bind-err (reads f) k s x e)

pub raise_if_refused :
    {S E B : Type 0} (c : Bool) (e : E) (k : Effect S E B) (s : S)
    → Refuses k s
    → Refuses (raise_if c e >>= λ u. k) s
raise_if_refused true e k s h = (e, refl)
raise_if_refused false e k s h = h
