-- ===== src/Prelude/Values.antt =====
-- What holds of the values that methods return, where they return no error.
use mathlib.Core.Path.{◌≡◌, refl}
use riposo.Prelude.Tests.{Result, ok, err}
use riposo.Prelude.Effects.{Effect, continue, map_err}

-- A property of what a method returns, where it returns no error.
abbrev pub IfOk : {E A : Type 0} → (A → Type 0) → Result E A → Type 0
IfOk P (ok a) = P a
IfOk P (err e) = Unit

-- What holds of the value of an effect, where it returns no error.
abbrev pub After : {S E A : Type 0} → (A → Type 0) → Result E A × S → Type 0
After P (ok a, c) = P a
After P (err e, c) = Unit

-- Two continuations that do the same with such a value.
pub After-same :
    {S E A B : Type 0} (P : A → Type 0) (k k' : A → Effect S E B) (p : Result E A × S)
    → After P p
    → ((a : A) (c : S) → P a → k a c ≡ k' a c)
    → continue k p ≡ continue k' p
After-same P k k' (ok a, c) h same = same a c h
After-same P k k' (err e, c) h same = refl

-- Two continuations that do the same with any value.
pub always_same :
    {S E A B : Type 0} (k k' : A → Effect S E B) (p : Result E A × S)
    → ((a : A) (c : S) → k a c ≡ k' a c)
    → continue k p ≡ continue k' p
always_same k k' (ok a, c) same = same a c
always_same k k' (err e, c) same = refl

pub step_same :
    {S E A B : Type 0} (k k' : A → Effect S E B) (r : Result E A) (c : S)
    → ((a : A) → k a c ≡ k' a c)
    → continue k (r, c) ≡ continue k' (r, c)
step_same k k' (ok a) c same = same a
step_same k k' (err e) c same = refl

pub value_of : {S E A : Type 0} (P : A → Type 0) (p : Result E A × S) → After P p → IfOk P p.0
value_of P (ok a, c) h = h
value_of P (err e, c) h = h

module _ {S E A B : Type 0} (P : A → Type 0) (Q : B → Type 0) (k : A → Effect S E B) where
  pub After-bind :
      (p : Result E A × S)
      → After P p
      → ((a : A) (c : S) → P a → After Q (k a c))
      → After Q (continue k p)
  After-bind (ok a, c) h next = next a c h
  After-bind (err e, c) h next = tt

-- A step whose value does not matter.
pub After-step :
    {S E A B : Type 0} (Q : B → Type 0) (k : A → Effect S E B) (r : Result E A) (c : S)
    → ((a : A) → After Q (k a c))
    → After Q (continue k (r, c))
After-step Q k (ok a) c next = next a
After-step Q k (err e) c next = tt

pub After-any :
    {S E A B : Type 0} (Q : B → Type 0) (k : A → Effect S E B) (p : Result E A × S)
    → ((a : A) (c : S) → After Q (k a c))
    → After Q (continue k p)
After-any Q k (ok a, c) next = next a c
After-any Q k (err e, c) next = tt

pub After-reads :
    {S E A : Type 0} (P : A → Type 0) (r : Result E A) (c : S) → IfOk P r → After P (r, c)
After-reads P (ok a) c h = h
After-reads P (err e) c h = tt

pub IfOk-map_err :
    {E F A : Type 0} (P : A → Type 0) (f : E → F) (r : Result E A) → IfOk P r → IfOk P (map_err f r)
IfOk-map_err P f (ok a) h = h
IfOk-map_err P f (err e) h = tt
