-- ===== src/Path/Ancestors.antt =====
-- pkg/riposo/path.go: `Traverse` ends, and visits the path and its parents up to the empty path.
use native.Mathlib.Decide.{dec_le}
use riposo.Prelude.{
  ℕ, zero, suc, ◌<◌, ◌≡◌, refl, ap, Bool, false, some, List, [], ◌∷◌, ◌++◌, arith, if◌then◌else◌,
  is_empty, Text, length, length-append, count_byte, Bool-cases, inl, inr,
}
use riposo.Path.{slash, parent, traverse}
use riposo.Path.Segments.{HasNoSlash, parent-append, parent_lem}

-- A path by its pairs of a resource name and an object ID, the innermost first.
abbrev pub Segments : Type 0
Segments = List (Text × Text)

unfoldable pub render : Segments → Text
render [] = []
render ((name, id) ∷ outer) = render outer ++ slash ∷ (name ++ slash ∷ id)

abbrev pub AreClean : Segments → Type 0
AreClean [] = Unit {0}
AreClean ((name, id) ∷ outer) = HasNoSlash name × HasNoSlash id × AreClean outer

-- The path and its parents, up to the empty path.
unfoldable pub ancestors : Segments → List Text
unfolding render
ancestors [] = [] ∷ []
ancestors (s ∷ outer) = render (s ∷ outer) ∷ ancestors outer

-- The iterator on one path after another, until it says to stop.
unfoldable pub visit {ℓ} : {S : Type ℓ} → (Text → S → Bool × S) → List Text → S → S
visit iterator [] s = s
visit iterator (p ∷ ps) s =
    let (go_on, s') = iterator p s in let rest = visit iterator ps s' in if go_on then rest else s'

parent-render :
    (name id : Text) (outer : Segments)
    → AreClean ((name, id) ∷ outer)
    → parent (render ((name, id) ∷ outer)) ≡ render outer
unfolding render
parent-render name id outer h = parent-append (render outer) name id h.0 h.1

nonempty_append : (u v : Text) (c : ℕ) → is_empty (u ++ c ∷ v) ≡ false
nonempty_append [] v c = refl
nonempty_append (a ∷ u) v c = refl

-- A path has more bytes than pairs.
pub length-render : (segments : Segments) → length segments < suc (length (render segments))
unfolding render
length-render [] = omega arith
length-render ((name, id) ∷ outer) =
    omega (arith, length-render outer, length-append (render outer) (slash ∷ (name ++ slash ∷ id)))

-- With more fuel than the path has pairs, `Traverse` ends, and it has called the iterator on the
-- path and on each parent, up to the empty path or until the iterator returned false.
pub traverse-visit {ℓ} :
    {S : Type ℓ} (iterator : Text → S → Bool × S) (fuel : ℕ) (segments : Segments) (s : S)
    → AreClean segments
    → length segments < fuel
    → traverse fuel iterator (render segments) s ≡ some (visit iterator (ancestors segments) s)
unfolding traverse visit ancestors render
traverse-visit iterator zero segments s clean h = absurd (omega arith)
traverse-visit iterator (suc fuel) [] s clean h = elim (Bool-cases (iterator [] s).0) [
  | inl e ↦ rw e refl
  | inr e ↦ rw e refl
]
traverse-visit iterator (suc fuel) ((name, id) ∷ outer) s clean h =
    let p = render ((name, id) ∷ outer) in
    let more : is_empty p ≡ false = nonempty_append (render outer) (name ++ slash ∷ id) slash in
    let up : parent p ≡ render outer = parent-render name id outer clean in
    let next = traverse-visit iterator fuel outer (iterator p s).1 clean.2 (omega arith) in
    elim (Bool-cases (iterator p s).0) [ inl e ↦ rw (e, more, up) next | inr e ↦ rw e refl ]

shorter_parent : (p : Text) → is_empty p ≡ false → length (parent p) < length p
shorter_parent [] h = cc
shorter_parent (c ∷ p) h = elim (dec_le (count_byte slash (c ∷ p)) 1) [
  | yes few ↦ rw ((parent_lem (c ∷ p)).1 few) (omega arith)
  | no many ↦
      let (a, b, e, _, _) = (parent_lem (c ∷ p)).0 (omega arith) in
      omega (arith, ap length e, length-append (parent (c ∷ p)) (slash ∷ (a ++ slash ∷ b)))
]

-- The loop of `Traverse` ends on every path: each parent is shorter than its path.
pub traverse_total {ℓ} :
    {S : Type ℓ} (iterator : Text → S → Bool × S) (fuel : ℕ) (p : Text) (s : S)
    → length p < fuel
    → (s' : S) × (traverse fuel iterator p s ≡ some s')
unfolding traverse
traverse_total iterator zero p s h = absurd (omega arith)
traverse_total iterator (suc fuel) p s h = elim (Bool-cases (is_empty p)) [
  | inl e ↦ ((iterator p s).1, ground arith)
  | inr e ↦ elim (Bool-cases (iterator p s).0) [
    | inl on ↦
        let shorter = shorter_parent p e in
        rw (on, e) (traverse_total iterator fuel (parent p) (iterator p s).1 (omega arith))
    | inr off ↦ ((iterator p s).1, rw off refl)
  ]
]
