-- ===== src/Set/Members.antt =====
-- pkg/util/set.go: which values the operations on sets put in and take out.
use riposo.Prelude.{
  elem, elem-keys, ◌≡◌, refl, sym, ap, ◌∙◌, ◌↔◌, Bool, true, false, ◌||◌, Bool-cases, inl, inr, ltb,
  List, [], ◌∷◌, arith, if◌then◌else◌, Text, text_eq, text_eq_iff, text_eq_refl, lookup, keys,
  lookup-insert, lookup-delete,
}
use riposo.Set.{
  Set, add, merge_slice, new_set, merge, merge_all, new_union, copy, remove, has, has_any,
  intersects_with, len,
}

pub has-add : (s : Set) (v w : Text) → has (add v s) w ≡ (text_eq v w || has s w)
unfolding has add
has-add s v w = ground (arith, lookup-insert v w tt s)

pub has-remove :
    (s : Set) (v w : Text) → has (remove v s) w ≡ (if text_eq v w then false else has s w)
unfolding has remove
has-remove s v w = ground (arith, lookup-delete v w s)

pub has-merge_slice :
    (vals : List Text) (s : Set) (w : Text) → has (merge_slice vals s) w ≡ (elem w vals || has s w)
unfolding merge_slice elem
has-merge_slice [] s w = refl
has-merge_slice (v ∷ vals) s w = ground (arith, has-merge_slice vals (add v s) w, has-add s v w)

pub elem-values : (s : Set) (w : Text) → elem w (keys s) ≡ has s w
unfolding has
elem-values s w = elem-keys s w

pub has-merge : (s t : Set) (w : Text) → has (merge s t) w ≡ (has t w || has s w)
unfolding merge
has-merge s t w = has-merge_slice (keys t) s w ∙ ap (λ b. b || has s w) (elem-values t w)

-- Whether a value stands in one of the sets.
unfoldable pub in_one : Text → List Set → Bool
in_one w [] = false
in_one w (s ∷ sets) = has s w || in_one w sets

has-merge_all :
    (sets : List Set) (us : Set) (w : Text)
    → has (merge_all sets us) w ≡ (in_one w sets || has us w)
unfolding merge_all in_one
has-merge_all [] us w = refl
has-merge_all (s ∷ sets) us w = ground (arith, has-merge_all sets (merge us s) w, has-merge us s w)

-- A set made of values, a union of sets and a copy hold exactly what they are made of.
pub has-new :
    (vals : List Text) (sets : List Set) (s : Set) (w : Text)
    → (has (new_set vals) w ≡ elem w vals)
      × (has (new_union sets) w ≡ in_one w sets)
      × (has (copy s) w ≡ has s w)
unfolding new_set new_union copy
has-new vals sets s w = (
  ground (arith, has-merge_slice vals [] w, has_empty),
  ground (arith, has-merge_all sets [] w, has_empty),
  ground (arith, has-merge [] s w, has_empty),
)
  where
    has_empty : has [] w ≡ false
    has_empty = unfold has lookup in refl

-- `HasAny` finds a value that stands in the set.
has_any_sound :
    (s : Set) (vals : List Text)
    → has_any s vals ≡ true
    → (v : Text) × (elem v vals ≡ true) × (has s v ≡ true)
unfolding has_any elem
has_any_sound s [] h = cc
has_any_sound s (v ∷ vals) h = elim (Bool-cases (has s v)) [
  | inl found ↦ (v, ground (arith, text_eq_refl v), found)
  | inr missing ↦ let (x, e, k) = has_any_sound s vals (ground arith) in (x, ground arith, k)
]

has_any_complete :
    (s : Set) (vals : List Text) (v : Text)
    → elem v vals ≡ true
    → has s v ≡ true
    → has_any s vals ≡ true
unfolding has_any elem
has_any_complete s [] v h k = cc
has_any_complete s (w ∷ vals) v h k = ground (arith, has_any_complete s vals v, text_eq_iff w v)

pub has_any_iff :
    (s : Set) (vals : List Text)
    → (has_any s vals ≡ true) ↔ ((v : Text) × (elem v vals ≡ true) × (has s v ≡ true))
has_any_iff s vals = (has_any_sound s vals, λ (v, e, h). has_any_complete s vals v e h)

any_key_iff :
    (s t : Set) → (has_any t (keys s) ≡ true) ↔ ((v : Text) × (has s v ≡ true) × (has t v ≡ true))
any_key_iff s t = (
  λ h. let (v, e, k) = (has_any_iff t (keys s)).0 h in (v, sym (elem-values s v) ∙ e, k),
  λ (v, e, k). (has_any_iff t (keys s)).1 (v, elem-values s v ∙ e, k),
)

-- `IntersectsWith` says whether the sets share a value, whichever of them is the smaller.
pub intersects_with_iff :
    (s t : Set) → (intersects_with s t ≡ true) ↔ ((v : Text) × (has s v ≡ true) × (has t v ≡ true))
unfolding intersects_with
intersects_with_iff s t = elim (Bool-cases (ltb (len t) (len s))) [
  | inl smaller ↦ rw smaller (
    λ h. let (v, e, k) = (any_key_iff t s).0 h in (v, k, e),
    λ (v, e, k). (any_key_iff t s).1 (v, k, e),
  )
  | inr other ↦ rw other (any_key_iff s t)
]
