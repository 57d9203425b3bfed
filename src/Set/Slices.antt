-- ===== src/Set/Slices.antt =====
-- pkg/util/set.go: `Slice` lists the values of a set, each once and in ascending order.
use riposo.Prelude.{
  elem, is_some, ◌≡◌, refl, ap, ◌∙◌, true, false, ◌||◌, Bool-cases, inl, inr, List, [], ◌∷◌, arith,
  Text, text_eq, text_lt, text_lt_trans, text_lt_total, keys, IsMap, insert-IsMap,
}
use riposo.Set.{Set, slice, sort_strings, insert_sorted, has, add, merge_slice, new_set}
use riposo.Set.Members.{elem-values}

-- Every value of the slice comes after v.
abbrev pub AllAfter : Text → List Text → Type 0
AllAfter v [] = Unit
AllAfter v (w ∷ ws) = (text_lt v w ≡ true) × AllAfter v ws

abbrev pub Ascending : List Text → Type 0
Ascending [] = Unit
Ascending (v ∷ vv) = AllAfter v vv × Ascending vv

-- No value stands twice.
abbrev pub Distinct : List Text → Type 0
Distinct [] = Unit
Distinct (v ∷ vv) = (elem v vv ≡ false) × Distinct vv

elem-insert_sorted :
    (v w : Text) (vv : List Text) → elem w (insert_sorted v vv) ≡ (text_eq v w || elem w vv)
unfolding elem insert_sorted
elem-insert_sorted v w [] = refl
elem-insert_sorted v w (u ∷ vv) = ground (arith, elem-insert_sorted v w vv)

pub elem-sort_strings : (w : Text) (vv : List Text) → elem w (sort_strings vv) ≡ elem w vv
unfolding elem sort_strings
elem-sort_strings w [] = refl
elem-sort_strings w (v ∷ vv) =
    ground (arith, elem-insert_sorted v w (sort_strings vv), elem-sort_strings w vv)

pub AllAfter-trans :
    (u v : Text) (ws : List Text) → text_lt u v ≡ true → AllAfter v ws → AllAfter u ws
AllAfter-trans u v [] h a = a
AllAfter-trans u v (w ∷ ws) h a = (text_lt_trans u v w h a.0, AllAfter-trans u v ws h a.1)

AllAfter-insert_sorted :
    (u v : Text) (ws : List Text)
    → text_lt u v ≡ true
    → AllAfter u ws
    → AllAfter u (insert_sorted v ws)
unfolding insert_sorted
AllAfter-insert_sorted u v [] h a = (h, tt)
AllAfter-insert_sorted u v (w ∷ ws) h a = elim (Bool-cases (text_lt w v)) [
  | inl before ↦ rw before (a.0, AllAfter-insert_sorted u v ws h a.1)
  | inr after ↦ rw after (h, a)
]

Ascending-insert_sorted :
    (v : Text) (ws : List Text) → elem v ws ≡ false → Ascending ws → Ascending (insert_sorted v ws)
unfolding insert_sorted elem
Ascending-insert_sorted v [] h a = (tt, tt)
Ascending-insert_sorted v (w ∷ ws) h a = elim (Bool-cases (text_lt w v)) [
  | inl before ↦
      rw before
        (AllAfter-insert_sorted w v ws before a.0, Ascending-insert_sorted v ws (ground arith) a.1)
  | inr after ↦
      let first : text_lt v w ≡ true = text_lt_total w v after (ground arith) in
      rw after ((first, AllAfter-trans v w ws first a.0), a)
]

pub Ascending-sort_strings : (vv : List Text) → Distinct vv → Ascending (sort_strings vv)
unfolding sort_strings
Ascending-sort_strings [] d = tt
Ascending-sort_strings (v ∷ vv) d =
    Ascending-insert_sorted v (sort_strings vv) (elem-sort_strings v vv ∙ d.0)
      (Ascending-sort_strings vv d.1)

Distinct-keys : (s : Set) → IsMap s → Distinct (keys s)
unfolding has
Distinct-keys [] h = tt
Distinct-keys ((v, u) ∷ s) h = (elem-values s v ∙ ap is_some h.0, Distinct-keys s h.1)

-- `Slice` lists the values of the set and no others, in ascending order with none repeated.
pub slice_lem :
    (s : Set) → IsMap s → Ascending (slice s) × ((v : Text) → elem v (slice s) ≡ has s v)
unfolding slice
slice_lem s h = (
  Ascending-sort_strings (keys s) (Distinct-keys s h),
  λ v. elem-sort_strings v (keys s) ∙ elem-values s v,
)

-- The operations keep each value once.
pub add-IsMap : (v : Text) (s : Set) → IsMap s → IsMap (add v s)
unfolding add
add-IsMap v s h = insert-IsMap v tt s h

pub merge_slice-IsMap : (vals : List Text) (s : Set) → IsMap s → IsMap (merge_slice vals s)
unfolding merge_slice
merge_slice-IsMap [] s h = h
merge_slice-IsMap (v ∷ vals) s h = merge_slice-IsMap vals (add v s) (add-IsMap v s h)

pub new_set-IsMap : (vals : List Text) → IsMap (new_set vals)
unfolding new_set
new_set-IsMap vals = merge_slice-IsMap vals [] tt
