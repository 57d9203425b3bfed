-- ===== src/Set.antt =====
-- pkg/util/set.go: sets of strings, which are maps to the empty struct.
pub mod Members
pub mod Slices
mod Tests
use mathlib.Core.Option
use riposo.Prelude.{
  is_some, ℕ, ◌≤◌, Bool, true, false, ◌||◌, Option, none, some, List, [], ◌∷◌, ltb, if◌then◌else◌,
  length, Text, text_lt, Dict, lookup, insert, delete, keys,
}

abbrev pub Set : Type 0
Set = Dict (Unit {0})

unfoldable pub add : Text → Set → Set
add v s = insert v tt s

-- `MergeSlice`; `NewSet` runs the same loop over an empty map.
unfoldable pub merge_slice : List Text → Set → Set
merge_slice [] s = s
merge_slice (v ∷ vals) s = merge_slice vals (add v s)

unfoldable pub new_set : List Text → Set
new_set vals = merge_slice vals []

-- s.Merge(t)
unfoldable pub merge : Set → Set → Set
merge s t = merge_slice (keys t) s

merge_all : List Set → Set → Set
merge_all [] us = us
merge_all (s ∷ sets) us = merge_all sets (merge us s)

unfoldable pub new_union : List Set → Set
unfolding merge_all
new_union sets = merge_all sets []

unfoldable pub copy : Set → Set
copy s = merge [] s

unfoldable pub len : Set → ℕ
len s = length s

-- sort.Strings
unfoldable pub insert_sorted : Text → List Text → List Text
insert_sorted v [] = v ∷ []
insert_sorted v (w ∷ ws) =
    let rest = insert_sorted v ws in if text_lt w v then w ∷ rest else v ∷ w ∷ ws

unfoldable pub sort_strings : List Text → List Text
unfolding insert_sorted
sort_strings [] = []
sort_strings (v ∷ vv) = insert_sorted v (sort_strings vv)

unfoldable pub slice : Set → List Text
slice s = sort_strings (keys s)

unfoldable pub remove : Text → Set → Set
remove v s = delete v s

unfoldable pub has : Set → Text → Bool
has s v = is_some (lookup v s)

unfoldable pub has_any : Set → List Text → Bool
has_any s [] = false
has_any s (v ∷ vals) = if has s v then true else has_any s vals

-- The loop of `IntersectsWith` over the smaller set. The call with the sets swapped does not swap
-- them again.
unfoldable pub intersects_with : Set → Set → Bool
intersects_with s t = if ltb (len t) (len s) then has_any s (keys t) else has_any t (keys s)
