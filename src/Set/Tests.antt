-- ===== src/Set/Tests.antt =====
-- pkg/util/set.go: a run, and instances of the theorems.
use riposo.Prelude.{
  elem, ◌≡◌, ◌↔◌, refl, true, List, [], ◌∷◌, Text, bytes, text_eq, text_lt, lookup, insert, delete,
}
use riposo.Set.{
  add, merge_slice, new_set, merge, new_union, copy, len, sort_strings, slice, remove, has, has_any,
  intersects_with,
}
use riposo.Set.Members.{has_any_iff, intersects_with_iff}
use riposo.Set.Slices.{Ascending, slice_lem, new_set-IsMap}

program : Unit {0}
unfolding text_eq text_lt lookup insert delete add merge_slice new_set merge new_union copy len
    sort_strings slice remove has has_any intersects_with
program = tt

abbrev names : List Text
names = bytes "b" ∷ bytes "a" ∷ bytes "b" ∷ []

sorted : slice (new_set names) ≡ bytes "a" ∷ bytes "b" ∷ []
unfolding program
sorted = refl

shared : intersects_with (new_set names) (new_set (bytes "a" ∷ [])) ≡ true
unfolding program
shared = refl

has_any_iff_example :
    (has_any (new_set names) names ≡ true)
    ↔ ((v : Text) × (elem v names ≡ true) × (has (new_set names) v ≡ true))
has_any_iff_example = has_any_iff (new_set names) names

intersects_with_iff_example :
    (intersects_with (new_set names) (new_set []) ≡ true)
    ↔ ((v : Text) × (has (new_set names) v ≡ true) × (has (new_set []) v ≡ true))
intersects_with_iff_example = intersects_with_iff (new_set names) (new_set [])

slice_lem_example :
    Ascending (slice (new_set names))
    × ((v : Text) → elem v (slice (new_set names)) ≡ has (new_set names) v)
slice_lem_example = slice_lem (new_set names) (new_set-IsMap names)
