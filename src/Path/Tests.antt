-- ===== src/Path/Tests.antt =====
-- pkg/riposo/path.go at the paths of its documentation, and instances of the theorems.
use riposo.Prelude.{
  ◌<◌, ◌≤◌, ◌≡◌, refl, Bool, true, false, some, List, [], ◌∷◌, ◌++◌, arith, Text, bytes, count_byte,
  text_eq, has_prefix, last_index_byte,
}
use mathlib.Core.Option
use riposo.Path.{
  slash, norm_path, trim, trim_path_prefix, join_path, parent, with_object_id, split, object_id,
  namespace, resource_name, is_node, contains, traverse, match,
}
use riposo.Path.Segments.{HasNoSlash, parent_lem}
use riposo.Path.Norm.{join_path-split}
use riposo.Path.Ancestors.{render, ancestors, visit, traverse-visit, traverse_total}
use riposo.Path.Patterns.{decision, default, match-decision}

program : Unit {0}
unfolding text_eq has_prefix last_index_byte count_byte norm_path join_path parent with_object_id
    split object_id namespace resource_name is_node contains traverse match trim_path_prefix trim
program = tt

abbrev bar : Text
bar = bytes "/buckets/foo/collections/bar"

abbrev foo : Text
foo = bytes "/buckets/foo"

paths :
    (norm_path (bytes "/v1/buckets") ≡ bytes "/buckets/*")
    × (parent bar ≡ foo)
    × (resource_name bar ≡ bytes "collection")
    × (object_id bar ≡ bytes "bar")
    × (contains (bytes "/buckets/*") foo ≡ true)
    × (contains (bytes "/buckets/*") bar ≡ false)
    × (join_path (bytes "/buckets" ∷ bytes "foo/" ∷ []) ≡ foo)
unfolding program
paths = (refl, refl, refl, refl, refl, refl, refl)

abbrev collect : Text → List Text → Bool × List Text
collect p ps = (true, ps ++ p ∷ [])

walk : traverse 40 collect bar [] ≡ some (bar ∷ foo ∷ [] ∷ [])
unfolding program
walk = refl

parent_lem_example :
    (1 < count_byte slash bar
      → (a : Text) × (b : Text) × (bar ≡ parent bar ++ slash ∷ (a ++ slash ∷ b))
        × HasNoSlash a
        × HasNoSlash b)
    × (count_byte slash bar ≤ 1 → parent bar ≡ [])
parent_lem_example = parent_lem bar

join_path-split_example : join_path (namespace foo ∷ object_id foo ∷ []) ≡ foo
unfolding program
join_path-split_example = join_path-split foo (omega arith) refl refl

abbrev pairs : List (Text × Text)
pairs = (bytes "collections", bytes "bar") ∷ (bytes "buckets", bytes "foo") ∷ []

traverse-visit_example :
    traverse 3 collect (render pairs) [] ≡ some (visit collect (ancestors pairs) [])
unfolding program
traverse-visit_example =
    traverse-visit collect 3 pairs [] (refl, refl, (refl, refl, tt)) (omega arith)

traverse_total_example : (ps : List Text) × (traverse 29 collect bar [] ≡ some ps)
traverse_total_example = traverse_total collect 29 bar [] (omega arith)

match-decision_example :
    match text_eq foo (foo ∷ bytes "!/buckets/foo" ∷ [])
    ≡ Option.get_or
        (decision text_eq (foo ∷ bytes "!/buckets/foo" ∷ []) foo)
        (default text_eq (foo ∷ bytes "!/buckets/foo" ∷ []))
match-decision_example = match-decision text_eq foo (foo ∷ bytes "!/buckets/foo" ∷ [])
