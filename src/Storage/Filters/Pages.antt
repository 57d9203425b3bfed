-- ===== src/Storage/Filters/Pages.antt =====
-- internal/conn/memory/storage/filters.go with pkg/params/pagination.go: which objects the conditions of
-- a pagination token let through.
use riposo.Prelude.{
  ℕ, zero, suc, ◌+◌, ◌<◌, ◌≡◌, refl, ap, ◌∙◌, Bool, true, false, ◌&&◌, ◌||◌, List, [], ◌∷◌, arith,
  ◌==◌, if◌then◌else◌, length, Text, Dict, is_empty,
}
use riposo.Schema.{Object}
use riposo.Params.{
  operator_gt, operator_eq, value, filters_at, conditions_from, conditions, compact,
}
use riposo.Storage.Filters.{
  Gjson, get, compare, is_greater, is_equal, match, match_as, condition_match, one_match,
  pagination_match, matching_page, pagination_filter,
}

module _ {V : Type 0} (json : Gjson V) (o : Object) where
  -- The object has the values of all the fields.
  unfoldable pub all_equal : Dict V → Bool
  all_equal [] = true
  all_equal ((name, val) ∷ fields) = is_equal json (get json o name) val && all_equal fields

  -- The object has a greater value in one field, and the values of all others.
  unfoldable pub one_greater : Dict V → Bool
  one_greater [] = false
  one_greater ((name, val) ∷ fields) =
      (is_greater (compare json (get json o name) val) && all_equal fields)
      || (is_equal json (get json o name) val && one_greater fields)

  shift-filters_at :
      (p i : ℕ) (fields : Dict V) → filters_at (p + 1) (i + 1) fields ≡ filters_at p i fields
  unfolding filters_at
  shift-filters_at p i [] = refl
  shift-filters_at p i ((name, val) ∷ fields) = λ k.
      record {
        field = name;
        operator = if same k then operator_gt else operator_eq;
        values = val ∷ [];
      }
      ∷ shift-filters_at p (i + 1) fields k
    where
      same : ((i + 1) == (p + 1)) ≡ (i == p)
      same = ground arith

  condition_match-past :
      (p i : ℕ) (fields : Dict V)
      → p < i
      → condition_match json o (filters_at p i fields) ≡ all_equal fields
  unfolding filters_at condition_match all_equal match match_as value
  condition_match-past p i [] h = refl
  condition_match-past p i ((name, val) ∷ fields) h =
      let other : (i == p) ≡ false = ground arith in
      rw other (ground (arith, condition_match-past p (i + 1) fields (omega arith)))

  condition_match-head :
      (name : Text) (val : V) (fields : Dict V) (p : ℕ)
      → condition_match json o (filters_at (p + 1) 0 ((name, val) ∷ fields))
        ≡ (is_equal json (get json o name) val && condition_match json o (filters_at p 0 fields))
  unfolding filters_at condition_match match match_as value
  condition_match-head name val fields p =
      let other : (0 == (p + 1)) ≡ false = ground arith in
      let rest : condition_match json o (filters_at (p + 1) 1 fields)
          ≡ condition_match json o (filters_at p 0 fields) =
        ap (condition_match json o) (shift-filters_at p 0 fields) in
      rw other (ground (arith, rest))

  one_match-tail :
      (name : Text) (val : V) (fields : Dict V) (rounds p : ℕ)
      → one_match json o (conditions_from rounds (p + 1) ((name, val) ∷ fields)) ≡ (
          is_equal json (get json o name) val && one_match json o (conditions_from rounds p fields))
  unfolding conditions_from one_match
  one_match-tail name val fields zero p = ground arith
  one_match-tail name val fields (suc rounds) p =
      ground (
        arith,
        condition_match-head name val fields p,
        one_match-tail name val fields rounds (p + 1),
      )

  one_match-conditions :
      (fields : Dict V)
      → one_match json o (conditions_from (length fields) 0 fields) ≡ one_greater fields
  unfolding one_match one_greater conditions_from
  one_match-conditions [] = refl
  one_match-conditions ((name, val) ∷ fields) = ground (
    arith,
    first name val fields,
    one_match-tail name val fields (length fields) 0,
    one_match-conditions fields,
  )
    where
      first :
          (name : Text) (val : V) (fields : Dict V)
          → condition_match json o (filters_at 0 0 ((name, val) ∷ fields))
            ≡ (is_greater (compare json (get json o name) val) && all_equal fields)
      first name val fields =
          unfold filters_at condition_match match match_as value in
          ground (arith, condition_match-past 0 1 fields (omega arith))

compact-conditions_from :
    {V : Type 0} (rounds p : ℕ) (name : Text) (val : V) (fields : Dict V)
    → compact (conditions_from rounds p ((name, val) ∷ fields))
      ≡ conditions_from rounds p ((name, val) ∷ fields)
unfolding compact conditions_from filters_at
compact-conditions_from zero p name val fields = refl
compact-conditions_from (suc rounds) p name val fields =
    ap (◌∷◌ (filters_at p 0 ((name, val) ∷ fields)))
      (compact-conditions_from rounds (p + 1) name val fields)

-- The objects of a list that a test lets through, in their order.
unfoldable pub only : (Object → Bool) → List Object → List Object
only test [] = []
only test (o ∷ objs) = let rest = only test objs in if test o then o ∷ rest else rest

module _ {V : Type 0} (json : Gjson V) where
  matching_page-only :
      (name : Text) (val : V) (fields : Dict V) (objs : List Object)
      → matching_page json (conditions ((name, val) ∷ fields)) objs
        ≡ only (λ o. one_greater json o ((name, val) ∷ fields)) objs
  unfolding matching_page only
  matching_page-only name val fields [] = refl
  matching_page-only name val fields (o ∷ objs) =
      ground (arith, passes, matching_page-only name val fields objs)
    where
      passes :
          pagination_match json o (conditions ((name, val) ∷ fields))
          ≡ one_greater json o ((name, val) ∷ fields)
      passes =
          unfold pagination_match conditions conditions_from in
          ground (arith, one_match-conditions json o ((name, val) ∷ fields))

  -- A pagination token whose last object has fields lets exactly those objects through, in their
  -- order, that have a greater value in one of the fields and equal values in all others; a token
  -- without fields lets all through.
  pub pagination_filter-conditions :
      (objs : List Object) (fields : Dict V)
      → pagination_filter json objs (conditions fields)
        ≡ (if is_empty fields then objs else only (λ o. one_greater json o fields) objs)
  unfolding pagination_filter
  pagination_filter-conditions objs [] = unfold conditions conditions_from compact in refl
  pagination_filter-conditions objs ((name, val) ∷ fields) =
      let whole : compact (conditions ((name, val) ∷ fields)) ≡ conditions ((name, val) ∷ fields) =
        unfold conditions in
        compact-conditions_from (length ((name, val) ∷ fields)) 0 name val fields in
      rw whole (more ∙ matching_page-only name val fields objs)
    where
      more :
          (if is_empty (conditions ((name, val) ∷ fields))
            then objs
            else matching_page json (conditions ((name, val) ∷ fields)) objs)
          ≡ matching_page json (conditions ((name, val) ∷ fields)) objs
      more = unfold conditions conditions_from in refl
