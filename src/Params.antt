-- ===== src/Params.antt =====
-- pkg/params: the filters and the conditions of a query, those of a pagination token, and the limit.
-- Values are gjson's, of a type V.
pub mod Limits
pub mod Parse
mod Tests
use riposo.Prelude.{
  ℕ, zero, suc, ◌+◌, ◌-◌, Bool, true, false, not, ◌&&◌, ◌||◌, Option, none, some, List, [], ◌∷◌,
  ltb, leb, ◌==◌, if◌then◌else◌, is_empty, length, drop, Text, text_eq, bytes, has_prefix, Dict,
}

pub data Operator : Type 0 where
  operator_lt operator_min operator_max operator_not operator_eq operator_gt operator_in : Operator
  operator_exclude operator_like operator_has operator_contains_any operator_contains : Operator

unfoldable pub prefix_map : List (Operator × Text)
prefix_map =
    (operator_has, bytes "has_")
    ∷ (operator_min, bytes "min_")
    ∷ (operator_max, bytes "max_")
    ∷ (operator_lt, bytes "lt_")
    ∷ (operator_gt, bytes "gt_")
    ∷ (operator_eq, bytes "eq_")
    ∷ (operator_not, bytes "not_")
    ∷ (operator_in, bytes "in_")
    ∷ (operator_like, bytes "like_")
    ∷ (operator_exclude, bytes "exclude_")
    ∷ (operator_contains_any, bytes "contains_any_")
    ∷ (operator_contains, bytes "contains_")
    ∷ []

pub record Filter (V : Type 0) : Type 0 where
  pub field : Text
  pub operator : Operator
  pub values : List V

abbrev pub Condition : Type 0 → Type 0
Condition V = List (Filter V)

abbrev pub ConditionSet : Type 0 → Type 0
ConditionSet V = List (Condition V)

unfoldable pub compact : {V : Type 0} → ConditionSet V → ConditionSet V
compact [] = []
compact (c ∷ cs) = let rest = compact cs in if is_empty c then rest else c ∷ rest

unfoldable pub is_valid : {V : Type 0} → Filter V → Bool
is_valid f = not (is_empty f.field) && not (is_empty f.values)

-- f.Value(index), where `zero_value` is schema.Value{}
unfoldable pub value : {V : Type 0} → V → ℕ → List V → V
value zero_value index [] = zero_value
value zero_value index (v ∷ values) =
    let rest = value zero_value (index - 1) values in if index == 0 then v else rest

-- The loop of `ParseFilter` over the prefixes.
unfoldable pub find_prefix : List (Operator × Text) → Text → Operator × Text
find_prefix [] field = (operator_eq, field)
find_prefix ((operator, prefix) ∷ entries) field =
    let rest = find_prefix entries field in
    if has_prefix field prefix then (operator, drop (length prefix) field) else rest

-- The filters of one condition of `Conditions`: that of the index p compares, the others are equal.
unfoldable pub filters_at : {V : Type 0} → ℕ → ℕ → Dict V → Condition V
filters_at p i [] = []
filters_at p i ((name, val) ∷ fields) =
    record {
      field = name;
      operator = if i == p then operator_gt else operator_eq;
      values = val ∷ [];
    }
    ∷ filters_at p (i + 1) fields

-- The conditions for the indexes from p on, `rounds` of them.
unfoldable pub conditions_from : {V : Type 0} → ℕ → ℕ → Dict V → ConditionSet V
conditions_from zero p fields = []
conditions_from (suc rounds) p fields =
    filters_at p 0 fields ∷ conditions_from rounds (p + 1) fields

-- `Conditions` of the last object of a token; a nil token is one without fields.
unfoldable pub conditions : {V : Type 0} → Dict V → ConditionSet V
conditions last_obj = conditions_from (length last_obj) 0 last_obj

pub record SortOrder : Type 0 where
  pub field : Text
  pub descending : Bool

unfoldable pub append_so : List SortOrder → SortOrder → List SortOrder
append_so [] so = so ∷ []
append_so (x ∷ t) so =
    let rest = append_so t so in if text_eq x.field so.field then x ∷ t else x ∷ rest

-- An integer as strconv.Atoi returns it.
pub data ℤ : Type 0 where
  pos negsuc : ℕ → ℤ

-- if n < 0 { n = 0 }
unfoldable pub not_negative : ℤ → ℕ
not_negative (pos n) = n
not_negative (negsuc n) = 0

-- n + 1
unfoldable pub inc : ℤ → ℤ
inc (pos n) = pos (suc n)
inc (negsuc zero) = pos 0
inc (negsuc (suc n)) = negsuc n

-- `atoi` is the number that strconv.Atoi returns, with or without an error.
unfoldable pub parse_limit : (Text → ℤ) → Text → ℤ → ℕ
parse_limit atoi s (pos max) =
    let n = not_negative (atoi s) in if ltb 0 max && (ltb n 1 || ltb max n) then max else n
parse_limit atoi s (negsuc max) = not_negative (atoi s)
