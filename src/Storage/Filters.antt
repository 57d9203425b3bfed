-- ===== src/Storage/Filters.antt =====
-- internal/conn/memory/storage/filters.go: the order of values, and which objects filters, conditions
-- and the conditions of a page let through. What gjson, strconv and regexp do with values of a type
-- V is a record.
pub mod Pages
mod Tests
use riposo.Prelude.{
  ℕ, Bool, true, false, not, ◌&&◌, ◌||◌, Option, none, some, List, [], ◌∷◌, ltb, if◌then◌else◌,
  is_empty, Text, bytes, text_eq, text_lt,
}
use riposo.Schema.{Object}
use riposo.Params.{
  Operator, operator_lt, operator_min, operator_max, operator_not, operator_eq, operator_gt,
  operator_in, operator_exclude, operator_like, operator_has, operator_contains_any,
  operator_contains, Filter, Condition, ConditionSet, compact, value,
}

-- gjson.Type
pub data Kind : Type 0 where
  null_kind false_kind number_kind string_kind true_kind json_kind : Kind

pub record Gjson (V : Type 0) : Type 0 where
  pub kind : V → Kind
  -- v.Raw, v.String() and v.Bool()
  pub raw : V → Text
  pub string : V → Text
  pub truth : V → Bool
  pub exists : V → Bool
  -- v1.Float() < v2.Float(), and v1.Num == v2.Num
  pub float_lt : V → V → Bool
  pub num_eq : V → V → Bool
  -- the values that `Get` makes of the fields of an object, and gjson.GetBytes
  pub string_value : Text → V
  pub epoch_value : ℕ → V
  pub bool_value : Bool → V
  pub get_bytes : Text → Text → V
  pub zero_value : V
  -- the pattern with its quotation and wildcards, and the expression it compiles to
  pub like_pattern : Text → Text
  pub compile : Text → Option (Text → Bool)

pub data Comparison : Type 0 where
  less equal greater : Comparison

unfoldable pub is_less : Comparison → Bool
is_less less = true
is_less c = false

unfoldable pub is_greater : Comparison → Bool
is_greater greater = true
is_greater c = false

unfoldable pub rank : Kind → ℕ
rank null_kind = 5
rank true_kind = 4
rank false_kind = 3
rank number_kind = 2
rank string_kind = 1
rank json_kind = 0

-- strings.Compare
unfoldable pub compare_text : Text → Text → Comparison
compare_text s t = if text_eq s t then equal else if text_lt s t then less else greater

unfoldable pub same_kind : Kind → Kind → Bool
same_kind null_kind null_kind = true
same_kind false_kind false_kind = true
same_kind number_kind number_kind = true
same_kind string_kind string_kind = true
same_kind true_kind true_kind = true
same_kind json_kind json_kind = true
same_kind k l = false

module _ {V : Type 0} (json : Gjson V) where
  -- o.Get(field)
  unfoldable pub get : Object → Text → V
  get o field =
      if text_eq field (bytes "id")
      then json.string_value o.id
      else if text_eq field (bytes "last_modified")
      then json.epoch_value o.mod_time
      else if text_eq field (bytes "deleted")
      then json.bool_value o.deleted
      else json.get_bytes o.extra field

  -- The switch of `compare` on the type of values of one rank.
  unfoldable pub compare_as : Kind → V → V → Comparison
  compare_as null_kind v w = equal
  compare_as string_kind v w = compare_text (json.string v) (json.string w)
  compare_as number_kind v w =
      if json.float_lt v w then less else if json.float_lt w v then greater else equal
  compare_as k v w = compare_text (json.raw v) (json.raw w)

  unfoldable pub compare : V → V → Comparison
  compare v w =
      let r = rank (json.kind v) in
      let s = rank (json.kind w) in
      if ltb r s then less else if ltb s r then greater else compare_as (json.kind v) v w

  unfoldable pub equal_as : Kind → V → V → Bool
  equal_as number_kind v w = json.num_eq v w
  equal_as null_kind v w = true
  equal_as k v w = text_eq (json.raw v) (json.raw w)

  unfoldable pub is_equal : V → V → Bool
  is_equal v w =
      if not (same_kind (json.kind v) (json.kind w)) then false else equal_as (json.kind v) v w

  unfoldable pub equals_one : V → List V → Bool
  equals_one v [] = false
  equals_one v (w ∷ values) = if is_equal v w then true else equals_one v values

  -- What is matched against the expression of OperatorLIKE.
  like_kind : Kind → (Text → Bool) → V → Bool
  like_kind null_kind exp v = false
  like_kind string_kind exp v = exp (json.string v)
  like_kind k exp v = exp (json.raw v)

  like_value : Option (Text → Bool) → V → Bool
  like_value none v = false
  like_value (some exp) v = like_kind (json.kind v) exp v

  -- The switch of `match`: an operator without a case matches nothing.
  unfoldable pub match_as : Operator → Text → V → List V → Bool
  unfolding like_value like_kind
  match_as operator_gt field val values = is_greater (compare val (value json.zero_value 0 values))
  match_as operator_min field val values =
      not (is_less (compare val (value json.zero_value 0 values)))
  match_as operator_lt field val values = is_less (compare val (value json.zero_value 0 values))
  match_as operator_max field val values =
      not (is_greater (compare val (value json.zero_value 0 values)))
  match_as operator_eq field val values = is_equal val (value json.zero_value 0 values)
  match_as operator_not field val values = not (is_equal val (value json.zero_value 0 values))
  match_as operator_in field val values = equals_one val values
  match_as operator_exclude field val values = not (equals_one val values)
  match_as operator_has field val values =
      let exp = json.truth (value json.zero_value 0 values) in
      let act = json.exists val in (exp && act) || (not exp && not act)
  match_as operator_like field val values =
      let pat = json.like_pattern (json.string (value json.zero_value 0 values)) in
      if text_eq field (bytes "last_modified")
      then false
      else if is_empty pat
      then false
      else like_value (json.compile pat) val
  match_as operator_contains_any field val values = false
  match_as operator_contains field val values = false

  unfoldable pub match : Object → Filter V → Bool
  match o f = match_as f.operator f.field (get o f.field) f.values

  unfoldable pub condition_match : Object → Condition V → Bool
  condition_match o [] = true
  condition_match o (f ∷ cnd) = if not (match o f) then false else condition_match o cnd

  -- The loop of `paginationMatch`.
  unfoldable pub one_match : Object → ConditionSet V → Bool
  one_match o [] = false
  one_match o (cs ∷ cnds) = if condition_match o cs then true else one_match o cnds

  unfoldable pub pagination_match : Object → ConditionSet V → Bool
  pagination_match o cnds = one_match o cnds || is_empty cnds

  unfoldable pub matching_page : ConditionSet V → List Object → List Object
  matching_page cnds [] = []
  matching_page cnds (o ∷ objs) =
      let rest = matching_page cnds objs in if pagination_match o cnds then o ∷ rest else rest

  unfoldable pub pagination_filter : List Object → ConditionSet V → List Object
  unfolding matching_page
  pagination_filter objs cnds =
      let cnds' = compact cnds in if is_empty cnds' then objs else matching_page cnds' objs
