-- ===== src/Params/Parse.antt =====
-- pkg/params/params.go, filter.go, sort.go and pagination.go: the parameters of a query; with SplitFunc
-- of pkg/util/util.go and ParseValue of pkg/schema/value.go.
pub mod Shape
mod Tests
use riposo.Prelude.{
  ℕ, Bool, true, false, not, ◌&&◌, Option, none, some, List, [], ◌∷◌, ◌++◌, map, ltb, ◌==◌,
  if◌then◌else◌, is_empty, length, Text, bytes, text_eq, Dict, lookup, insert, Result, ok, err,
}
use riposo.Params.{
  Operator, operator_eq, operator_in, operator_exclude, operator_contains_any, prefix_map, Filter,
  Condition, is_valid, find_prefix, SortOrder, append_so, ℤ, pos, not_negative, parse_limit,
}

-- A token; a nil token is none.
pub record Pagination (V : Type 0) : Type 0 where
  pub nonce : Text
  pub last_obj : Dict V

-- What the code uses of gjson, strconv, base64 and encoding/json.
pub record Values (V : Type 0) : Type 0 where
  -- Value{Raw: "null"}
  pub null_value : V
  -- gjson.Valid, gjson.Parse and whether Raw is not empty
  pub valid : Text → Bool
  pub parse : Text → V
  pub has_raw : V → Bool
  -- StringValue
  pub string_value : Text → V
  -- the number of strconv.Atoi, with or without an error
  pub atoi : Text → ℤ
  -- decoding from base64 and from JSON
  pub decode_token : Text → Result Text (Option (Pagination V))

-- The calls of SplitFunc's callback for a separator of one byte: a piece for each separator, and what
-- follows the last one if it is not empty.
unfoldable pub prepend : ℕ → List Text → List Text
prepend c [] = (c ∷ []) ∷ []
prepend c (piece ∷ pieces) = (c ∷ piece) ∷ pieces

unfoldable pub split_func : Text → ℕ → List Text
split_func [] sep = []
split_func (c ∷ s) sep =
    let rest = split_func s sep in if c == sep then [] ∷ rest else prepend c rest

-- A round of the loop of ParseSort; the fields are the pieces between commas.
unfoldable pub sort_field : Text → List SortOrder → List SortOrder
sort_field [] sort = sort
sort_field (c ∷ field) sort =
    if not (c == b'-')
    then append_so sort (record { field = c ∷ field; descending = false })
    else if ltb 1 (length (c ∷ field))
    then append_so sort (record { field = field; descending = true })
    else sort

unfoldable pub sort_fields : List Text → List SortOrder → List SortOrder
sort_fields [] sort = sort
sort_fields (field ∷ fields) sort = sort_fields fields (sort_field field sort)

unfoldable pub parse_sort : Text → List SortOrder
parse_sort value = sort_fields (split_func value b',') []

pub record Params (V : Type 0) : Type 0 where
  pub condition : Condition V
  pub sort : List SortOrder
  pub limit : ℤ
  pub token : Option (Pagination V)

abbrev pub first : List Text → Text
first [] = []
first (v ∷ vs) = v

module _ {V : Type 0} where
  -- if filter.isValid() { … }
  unfoldable pub add_filter : Filter V → Params V → Params V
  add_filter filter pms =
      if is_valid filter then record pms { condition = pms.condition ++ filter ∷ [] } else pms

  unfoldable pub with_token :
      Option (Result Text (Option (Pagination V))) → Params V → Result Text (Params V)
  with_token none pms = ok pms
  with_token (some (err e)) pms = err (bytes "_token has invalid content")
  with_token (some (ok token)) pms = ok (record pms { token = token })

  abbrev pub then_parse :
      (Params V → Result Text (Params V)) → Result Text (Params V) → Result Text (Params V)
  then_parse f (ok pms) = f pms
  then_parse f (err e) = err e

module _ {V : Type 0} (values : Values V) where
  unfoldable pub parse_value : Text → V
  parse_value s =
      if is_empty s
      then values.null_value
      else if values.valid s && values.has_raw (values.parse s)
      then values.parse s
      else values.string_value s

  unfoldable pub filter_values : Operator → Text → List V
  filter_values operator_in value = map parse_value (split_func value b',')
  filter_values operator_exclude value = map parse_value (split_func value b',')
  filter_values operator_contains_any value = map parse_value (split_func value b',')
  filter_values operator value = parse_value value ∷ []

  unfoldable pub parse_filter : Text → Text → Filter V
  parse_filter name value =
      let (operator, field) = find_prefix prefix_map name in
      record { field = field; operator = operator; values = filter_values operator value }

  -- `ParseToken`, where `none` is ErrNoToken.
  unfoldable pub parse_token : Text → Option (Result Text (Option (Pagination V)))
  parse_token s = if is_empty s then none else some (values.decode_token s)

  -- The switch of Parse.
  unfoldable pub parse_key : ℤ → Text → Text → Params V → Result Text (Params V)
  parse_key max_limit key value pms =
      if text_eq key (bytes "_limit")
      then ok (record pms { limit = pos (parse_limit values.atoi value max_limit) })
      else if text_eq key (bytes "_sort")
      then ok (record pms { sort = parse_sort value })
      else if text_eq key (bytes "_token")
      then with_token (parse_token value) pms
      else if text_eq key (bytes "_before")
      then ok (add_filter (parse_filter (bytes "lt_last_modified") value) pms)
      else if text_eq key (bytes "_since")
      then ok (add_filter (parse_filter (bytes "gt_last_modified") value) pms)
      else if text_eq key (bytes "_fields")
      then ok pms
      else ok (add_filter (parse_filter key value) pms)

  unfoldable pub parse_keys : ℤ → Dict (List Text) → Params V → Result Text (Params V)
  parse_keys max_limit [] pms = ok pms
  parse_keys max_limit ((key, vs) ∷ query) pms =
      then_parse (parse_keys max_limit query) (parse_key max_limit key (first vs) pms)

  unfoldable pub parse : Dict (List Text) → ℤ → Result Text (Params V)
  parse query max_limit =
      parse_keys max_limit query
        (record { condition = []; sort = []; limit = max_limit; token = none })
