-- ===== src/Params/Parse/Shape.antt =====
-- pkg/params: what the parameters of a query look like, whatever the query is.
use riposo.Prelude.{
  ℕ, ◌≡◌, refl, ◌∙◌, ◌≤◌, ◌&&◌, ◌||◌, Bool, true, false, none, List, [], ◌∷◌, ◌++◌, arith,
  Bool-cases, Result-cases, ◌⊎◌, inl, inr, is_empty, Text, text_eq, text_eq_iff, bytes, Dict,
  Result, ok, err, either, ◌==◌, ltb, length,
}
use riposo.Params.{Filter, Condition, is_valid, SortOrder, append_so, pos, parse_limit}
use riposo.Params.Limits.{parse_limit_bounds}
use riposo.Params.Parse.{
  Values, Params, sort_field, sort_fields, split_func, parse_sort, first, parse_filter, parse_token,
  add_filter, with_token, parse_key, then_parse, parse_keys, parse,
}

abbrev pub all_valid : {V : Type 0} → Condition V → Bool
all_valid [] = true
all_valid (filter ∷ condition) = is_valid filter && all_valid condition

abbrev pub sorts : Text → List SortOrder → Bool
sorts field [] = false
sorts field (so ∷ sort) = text_eq so.field field || sorts field sort

-- No two orders are by the same field.
abbrev pub AreDistinct : List SortOrder → Type 0
AreDistinct [] = Unit
AreDistinct (so ∷ sort) = (sorts so.field sort ≡ false) × AreDistinct sort

all_valid-snoc :
    {V : Type 0} (condition : Condition V) (filter : Filter V)
    → all_valid condition ≡ true
    → is_valid filter ≡ true
    → all_valid (condition ++ filter ∷ []) ≡ true
all_valid-snoc [] filter h valid = ground arith
all_valid-snoc (f ∷ condition) filter h valid = ground (arith, all_valid-snoc condition filter)

sorts-append_so :
    (field : Text) (sort : List SortOrder) (so : SortOrder)
    → text_eq so.field field ≡ false
    → sorts field (append_so sort so) ≡ sorts field sort
unfolding append_so
sorts-append_so field [] so h = ground arith
sorts-append_so field (x ∷ sort) so h = ground (arith, sorts-append_so field sort so h)

append_so-AreDistinct :
    (sort : List SortOrder) (so : SortOrder) → AreDistinct sort → AreDistinct (append_so sort so)
unfolding append_so
append_so-AreDistinct [] so h = (refl, tt)
append_so-AreDistinct (x ∷ sort) so h = elim (Bool-cases (text_eq x.field so.field)) [
  | inl e ↦ rw e h
  | inr e ↦
      let other : text_eq so.field x.field ≡ false =
        ground (arith, text_eq_iff x.field so.field, text_eq_iff so.field x.field) in
      rw e (sorts-append_so x.field sort so other ∙ h.0, append_so-AreDistinct sort so h.1)
]

sort_field-AreDistinct :
    (field : Text) (sort : List SortOrder) → AreDistinct sort → AreDistinct (sort_field field sort)
unfolding sort_field
sort_field-AreDistinct [] sort h = h
sort_field-AreDistinct (c ∷ field) sort h =
    let up = append_so-AreDistinct sort (record { field = c ∷ field; descending = false }) h in
    let down = append_so-AreDistinct sort (record { field = field; descending = true }) h in
    elim (Bool-cases (c == b'-')) [
      | inr e ↦ rw e up
      | inl e ↦ elim (Bool-cases (ltb 1 (length (c ∷ field)))) [
        | inl l ↦ rw e (rw l down)
        | inr l ↦ rw e (rw l h)
      ]
    ]

sort_fields-AreDistinct :
    (fields : List Text) (sort : List SortOrder)
    → AreDistinct sort
    → AreDistinct (sort_fields fields sort)
unfolding sort_fields
sort_fields-AreDistinct [] sort h = h
sort_fields-AreDistinct (field ∷ fields) sort h =
    sort_fields-AreDistinct fields (sort_field field sort) (sort_field-AreDistinct field sort h)

sorted : (value : Text) → AreDistinct (parse_sort value)
unfolding parse_sort
sorted value = sort_fields-AreDistinct (split_func value b',') [] tt

abbrev pub token_key : Text
token_key = bytes "_token"

module _ {V : Type 0} (values : Values V) (max : ℕ) where
  pub record IsShaped (pms : Params V) : Type 0 where
    pub limit : ℕ
    pub given : pms.limit ≡ pos limit
    pub low : 1 ≤ limit
    pub high : limit ≤ max
    pub filters : all_valid pms.condition ≡ true
    pub distinct : AreDistinct pms.sort

  -- The value of a key is a token, not empty, that cannot be decoded.
  abbrev pub IsBad : Text → Text → Type 0
  IsBad key value =
      (key ≡ token_key)
      × (is_empty value ≡ false)
      × ((reason : Text) × (values.decode_token value ≡ err reason))

  abbrev pub HasBad : Dict (List Text) → Type 0
  HasBad [] = ⊥
  HasBad ((key, vs) ∷ query) = IsBad key (first vs) ⊎ HasBad query

  -- The outcome of a query: parameters that are well formed, and no token of the query is bad; or the
  -- refusal of a bad one.
  abbrev pub Outcome : Dict (List Text) → Result Text (Params V) → Type 0
  Outcome query (ok pms) = IsShaped pms × ¬ HasBad query
  Outcome query (err e) = HasBad query × (e ≡ bytes "_token has invalid content")

  -- The outcome of one key and its value.
  abbrev KeyOutcome : Text → Text → Result Text (Params V) → Type 0
  KeyOutcome key value (ok pms) = IsShaped pms × ¬ IsBad key value
  KeyOutcome key value (err e) = IsBad key value × (e ≡ bytes "_token has invalid content")

  add_filter-IsShaped :
      (filter : Filter V) (pms : Params V) → IsShaped pms → IsShaped (add_filter filter pms)
  unfolding add_filter
  add_filter-IsShaped filter pms h = elim (Bool-cases (is_valid filter)) [
    | inl e ↦ rw e (record {
      limit = h.limit;
      given = h.given;
      low = h.low;
      high = h.high;
      filters = all_valid-snoc pms.condition filter h.filters e;
      distinct = h.distinct;
    })
    | inr e ↦ rw e h
  ]

  with_token-Outcome :
      (value : Text) (pms : Params V)
      → IsShaped pms
      → KeyOutcome token_key value (with_token (parse_token values value) pms)
  unfolding with_token parse_token
  with_token-Outcome value pms h = elim (Bool-cases (is_empty value)) [
    | inl e ↦ rw e (h, λ bad. absurd (ground (arith, bad.1)))
    | inr e ↦ elim (Result-cases (values.decode_token value)) [
      | inl (token, d) ↦ rw e (
          rw d (
            record {
              limit = h.limit;
              given = h.given;
              low = h.low;
              high = h.high;
              filters = h.filters;
              distinct = h.distinct;
            },
            λ bad. cc,
          ))
      | inr (reason, d) ↦ rw e (rw d ((refl, e, (reason, d)), refl))
    ]
  ]

  -- A key other than that of the token.
  abbrev Passes : Result Text (Params V) → Type 0
  Passes (ok pms) = IsShaped pms
  Passes (err e) = ⊥

  passes :
      (key value : Text) (r : Result Text (Params V))
      → text_eq key token_key ≡ false
      → Passes r
      → KeyOutcome key value r
  passes key value (ok pms) other h =
      (h, λ bad. absurd (ground (arith, text_eq_iff key token_key, bad.0)))
  passes key value (err e) other h = absurd h

  parse_key-Passes :
      (key value : Text) (pms : Params V)
      → 1 ≤ max
      → text_eq key token_key ≡ false
      → IsShaped pms
      → Passes (parse_key values (pos max) key value pms)
  unfolding parse_key
  parse_key-Passes key value pms some_limit other h =
      let (low, high, exact) = parse_limit_bounds values.atoi value max some_limit in
      let filtered : (filter : Filter V) → IsShaped (add_filter filter pms) =
        λ filter. add_filter-IsShaped filter pms h in
      either Passes (text_eq key (bytes "_limit"))
        (record {
          limit = parse_limit values.atoi value (pos max);
          given = refl;
          low = low;
          high = high;
          filters = h.filters;
          distinct = h.distinct;
        })
        (either Passes (text_eq key (bytes "_sort"))
          (record {
            limit = h.limit;
            given = h.given;
            low = h.low;
            high = h.high;
            filters = h.filters;
            distinct = sorted value;
          })
          (rw other (
            either Passes (text_eq key (bytes "_before"))
              (filtered (parse_filter values (bytes "lt_last_modified") value))
              (either Passes (text_eq key (bytes "_since"))
                (filtered (parse_filter values (bytes "gt_last_modified") value))
                (either Passes (text_eq key (bytes "_fields")) h
                  (filtered (parse_filter values key value)))))))

  token_parsed :
      (key value : Text) (pms : Params V)
      → key ≡ token_key
      → parse_key values (pos max) key value pms ≡ with_token (parse_token values value) pms
  unfolding parse_key text_eq
  token_parsed key value pms e = rw e refl

  parse_key-Outcome :
      (key value : Text) (pms : Params V)
      → 1 ≤ max
      → IsShaped pms
      → KeyOutcome key value (parse_key values (pos max) key value pms)
  parse_key-Outcome key value pms some_limit h = elim (Bool-cases (text_eq key token_key)) [
    | inl e ↦
        let same : key ≡ token_key = ground (arith, text_eq_iff key token_key) in
        rw (token_parsed key value pms same) (rw same (with_token-Outcome value pms h))
    | inr e ↦
        passes key value (parse_key values (pos max) key value pms) e
          (parse_key-Passes key value pms some_limit e h)
  ]

  tail-Outcome :
      (key : Text) (vs : List Text) (query : Dict (List Text)) (r : Result Text (Params V))
      → ¬ IsBad key (first vs)
      → Outcome query r
      → Outcome ((key, vs) ∷ query) r
  tail-Outcome key vs query (ok pms) fine (shaped, none_bad) =
      (shaped, λ bad. elim bad [ inl here ↦ fine here | inr there ↦ none_bad there ])
  tail-Outcome key vs query (err e) fine (bad, said) = (inr bad, said)

  then_parse-Outcome :
      (key : Text) (vs : List Text) (query : Dict (List Text))
      (f : Params V → Result Text (Params V)) (r : Result Text (Params V))
      → ((pms : Params V) → IsShaped pms → Outcome query (f pms))
      → KeyOutcome key (first vs) r
      → Outcome ((key, vs) ∷ query) (then_parse f r)
  then_parse-Outcome key vs query f (ok pms) next (shaped, fine) =
      tail-Outcome key vs query (f pms) fine (next pms shaped)
  then_parse-Outcome key vs query f (err e) next (bad, said) = (inl bad, said)

  parse_keys-Outcome :
      (query : Dict (List Text)) (pms : Params V)
      → 1 ≤ max
      → IsShaped pms
      → Outcome query (parse_keys values (pos max) query pms)
  unfolding parse_keys
  parse_keys-Outcome [] pms some_limit h = (h, λ bad. bad)
  parse_keys-Outcome ((key, vs) ∷ query) pms some_limit h =
      then_parse-Outcome key vs query (parse_keys values (pos max) query)
        (parse_key values (pos max) key (first vs) pms)
        (λ pms'. parse_keys-Outcome query pms' some_limit)
        (parse_key-Outcome key (first vs) pms some_limit h)

  -- Where there is a greatest limit, a query is refused if and only if it has a `_token` whose first value
  -- is not empty and cannot be decoded, and the parameters of any other have a limit between 1 and the
  -- greatest, filters that each have a field and a value, and orders by different fields.
  pub parse-Outcome :
      (query : Dict (List Text)) → 1 ≤ max → Outcome query (parse values query (pos max))
  unfolding parse
  parse-Outcome query some_limit =
      parse_keys-Outcome query (record { condition = []; sort = []; limit = pos max; token = none })
        some_limit
        (record {
          limit = max;
          given = refl;
          low = some_limit;
          high = ground arith;
          filters = refl;
          distinct = tt;
        })
