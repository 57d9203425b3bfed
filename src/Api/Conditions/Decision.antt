-- ===== src/Api/Conditions/Decision.antt =====
-- pkg/api/ctrl_cache.go: the decision on a conditional request, as section 6 of RFC 7232 puts it.
use riposo.Prelude.{
  ℕ, ◌≡◌, refl, ap, ◌∙◌, Bool, true, false, ◌&&◌, ◌||◌, not, Option, none, some, arith, ltb,
  if◌then◌else◌, is_empty, Text, bytes,
}
use riposo.Params.{ℤ}
use riposo.Schema.{Object}
use riposo.Api.Errors.{not_modified, modified_meanwhile}
use riposo.Api.Conditions.{
  Http, Head, CondResult, cond_none, cond_true, cond_false, is_get, names, cond_if_match,
  cond_if_none_match, before_next, compare_time, etag, cond_if_unmodified_since,
  check_if_modified_since, or_else, is_false, cond_status,
}

-- Whether a header is given.
pub is_given : Head → Text → Bool
is_given r name = not (is_empty (r.header name))

-- A test of a time, where there is one.
abbrev pub at_time : (ℤ → Bool) → Option ℤ → Bool
at_time test none = false
at_time test (some t) = test t

-- Whether a header holds a time, the resource one that is not in the first second of 1970, and the
-- two are in this order: the resource's second is later, or it is not.
pub later : Http → Head → Text → ℕ → Bool
later http r name epoch =
    is_given r name
    && not (ltb epoch 1000)
    && at_time (λ t. not (before_next epoch t)) (http.parse_time (r.header name))

pub not_later : Http → Head → Text → ℕ → Bool
not_later http r name epoch =
    is_given r name
    && not (ltb epoch 1000)
    && at_time (before_next epoch) (http.parse_time (r.header name))

-- Whether the client's copy is another one than the server's.
pub outdated : Http → Head → ℕ → Bool
outdated http r epoch =
    if is_given r (bytes "If-Match")
    then not (names (r.header (bytes "If-Match")) (etag http epoch))
    else later http r (bytes "If-Unmodified-Since") epoch

-- Whether the client has the server's copy already.
pub known : Http → Head → ℕ → Bool
known http r epoch =
    if is_given r (bytes "If-None-Match")
    then names (r.header (bytes "If-None-Match")) (etag http epoch)
    else is_get r && not_later http r (bytes "If-Modified-Since") epoch

match_or :
    (absent m : Bool) (ch : CondResult)
    → is_false (or_else (if absent then cond_none else if m then cond_true else cond_false) ch)
      ≡ (if not absent then not m else is_false ch)
match_or true m ch = refl
match_or false true ch = refl
match_or false false ch = refl

none_match_or :
    (absent m : Bool) (ch : CondResult)
    → is_false (or_else (if absent then cond_none else if m then cond_false else cond_true) ch)
      ≡ (if not absent then m else is_false ch)
none_match_or true m ch = refl
none_match_or false true ch = refl
none_match_or false false ch = refl

unmodified_since :
    (absent old : Bool) (epoch : ℕ) (o : Option ℤ)
    → is_false (if absent || old then cond_none else compare_time epoch cond_true cond_false o)
      ≡ (not absent && not old && at_time (λ t. not (before_next epoch t)) o)
unfolding compare_time
unmodified_since true old epoch o = refl
unmodified_since false true epoch o = refl
unmodified_since false false epoch none = refl
unmodified_since false false epoch (some t) = ground arith

modified_since :
    (get absent old : Bool) (epoch : ℕ) (o : Option ℤ)
    → is_false (
        if not get
        then cond_none
        else if absent || old
        then cond_none
        else compare_time epoch cond_false cond_true o)
      ≡ (get && (not absent && not old && at_time (before_next epoch) o))
unfolding compare_time
modified_since false absent old epoch o = refl
modified_since true true old epoch o = refl
modified_since true false true epoch o = refl
modified_since true false false epoch none = refl
modified_since true false false epoch (some t) = ground arith

module _ (http : Http) (r : Head) (epoch : ℕ) where
  -- The two rounds of tests.
  outdated_lem :
      is_false (or_else (cond_if_match r (etag http epoch)) (cond_if_unmodified_since http r epoch))
      ≡ outdated http r epoch
  unfolding cond_if_match cond_if_unmodified_since outdated is_given later
  outdated_lem =
      match_or (is_empty (r.header (bytes "If-Match")))
        (names (r.header (bytes "If-Match")) (etag http epoch))
        (cond_if_unmodified_since http r epoch)
      ∙ ap
          (λ c.
            if is_given r (bytes "If-Match")
            then not (names (r.header (bytes "If-Match")) (etag http epoch))
            else c)
          (unmodified_since (is_empty (r.header (bytes "If-Unmodified-Since"))) (ltb epoch 1000)
            epoch (http.parse_time (r.header (bytes "If-Unmodified-Since"))))

  known_lem :
      is_false
        (or_else (cond_if_none_match r (etag http epoch)) (check_if_modified_since http r epoch))
      ≡ known http r epoch
  unfolding cond_if_none_match check_if_modified_since known is_given not_later
  known_lem =
      none_match_or (is_empty (r.header (bytes "If-None-Match")))
        (names (r.header (bytes "If-None-Match")) (etag http epoch))
        (check_if_modified_since http r epoch)
      ∙ ap
          (λ c.
            if is_given r (bytes "If-None-Match")
            then names (r.header (bytes "If-None-Match")) (etag http epoch)
            else c)
          (modified_since (is_get r) (is_empty (r.header (bytes "If-Modified-Since")))
            (ltb epoch 1000) epoch (http.parse_time (r.header (bytes "If-Modified-Since"))))

some_if :
    {A : Type 0} (c : Bool) (a b : A) → (if c then some a else some b) ≡ some (if c then a else b)
some_if true a b = refl
some_if false a b = refl

-- A request fails with 412 where If-Match is given and names neither the server's copy nor any, or where it
-- is absent and the resource was modified after If-Unmodified-Since. Otherwise it ends where If-None-Match
-- is given and names the server's copy or any, or where it is absent, the method is GET or HEAD, and the
-- resource was not modified after If-Modified-Since: with 304 for GET and HEAD, and with 412 for the others.
-- In all other cases it goes on. A header with a time counts only where the time can be parsed and the
-- resource's epoch is at least 1000, one second; times are compared by their seconds.
pub cond_status_lem :
    (http : Http) (r : Head) (epoch : ℕ) (obj : Option Object)
    → cond_status http r epoch obj ≡ (
        if outdated http r epoch
        then some (modified_meanwhile obj)
        else if known http r epoch
        then some (if is_get r then not_modified else modified_meanwhile obj)
        else none)
unfolding cond_status
cond_status_lem http r epoch obj =
    rw
      (
        outdated_lem http r epoch,
        known_lem http r epoch,
        some_if (is_get r) not_modified (modified_meanwhile obj),
      )
      refl
