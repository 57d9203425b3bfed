-- ===== src/Api/Conditions.antt =====
-- pkg/api/ctrl_cache.go: conditional requests, after section 6 of RFC 7232, and the headers that tell
-- the state of a resource; with ETag and HTTPFormat of pkg/riposo/epoch.go. Epochs are not negative.
pub mod Decision
mod Tests
use riposo.Prelude.{
  ℕ, ◌+◌, ◌*◌, Bool, true, false, ◌&&◌, ◌||◌, not, Option, none, some, List, [], ◌∷◌, ◌++◌, ltb,
  if◌then◌else◌, is_empty, Text, bytes, text_eq, has_prefix, Dict, insert,
}
use riposo.Params.{ℤ, pos, negsuc}
use riposo.Schema.{Object}
use riposo.Api.Errors.{Error, not_modified, modified_meanwhile}

-- What the code uses of net/http, time and fmt.
pub record Http : Type 0 where
  -- the decimal digits of a number
  pub format_int : ℕ → Text
  -- the time of an epoch in the format of the header Last-Modified
  pub http_format : ℕ → Text
  -- http.ParseTime, in seconds since 1970, where it returns no error
  pub parse_time : Text → Option ℤ

-- What the handlers read of a request: its method, and r.Header.Get.
pub record Head : Type 0 where
  pub method : Text
  pub header : Text → Text

pub data CondResult : Type 0 where
  cond_none cond_true cond_false : CondResult

-- strings.Contains(s, substr)
unfoldable pub has_substring : Text → Text → Bool
has_substring [] substr = has_prefix [] substr
has_substring (c ∷ s) substr = if has_prefix (c ∷ s) substr then true else has_substring s substr

-- m == http.MethodGet || m == http.MethodHead
unfoldable pub is_get : Head → Bool
is_get r = text_eq r.method (bytes "GET") || text_eq r.method (bytes "HEAD")

abbrev quote : Text
quote = 34 ∷ []

-- Whether a header names a tag.
unfoldable pub names : Text → Text → Bool
names val etag = text_eq val (bytes "*") || has_substring val etag

unfoldable pub cond_if_match : Head → Text → CondResult
cond_if_match r etag =
    let val = r.header (bytes "If-Match") in
    if is_empty val then cond_none else if names val etag then cond_true else cond_false

unfoldable pub cond_if_none_match : Head → Text → CondResult
cond_if_none_match r etag =
    let val = r.header (bytes "If-None-Match") in
    if is_empty val then cond_none else if names val etag then cond_false else cond_true

-- modTime.Before(t.Add(1 * time.Second)), for a time of 1970 or later
unfoldable pub before_next : ℕ → ℤ → Bool
before_next mod_time (pos t) = ltb mod_time ((t + 1) * 1000)
before_next mod_time (negsuc t) = false

-- The end of the two comparisons of times.
unfoldable pub compare_time : ℕ → CondResult → CondResult → Option ℤ → CondResult
compare_time mod_time early late none = cond_none
compare_time mod_time early late (some t) = if before_next mod_time t then early else late

-- if ch == condNone { ch = … }
abbrev pub or_else : CondResult → CondResult → CondResult
or_else cond_none ch = ch
or_else cond_true ch = cond_true
or_else cond_false ch = cond_false

abbrev pub is_false : CondResult → Bool
is_false cond_false = true
is_false _ = false

module _ (http : Http) where
  unfoldable pub etag : ℕ → Text
  etag e = quote ++ http.format_int e ++ quote

  unfoldable pub cond_if_unmodified_since : Head → ℕ → CondResult
  cond_if_unmodified_since r mod_time =
      let val = r.header (bytes "If-Unmodified-Since") in
      if is_empty val || ltb mod_time 1000
      then cond_none
      else compare_time mod_time cond_true cond_false (http.parse_time val)

  unfoldable pub check_if_modified_since : Head → ℕ → CondResult
  check_if_modified_since r mod_time =
      let val = r.header (bytes "If-Modified-Since") in
      if not (is_get r)
      then cond_none
      else if is_empty val || ltb mod_time 1000
      then cond_none
      else compare_time mod_time cond_false cond_true (http.parse_time val)

  unfoldable pub cond_status : Head → ℕ → Option Object → Option Error
  cond_status r epoch obj =
      if is_false (or_else (cond_if_match r (etag epoch)) (cond_if_unmodified_since r epoch))
      then some (modified_meanwhile obj)
      else if is_false
          (or_else (cond_if_none_match r (etag epoch)) (check_if_modified_since r epoch))
      then if is_get r then some not_modified else some (modified_meanwhile obj)
      else none

  unfoldable pub set_cache_headers : Head → ℕ → Dict Text → Dict Text
  set_cache_headers r mod_time h =
      let h' =
        insert (bytes "Etag") (etag mod_time)
          (insert (bytes "Last-Modified") (http.http_format mod_time) h) in
      if is_get r
      then insert (bytes "Cache-Control")
          (bytes "no-cache, no-store, no-transform, must-revalidate, private, max-age=0") h'
      else h'
