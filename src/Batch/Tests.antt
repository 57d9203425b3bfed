-- ===== src/Batch/Tests.antt =====
-- Runs of internal/batch: a server that counts the requests and answers their path and their number.
use riposo.Prelude.{
  ℕ, suc, ◌≡◌, refl, Option, none, some, [], ◌∷◌, is_empty, if◌then◌else◌, Text, bytes, Dict, ok,
  has_prefix, elem, text_eq, insert, err,
}
use riposo.Batch.{
  Request, RequestPart, invalid_part, contains_recursive, is_recursive, any_recursive,
  serve_collected, collect, collected, http_request, to_upper, norm, trim_namespace, serve_each,
  set_headers, inherit_headers, merge_headers, handler,
}
use riposo.Batch.Order.{handler-Answers, Answers}

abbrev serve : RequestPart → ℕ → (Text × ℕ) × ℕ
serve p n = ((p.path, n), suc n)

abbrev canonical : Text → Text
canonical key = key

abbrev new_request : Text → Text → Option Text
new_request method path = if is_empty path then some (bytes "invalid path") else none

abbrev part : Text → Text → RequestPart
part method path = record {
  method = method;
  path = path;
  body = [];
  headers = (bytes "Accept", bytes "*/*") ∷ [];
}

abbrev defaults : RequestPart
defaults = part (bytes "get") (bytes "/v1/buckets")

abbrev two_parts : Request
two_parts = record {
  defaults = some defaults;
  requests = part [] [] ∷ part (bytes "PUT") (bytes "/v1/buckets/a") ∷ [];
}

abbrev bad_method : Request
bad_method = record {
  defaults = none;
  requests = part (bytes "GET") (bytes "/") ∷ part (bytes "TRACE") (bytes "/") ∷ [];
}

abbrev outer : Dict Text
outer = (bytes "Authorization", bytes "Basic YTpi") ∷ (bytes "Connection", bytes "close") ∷ []

answers_in_order :
    handler canonical new_request serve (bytes "/v1") two_parts outer 3
    ≡ (ok ((bytes "/buckets", 3) ∷ (bytes "/buckets/a", 4) ∷ []), 5)
unfolding handler contains_recursive is_recursive has_prefix any_recursive serve_collected collect
    collected http_request elem text_eq to_upper norm trim_namespace serve_each set_headers
    inherit_headers insert merge_headers
answers_in_order = refl

refuses_second :
    handler canonical new_request serve (bytes "/v1") bad_method outer 3
    ≡ (err (invalid_part 1 (bytes "invalid method")), 3)
unfolding handler contains_recursive is_recursive has_prefix any_recursive serve_collected collect
    collected http_request elem text_eq to_upper norm trim_namespace serve_each set_headers
    inherit_headers insert merge_headers
refuses_second = refl

handler-Answers_example :
    Answers canonical new_request serve
      (bytes "/v1")
      two_parts
      outer
      3
      (handler canonical new_request serve (bytes "/v1") two_parts outer 3)
handler-Answers_example =
    handler-Answers canonical new_request serve (bytes "/v1") two_parts outer 3
