-- ===== src/Api/Conditions/Tests.antt =====
-- pkg/api/ctrl_cache.go: instances of the theorems.
use riposo.Prelude.{◌≡◌, none, some, [], ◌∷◌, if◌then◌else◌, bytes, text_eq}
use riposo.Params.{pos}
use riposo.Api.Errors.{modified_meanwhile, not_modified}
use riposo.Api.Conditions.{Http, Head, is_get, cond_status}
use riposo.Api.Conditions.Decision.{outdated, known, cond_status_lem}

abbrev http : Http
http = record {
  format_int = λ n. 48 ∷ n ∷ [];
  http_format = λ n. bytes "today";
  parse_time = λ t. some (pos 7);
}

abbrev request : Head
request = record {
  method = bytes "GET";
  header = λ name. if text_eq name (bytes "If-Modified-Since") then bytes "today" else [];
}

cond_status_lem_example : cond_status http request 7400 none ≡ (
    if outdated http request 7400
    then some (modified_meanwhile none)
    else if known http request 7400
    then some (if is_get request then not_modified else modified_meanwhile none)
    else none)
cond_status_lem_example = cond_status_lem http request 7400 none
