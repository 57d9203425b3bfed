-- ===== src/Batch.antt =====
-- internal/batch: several requests in one. How the sub-requests are served is a parameter, over a state that
-- they share; so are the canonical keys of headers, and whether net/http can make a request of a method and a path.
pub mod Order
mod Tests
use riposo.Prelude.{
  ℕ, ◌+◌, ◌-◌, Bool, true, false, not, ◌||◌, Option, none, some, List, [], ◌∷◌, ◌++◌, leb, ◌&&◌,
  if◌then◌else◌, is_empty, is_some, length, drop, Text, bytes, text_eq, has_prefix, Dict, lookup,
  insert, elem, Result, ok, err, map_ok,
}

pub record RequestPart : Type 0 where
  pub method : Text
  pub path : Text
  pub body : Text
  pub headers : Dict Text

-- Request, where nil defaults are none.
pub record Request : Type 0 where
  pub defaults : Option RequestPart
  pub requests : List RequestPart

unfoldable pub is_recursive : RequestPart → Bool
is_recursive p = has_prefix p.path (bytes "/batch")

abbrev pub are_recursive : Option RequestPart → Bool
are_recursive none = false
are_recursive (some p) = is_recursive p

unfoldable pub any_recursive : List RequestPart → Bool
any_recursive [] = false
any_recursive (part ∷ requests) = if is_recursive part then true else any_recursive requests

unfoldable pub contains_recursive : Request → Bool
contains_recursive r = if are_recursive r.defaults then true else any_recursive r.requests

-- The loop of `Norm` over the default headers.
unfoldable pub merge_headers : Dict Text → Dict Text → Dict Text
merge_headers [] headers = headers
merge_headers ((key, val) ∷ defaults) headers =
    merge_headers defaults
      (if is_some (lookup key headers) then headers else insert key val headers)

-- strings.TrimPrefix(path, namespace), where a slash follows the namespace
unfoldable pub trim_namespace : Text → Text → Text
trim_namespace namespace path =
    if has_prefix path (namespace ++ bytes "/") then drop (length namespace) path else path

unfoldable pub norm : Text → Option RequestPart → RequestPart → RequestPart
norm namespace none p = p
norm namespace (some defaults) p =
    let path = if is_empty p.path then defaults.path else p.path in
    record {
      method = if is_empty p.method then defaults.method else p.method;
      path = trim_namespace namespace path;
      body = if is_empty p.body then defaults.body else p.body;
      headers = merge_headers defaults.headers p.headers;
    }

abbrev skip_headers : List Text
skip_headers =
    bytes "Accept-Encoding"
    ∷ bytes "Connection"
    ∷ bytes "Content-Encoding"
    ∷ bytes "Keep-Alive"
    ∷ bytes "Transfer-Encoding"
    ∷ bytes "Upgrade"
    ∷ []

-- The loop over the headers of the batch request, whose keys are canonical.
unfoldable pub inherit_headers : Dict Text → Dict Text → Dict Text
inherit_headers [] h = h
inherit_headers ((key, val) ∷ parent) h =
    inherit_headers parent (if elem key skip_headers then h else insert key val h)

-- The loop over the headers of the part; `canonical` is http.CanonicalHeaderKey.
unfoldable pub set_headers : (Text → Text) → Dict Text → Dict Text → Dict Text
set_headers canonical [] h = h
set_headers canonical ((key, val) ∷ headers) h =
    set_headers canonical headers (insert (canonical key) val h)

-- strings.ToUpper of a method in ASCII
unfoldable pub to_upper : Text → Text
to_upper [] = []
to_upper (c ∷ s) = (if leb b'a' c && leb c b'z' then c - 32 else c) ∷ to_upper s

abbrev methods : List Text
methods =
    bytes "GET" ∷ bytes "HEAD" ∷ bytes "POST" ∷ bytes "PUT" ∷ bytes "PATCH" ∷ bytes "DELETE" ∷ []

-- What can go wrong with a batch: its body, a recursion, or a part by its position.
pub data Refusal : Type 0 where
  recursion : Refusal
  invalid_part : ℕ → Text → Refusal

unfoldable pub collected :
    ℕ
    → Result Text RequestPart
    → Result Refusal (List RequestPart)
    → Result Refusal (List RequestPart)
collected pos (err e) rest = err (invalid_part pos e)
collected pos (ok sreq) rest = map_ok (λ sub. sreq ∷ sub) rest

module _ {S R : Type 0} (serve : RequestPart → S → R × S) where
  unfoldable pub serve_each : List RequestPart → S → List R × S
  serve_each [] s = ([], s)
  serve_each (sr ∷ sub) s =
      let (res, s') = serve sr s in
      let (responses, s'') = serve_each sub s' in (res ∷ responses, s'')

  unfoldable pub serve_collected :
      Result Refusal (List RequestPart) → S → Result Refusal (List R) × S
  serve_collected (err e) s = (err e, s)
  serve_collected (ok sub) s = let (responses, s') = serve_each sub s in (ok responses, s')

-- `new_request` gives the error of http.NewRequestWithContext for a method and a path, if there is one.
module _ (canonical : Text → Text) (new_request : Text → Text → Option Text) where
  unfoldable pub http_request : Dict Text → RequestPart → Result Text RequestPart
  http_request parent p =
      if not (elem (to_upper p.method) methods)
      then err (bytes "invalid method")
      else elim (new_request p.method p.path) [
        | some e ↦ err e
        | none ↦
            ok (record p { headers = set_headers canonical p.headers (inherit_headers parent []) })
      ]

  -- The loop that collects the sub-requests, up to the first that is refused.
  unfoldable pub collect :
      Text
      → Option RequestPart
      → Dict Text
      → ℕ
      → List RequestPart
      → Result Refusal (List RequestPart)
  collect namespace defaults parent pos [] = ok []
  collect namespace defaults parent pos (part ∷ requests) =
      collected pos (http_request parent (norm namespace defaults part))
        (collect namespace defaults parent (pos + 1) requests)

  -- The handler, for a parsed request and the headers of the batch.
  unfoldable pub handler :
      {S R : Type 0}
      → (RequestPart → S → R × S)
      → Text
      → Request
      → Dict Text
      → S
      → Result Refusal (List R) × S
  handler serve namespace req parent s =
      if contains_recursive req
      then (err recursion, s)
      else serve_collected serve (collect namespace req.defaults parent 0 req.requests) s
