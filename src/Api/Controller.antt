-- ===== src/Api/Controller.antt =====
-- pkg/api/ctrl.go: the handlers of a resource, for any actions. A handler takes the request, changes
-- the transaction and the headers of the response, and returns the response or an error. The pools that
-- slices come from are left out.
pub mod Handlers
pub mod Bulk
pub mod Guards
pub mod Writes
pub mod Visible
pub mod Listing
mod Tests
use riposo.Prelude.{
  ℕ, ◌+◌, suc, Bool, true, false, not, ◌&&◌, ◌||◌, Option, none, some, List, [], ◌∷◌, ◌++◌, map,
  if◌then◌else◌, is_empty, length, Text, bytes, text_eq, Dict, Result, ok, err, Effect, reads, pure,
  raise, raise_if, ◌>>=◌, ◌>>◌, within, map_err,
}
use riposo.Path.{parent, object_id, resource_name, traverse}
use riposo.Params.{ℤ}
use riposo.Params.Parse.{Values, Params, parse}
use riposo.Schema.{Object}
use riposo.Schema.Resources.{Resource}
use riposo.Storage.Txn as Store
use riposo.Permission.{everyone}
use riposo.Permission.Aces.{Ace, PermissionSet}
use riposo.Api.Authz.{Authz, verify}
use riposo.Api.Errors.{
  Error, missing_auth_token, forbidden, invalid_body, invalid_query, missing_resource, store_error,
  perms_error, other_error,
}
use riposo.Api.Txn.{Txn}
use riposo.Api.Conditions.{Http, Head, cond_status, set_cache_headers}

-- The transaction of a request, and the headers of its response.
pub record Context : Type 0 where
  pub txn : Txn
  pub out : Dict Text

-- A payload as it is parsed, where `Data` may be nil.
pub record Payload : Type 0 where
  pub object : Option Object
  pub permissions : Option PermissionSet

-- A request as the handlers read it: `payload` is what `Parse` makes of its body, `form` what
-- `ParseForm` makes of its query.
pub record Request : Type 0 where
  pub head : Head
  pub path : Text
  pub payload : Result Error Payload
  pub form : Result Text (Dict (List Text))

-- The value of a handler: nil, objects, or a resource with its status.
pub data Response : Type 0 where
  no_body : Response
  objects : List Object → Response
  resource : ℕ → Resource → Response

abbrev pub in_txn : {A : Type 0} → Effect Txn Error A → Effect Context Error A
in_txn = within (λ c. c.txn) (λ txn c. record c { txn = txn }) (λ e. e)

abbrev pub or_nothing : {A : Type 0} → Option (List A) → List A
or_nothing none = []
or_nothing (some xs) = xs

-- The entries that an iterator of `Traverse` appends for a path and its parents. The rounds are fewer
-- than the bytes of the path and one more.
unfoldable pub entries : List Text → Text → List Ace → List Ace
entries perms path ents = or_nothing (
    traverse (suc (length path))
      (λ part ents. (true, ents ++ map (λ perm. record { perm = perm; path = part }) perms)) path
      ents)

unfoldable pub verdict : Text → Result Error Bool → Result Error (Unit {0})
verdict id (err e) = err e
verdict id (ok true) = ok tt
verdict id (ok false) = if text_eq id everyone then err missing_auth_token else err forbidden

unfoldable pub is_forbidden : Authz → List Ace → Txn → Result Error (Unit {0})
is_forbidden authz ents txn =
    verdict txn.user.id (map_err perms_error (verify authz txn.perms txn.user.principals ents))

unfoldable pub check_permission : Authz → List Text → Text → Txn → Result Error (Unit {0})
check_permission authz perms path = is_forbidden authz (entries perms path [])

unfoldable pub parent_exists : Text → Result Store.Error Bool → Result Error (Unit {0})
parent_exists path (err e) = err (store_error e)
parent_exists path (ok true) = ok tt
parent_exists path (ok false) = err (missing_resource (object_id path) (resource_name path))

unfoldable pub check_parent : Text → Txn → Result Error (Unit {0})
check_parent path txn =
    let parent_path = parent path in
    if not (is_empty parent_path) && not (text_eq (resource_name parent_path) (bytes "bucket"))
    then parent_exists parent_path (Store.exists parent_path txn.store)
    else ok tt

-- A nil error is none.
abbrev pub or_ok : Option Error → Result Error (Unit {0})
or_ok none = ok tt
or_ok (some e) = err e

module _ (http : Http) where
  -- `setCacheHeaders` and `renderConditional` on the response.
  unfoldable pub cache_headers : Head → ℕ → Effect Context Error (Unit {0})
  cache_headers r mod_time c = (ok tt, record c { out = set_cache_headers http r mod_time c.out })

  unfoldable pub render_conditional : Head → ℕ → Option Object → Effect Context Error (Unit {0})
  render_conditional r epoch obj = do
    cache_headers r epoch
    reads (λ c. or_ok (cond_status http r epoch obj))
