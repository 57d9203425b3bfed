-- ===== src/Api/Authz.antt =====
-- pkg/api/authz.go: the guard that verifies that principals have access to entries.
pub mod Access
mod Tests
use riposo.Prelude.{
  Bool, true, false, Option, none, some, List, [], ◌∷◌, if◌then◌else◌, is_empty, Text, text_eq,
  Dict, lookup, Result, ok, err,
}
use riposo.Permission.{Transaction, Error}
use riposo.Permission.Aces.{Ace, get_all_ace_principals}

-- The static principals by permission.
abbrev pub Authz : Type 0
Authz = Dict (List Text)

unfoldable pub contains_text : Text → List Text → Bool
contains_text v [] = false
contains_text v (w ∷ ww) = if text_eq v w then true else contains_text v ww

-- The loops of `containsOneOf`.
unfoldable pub contains_loop : List Text → List Text → Bool
contains_loop [] ww = false
contains_loop (v ∷ vv) ww = if contains_text v ww then true else contains_loop vv ww

unfoldable pub contains_one_of : List Text → List Text → Bool
contains_one_of vv ww = if is_empty ww then false else contains_loop vv ww

-- Whether the static principals of an entry allow one of the principals.
unfoldable pub allows_static : List Text → Option (List Text) → Bool
allows_static principals none = false
allows_static principals (some allowed) = contains_one_of principals allowed

-- The loop of `Verify` over the entries.
unfoldable pub static_loop : Authz → List Text → List Ace → Bool
static_loop v principals [] = false
static_loop v principals (ent ∷ target) =
    if allows_static principals (lookup ent.perm v) then true else static_loop v principals target

unfoldable pub verify_stored : List Text → Result Error (List Text) → Result Error Bool
verify_stored principals (err e) = err e
verify_stored principals (ok allowed) = ok (contains_one_of principals allowed)

unfoldable pub verify : Authz → Transaction → List Text → List Ace → Result Error Bool
verify v txn principals target =
    if is_empty principals
    then ok false
    else if static_loop v principals target
    then ok true
    else verify_stored principals (get_all_ace_principals target txn)
