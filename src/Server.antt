-- ===== src/Server.antt =====
-- internal/server/middleware.go: the middlewares around the routes. This file has the one that gives each
-- request a transaction, with the backends in memory.
pub mod Requests
pub mod Responses
pub mod Outcomes
pub mod Backoff
mod Tests
use riposo.Prelude.{
  ℕ, Bool, true, false, Option, none, some, List, [], ◌∷◌, ltb, if◌then◌else◌, is_empty, Text,
  Result, ok, err,
}
use riposo.Storage.Txn.Calls as Store
use riposo.Permission
use riposo.Permission.{get_user_principals}
use riposo.Permission.Calls as Perms
use riposo.Cache.Calls as Cache
use riposo.Api.Errors.{Error, status, perms_error}
use riposo.Api.Txn.{Txn, User, Backends, new_txn, commit, rollback, backends}

-- An error that is compatible with auth.ErrUnauthenticated, or any other.
pub data AuthError : Type 0 where
  unauthenticated : AuthError
  auth_error : Error → AuthError

-- transactionalWrapper, with the status that it passed on to the writer that it wraps.
pub record Wrapper : Type 0 where
  pub txn : Txn
  pub wrote_header : Bool
  pub sent : Option ℕ

-- The status that is passed on, by the errors of the commit.
abbrev pub committed_status : ℕ → List Error → ℕ
committed_status code [] = code
committed_status code (e ∷ errors) = 503

unfoldable pub write_header : ℕ → Wrapper → Wrapper
write_header code w =
    if w.wrote_header
    then w
    else if ltb code 500
    then (let (errors, txn) = commit w.txn in
        record { txn = txn; wrote_header = true; sent = some (committed_status code errors) })
    else record w { wrote_header = true; sent = some code }

unfoldable pub write : Wrapper → Wrapper
write = write_header 200

-- What the handlers below do with the transaction and the writer, one thing after another.
pub data Event : Type 0 where
  store_call : Store.Call → Event
  perms_call : Perms.Call → Event
  cache_call : Cache.Call → Event
  header : ℕ → Event
  body : Event

unfoldable pub on_event : Event → Wrapper → Wrapper
on_event (store_call call) w =
    let txn : Txn = record w.txn { store = Store.step call w.txn.store } in record w { txn = txn }
on_event (perms_call call) w =
    let txn : Txn = record w.txn { perms = Perms.step call w.txn.perms } in record w { txn = txn }
on_event (cache_call call) w =
    let txn : Txn = record w.txn { cache = Cache.step call w.txn.cache } in record w { txn = txn }
on_event (header code) w = write_header code w
on_event body w = write w

unfoldable pub serve_next : List Event → Wrapper → Wrapper
serve_next [] w = w
serve_next (e ∷ events) w = serve_next events (on_event e w)

-- A request that ends before the handlers below: the status, and the transaction.
abbrev pub stopped : ℕ → Txn → Wrapper
stopped code txn = record { txn = txn; wrote_header = false; sent = some code }

-- The principals of the user, and then the handlers below.
unfoldable pub with_principals :
    (Txn → List Event) → Txn → Result Permission.Error (List Text) → Wrapper
with_principals next txn (err e) = stopped (status (perms_error e)) txn
with_principals next txn (ok principals) =
    let user : User = record txn.user { principals = principals } in
    let txn' : Txn = record txn { user = user } in
    serve_next (next txn') (record { txn = txn'; wrote_header = false; sent = none })

unfoldable pub authenticated : (Txn → List Event) → Txn → Result AuthError (Option User) → Wrapper
authenticated next txn (err unauthenticated) =
    with_principals next txn (get_user_principals txn.user.id txn.perms)
authenticated next txn (err (auth_error e)) = stopped (status e) txn
authenticated next txn (ok none) =
    with_principals next txn (get_user_principals txn.user.id txn.perms)
authenticated next txn (ok (some user)) =
    with_principals next (record txn { user = user }) (get_user_principals user.id txn.perms)

-- A request: the backends afterwards, and the status that was sent. The method of authentication only
-- reads; what the handlers do may depend on the transaction. The rollback is the deferred one.
unfoldable pub transactional :
    (Txn → Result AuthError (Option User)) → (Txn → List Event) → Backends → Backends × Option ℕ
transactional authenticate next cns =
    let txn = new_txn cns in
    let w = authenticated next txn (authenticate txn) in (backends (rollback w.txn).1, w.sent)
