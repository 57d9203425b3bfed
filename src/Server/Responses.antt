-- ===== src/Server/Responses.antt =====
-- internal/server/middleware.go: how handlers make their calls and respond, and how a request reaches them.
use riposo.Prelude.{
  ℕ, ◌≡◌, ◌≤◌, ◌<◌, refl, true, false, Option, none, some, List, [], ◌∷◌, ◌++◌, arith, ltb, Text,
  Result, ok, err, ◌⊎◌, inl, inr,
}
use riposo.Storage.Txn.Calls as StoreCalls
use riposo.Storage.Txn.Calls.{Spares}
use riposo.Permission
use riposo.Permission.{get_user_principals}
use riposo.Permission.Calls as PermsCalls
use riposo.Cache.Calls as CacheCalls
use riposo.Api.Errors.{status}
use riposo.Api.Txn.{Txn, User, Backends, new_txn, commit}
use riposo.Server.{
  AuthError, unauthenticated, auth_error, Wrapper, write_header, write, Event, store_call,
  perms_call, cache_call, header, body, on_event, serve_next, stopped, with_principals,
  authenticated, committed_status,
}

-- The calls of each backend, in their order.
abbrev pub store_calls : List Event → List StoreCalls.Call
store_calls [] = []
store_calls (store_call call ∷ events) = call ∷ store_calls events
store_calls (_ ∷ events) = store_calls events

abbrev pub perms_calls : List Event → List PermsCalls.Call
perms_calls [] = []
perms_calls (perms_call call ∷ events) = call ∷ perms_calls events
perms_calls (_ ∷ events) = perms_calls events

abbrev pub cache_calls : List Event → List CacheCalls.Call
cache_calls [] = []
cache_calls (cache_call call ∷ events) = call ∷ cache_calls events
cache_calls (_ ∷ events) = cache_calls events

-- Nothing is written to the response.
abbrev pub AreCalls : List Event → Type 0
AreCalls [] = Unit
AreCalls (header code ∷ events) = ⊥
AreCalls (body ∷ events) = ⊥
AreCalls (_ ∷ events) = AreCalls events

-- The transaction after the calls.
abbrev pub ran : List Event → Txn → Txn
ran events txn = record txn {
  store = StoreCalls.run (store_calls events) txn.store;
  perms = PermsCalls.run (perms_calls events) txn.perms;
  cache = CacheCalls.run (cache_calls events) txn.cache;
}

pub serve_next_calls :
    (events rest : List Event) (w : Wrapper)
    → AreCalls events
    → serve_next (events ++ rest) w ≡ serve_next rest (record w { txn = ran events w.txn })
unfolding serve_next on_event StoreCalls.run PermsCalls.run CacheCalls.run
serve_next_calls [] rest w h = refl
serve_next_calls (store_call call ∷ events) rest w h =
    serve_next_calls events rest (on_event (store_call call) w) h
serve_next_calls (perms_call call ∷ events) rest w h =
    serve_next_calls events rest (on_event (perms_call call) w) h
serve_next_calls (cache_call call ∷ events) rest w h =
    serve_next_calls events rest (on_event (cache_call call) w) h
serve_next_calls (header code ∷ events) rest w h = absurd h
serve_next_calls (body ∷ events) rest w h = absurd h

-- A response: its status and its body.
abbrev pub respond : ℕ → List Event
respond code = header code ∷ body ∷ []

-- The wrapper before anything is written.
abbrev pub unwritten : Txn → Wrapper
unwritten txn = record { txn = txn; wrote_header = false; sent = none }

pub failed :
    (code : ℕ) (txn : Txn)
    → 500 ≤ code
    → serve_next (respond code) (unwritten txn)
      ≡ record { txn = txn; wrote_header = true; sent = some code }
unfolding serve_next on_event write_header write
failed code txn h = let e : ltb code 500 ≡ false = ground arith in rw e refl

pub succeeded :
    (code : ℕ) (txn : Txn)
    → code < 500
    → serve_next (respond code) (unwritten txn) ≡ record {
      txn = (commit txn).1;
      wrote_header = true;
      sent = some (committed_status code (commit txn).0);
    }
unfolding serve_next on_event write_header write
succeeded code txn h = let e : ltb code 500 ≡ true = ground arith in rw e refl

-- The transaction of a request, for a user and the principals.
abbrev pub as_user : User → Backends → Txn
as_user user cns = let txn = new_txn cns in record txn { user = user }

-- A request either stops before the handlers or goes on to them as some user.
abbrev Proceeds : (Txn → List Event) → Backends → Wrapper → Type 0
Proceeds next cns w =
    ((user : User) × (w ≡ serve_next (next (as_user user cns)) (unwritten (as_user user cns))))
    ⊎ ((user : User) × (code : ℕ) × (w ≡ stopped code (as_user user cns)))

with_principals-Proceeds :
    (next : Txn → List Event) (cns : Backends) (user : User)
    (r : Result Permission.Error (List Text))
    → Proceeds next cns (with_principals next (as_user user cns) r)
unfolding with_principals
with_principals-Proceeds next cns user (err e) = inr (user, 500, unfold status in refl)
with_principals-Proceeds next cns user (ok principals) =
    inl (record { id = user.id; principals = principals }, refl)

pub authenticated-Proceeds :
    (next : Txn → List Event) (cns : Backends) (r : Result AuthError (Option User))
    → Proceeds next cns (authenticated next (new_txn cns) r)
unfolding authenticated
authenticated-Proceeds next cns (err unauthenticated) =
    let txn = new_txn cns in
    with_principals-Proceeds next cns txn.user (get_user_principals txn.user.id txn.perms)
authenticated-Proceeds next cns (err (auth_error e)) =
    inr (let txn = new_txn cns in txn.user, status e, refl)
authenticated-Proceeds next cns (ok none) =
    let txn = new_txn cns in
    with_principals-Proceeds next cns txn.user (get_user_principals txn.user.id txn.perms)
authenticated-Proceeds next cns (ok (some user)) =
    let txn = new_txn cns in
    with_principals-Proceeds next cns user (get_user_principals user.id txn.perms)
