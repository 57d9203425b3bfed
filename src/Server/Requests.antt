-- ===== src/Server/Requests.antt =====
-- internal/server/middleware.go: how a request takes the three backends and releases them.
use riposo.Prelude.{
  ℕ, ◌≡◌, false, Option, none, some, List, [], ◌∷◌, arith, ltb, either, Text, Result, ok, err,
}
use riposo.Locks.{IsReleased}
use riposo.Storage.Txn as Store
use riposo.Storage.Txn.Locks as StoreLocks
use riposo.Permission
use riposo.Permission.{get_user_principals}
use riposo.Permission.Locks as PermsLocks
use riposo.Cache
use riposo.Cache.Locks as CacheLocks
use riposo.Api.Txn.{Txn, User, Backends, new_txn, commit, rollback}
use riposo.Server.{
  AuthError, unauthenticated, auth_error, Wrapper, write_header, write, Event, store_call,
  perms_call, cache_call, header, body, on_event, serve_next, with_principals, authenticated,
  transactional,
}

-- No transaction that is done holds its mutex.
record AreReleased (txn : Txn) : Type 0 where
  store : IsReleased (λ (t : Store.Transaction). t.done) (λ t. t.b.locked) txn.store
  perms : IsReleased (λ (t : Permission.Transaction). t.done) (λ t. t.b.locked) txn.perms
  cache : IsReleased (λ (t : Cache.Transaction). t.done) (λ t. t.b.locked) txn.cache

commit-AreReleased : (txn : Txn) → AreReleased txn → AreReleased (commit txn).1
unfolding commit
commit-AreReleased txn h = record {
  store = λ e. (StoreLocks.commit-HasEnded txn.store h.store).1;
  perms = λ e. (PermsLocks.commit-HasEnded txn.perms h.perms).1;
  cache = λ e. (CacheLocks.commit-HasEnded txn.cache h.cache).1;
}

write_header-AreReleased :
    (code : ℕ) (w : Wrapper) → AreReleased w.txn → AreReleased (write_header code w).txn
unfolding write_header
write_header-AreReleased code w h =
    let P : Wrapper → Type 0 = λ w. AreReleased w.txn in
    either P w.wrote_header h (either P (ltb code 500) (commit-AreReleased w.txn h) h)

on_event-AreReleased :
    (e : Event) (w : Wrapper) → AreReleased w.txn → AreReleased (on_event e w).txn
unfolding on_event write
on_event-AreReleased (store_call call) w h = record {
  store = StoreLocks.step-IsReleased call w.txn.store h.store;
  perms = h.perms;
  cache = h.cache;
}
on_event-AreReleased (perms_call call) w h = record {
  store = h.store;
  perms = PermsLocks.step-IsReleased call w.txn.perms h.perms;
  cache = h.cache;
}
on_event-AreReleased (cache_call call) w h = record {
  store = h.store;
  perms = h.perms;
  cache = CacheLocks.step-IsReleased call w.txn.cache h.cache;
}
on_event-AreReleased (header code) w h = write_header-AreReleased code w h
on_event-AreReleased body w h = write_header-AreReleased 200 w h

serve_next-AreReleased :
    (events : List Event) (w : Wrapper) → AreReleased w.txn → AreReleased (serve_next events w).txn
unfolding serve_next
serve_next-AreReleased [] w h = h
serve_next-AreReleased (e ∷ events) w h =
    serve_next-AreReleased events (on_event e w) (on_event-AreReleased e w h)

with_principals-AreReleased :
    (next : Txn → List Event) (txn : Txn) (r : Result Permission.Error (List Text))
    → AreReleased txn
    → AreReleased (with_principals next txn r).txn
unfolding with_principals
with_principals-AreReleased next txn (err e) h = h
with_principals-AreReleased next txn (ok principals) h =
    serve_next-AreReleased _ _ (record { store = h.store; perms = h.perms; cache = h.cache })

authenticated-AreReleased :
    (next : Txn → List Event) (txn : Txn) (r : Result AuthError (Option User))
    → AreReleased txn
    → AreReleased (authenticated next txn r).txn
unfolding authenticated
authenticated-AreReleased next txn (err unauthenticated) h =
    with_principals-AreReleased next txn (get_user_principals txn.user.id txn.perms) h
authenticated-AreReleased next txn (err (auth_error e)) h = h
authenticated-AreReleased next txn (ok none) h =
    with_principals-AreReleased next txn (get_user_principals txn.user.id txn.perms) h
authenticated-AreReleased next txn (ok (some user)) h =
    with_principals-AreReleased next (record txn { user = user })
      (get_user_principals user.id txn.perms)
      (record { store = h.store; perms = h.perms; cache = h.cache })

new_txn-AreReleased : (cns : Backends) → AreReleased (new_txn cns)
unfolding new_txn Store.begin Permission.begin Cache.begin
new_txn-AreReleased cns = record {
  store = λ e. ground arith;
  perms = λ e. ground arith;
  cache = λ e. ground arith;
}

-- However a request is authenticated, and whatever the handlers do with its transaction and its
-- response, the mutexes of all three backends are free when it is over: the next request can begin.
pub transactional-unlocks :
    (authenticate : Txn → Result AuthError (Option User)) (next : Txn → List Event) (cns : Backends)
    → let after = (transactional authenticate next cns).0 in
      (after.store.locked ≡ false) × (after.perms.locked ≡ false) × (after.cache.locked ≡ false)
unfolding transactional rollback
transactional-unlocks authenticate next cns =
    let txn = new_txn cns in
    let w = authenticated next txn (authenticate txn) in
    let h = authenticated-AreReleased next txn (authenticate txn) (new_txn-AreReleased cns) in
    (
      (StoreLocks.rollback-HasEnded w.txn.store h.store).1,
      (PermsLocks.rollback-HasEnded w.txn.perms h.perms).1,
      (CacheLocks.rollback-HasEnded w.txn.cache h.cache).1,
    )
