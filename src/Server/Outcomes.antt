-- ===== src/Server/Outcomes.antt =====
-- internal/server/middleware.go: what a request leaves in the backends, by the status of its response.
use riposo.Prelude.{
  ℕ, ◌≡◌, ◌≤◌, ◌<◌, refl, ◌∙◌, arith, Bool, true, false, Option, none, some, List, [], ◌++◌, Text,
  Result, ok, err, lookup, SameMap, inl, inr,
}
use riposo.Storage.Backend.Unreached.{SameAt}
use riposo.Storage.Txn as Store
use riposo.Storage.Txn.Calls as StoreCalls
use riposo.Storage.Txn.Calls.{Spares}
use riposo.Storage.Txn.Locks as StoreLocks
use riposo.Storage.Txn.Rollback.{rollback-begin_at}
use riposo.Permission
use riposo.Permission.{everyone, get_user_principals}
use riposo.Permission.Aces.{set_at}
use riposo.Permission.Calls as PermsCalls
use riposo.Permission.Locks as PermsLocks
use riposo.Permission.Rollback.{rollback-begin_principals}
use riposo.Permission.Holds.{holds}
use riposo.Cache
use riposo.Cache.Calls as CacheCalls
use riposo.Cache.Locks as CacheLocks
use riposo.Cache.Rollback.{rollback-begin}
use riposo.Api.Txn.{Txn, User, Backends, new_txn, commit, rollback, backends}
use riposo.Server.{
  AuthError, unauthenticated, auth_error, Event, serve_next, with_principals, authenticated,
  transactional,
}
use riposo.Server.Responses.{
  store_calls, perms_calls, cache_calls, AreCalls, ran, serve_next_calls, respond, unwritten,
  failed, succeeded, as_user, authenticated-Proceeds,
}

-- Whether the backends are as they were: for the storage in the namespace k, and for the permissions as
-- far as it can be asked who holds them.
pub record AreRestored (k : Text) (before after : Backends) : Type 0 where
  pub store : SameAt k after.store before.store
  pub users :
      (u v : Text) → holds v (lookup u after.perms.users) ≡ holds v (lookup u before.perms.users)
  pub perms :
      (path perm v : Text)
      → holds v (set_at path perm after.perms.perms) ≡ holds v (set_at path perm before.perms.perms)
  pub cache : SameMap after.cache.keys before.cache.keys

-- No call flushes, and no deletion reaches the namespace k.
abbrev pub AreUndoable : Text → List Event → Type 0
AreUndoable k events =
    Spares k (store_calls events)
    × PermsCalls.NoFlush (perms_calls events)
    × CacheCalls.NoFlush (cache_calls events)

rolled_back :
    (k : Text) (user : User) (cns : Backends) (events : List Event)
    → AreUndoable k events
    → AreRestored k cns (backends (rollback (ran events (as_user user cns))).1)
unfolding rollback new_txn
rolled_back k user cns events (spared, kept, fixed) =
    let (_, stored, _) = rollback-begin_at k cns.store (store_calls events) spared in
    let (_, _, users, perms) = rollback-begin_principals cns.perms (perms_calls events) kept in
    let (_, cached, _) = rollback-begin cns.cache (cache_calls events) fixed in
    record { store = stored; users = users; perms = perms; cache = cached }

-- A request whose handlers make their calls and then respond with a status of 500 or more leaves the
-- backends as they were, and so does one that does not reach its handlers: all keys of the cache, all
-- holders of permissions, and all objects of any namespace that no deletion reaches.
pub transactional-restores :
    (authenticate : Txn → Result AuthError (Option User)) (calls : Txn → List Event)
    (code : Txn → ℕ) (cns : Backends) (k : Text)
    → ((txn : Txn) → AreCalls (calls txn))
    → ((txn : Txn) → 500 ≤ code txn)
    → ((txn : Txn) → AreUndoable k (calls txn))
    → AreRestored k cns (transactional authenticate (λ txn. calls txn ++ respond (code txn)) cns).0
unfolding transactional new_txn StoreCalls.run PermsCalls.run CacheCalls.run
transactional-restores authenticate calls code cns k only_calls fails undoable =
    let next : Txn → List Event = λ txn. calls txn ++ respond (code txn) in
    elim (authenticated-Proceeds next cns (authenticate (new_txn cns))) [
      | inl (user, e) ↦
          let txn = as_user user cns in
          let all =
            e
            ∙ serve_next_calls (calls txn) (respond (code txn)) (unwritten txn) (only_calls txn)
            ∙ failed (code txn) (ran (calls txn) txn) (fails txn) in
          rw all (rolled_back k user cns (calls txn) (undoable txn))
      | inr (user, code', e) ↦ rw e (rolled_back k user cns [] (tt, tt, tt))
    ]

-- A rollback after a commit of an open transaction changes nothing.
store_committed :
    (t : Store.Transaction)
    → t.done ≡ false
    → ((Store.commit t).0 ≡ ok tt)
      × ((Store.rollback (Store.commit t).1).1.b.tree ≡ t.b.tree)
      × ((Store.rollback (Store.commit t).1).1.b.dead ≡ t.b.dead)
unfolding Store.commit Store.rollback Store.finish
store_committed t e = simp e (refl, refl, refl)

perms_committed :
    (t : Permission.Transaction)
    → t.done ≡ false
    → ((Permission.commit t).0 ≡ ok tt)
      × ((Permission.rollback (Permission.commit t).1).1.b.users ≡ t.b.users)
      × ((Permission.rollback (Permission.commit t).1).1.b.perms ≡ t.b.perms)
unfolding Permission.commit Permission.rollback Permission.finish
perms_committed t e = simp e (refl, refl, refl)

cache_committed :
    (t : Cache.Transaction)
    → t.done ≡ false
    → ((Cache.commit t).0 ≡ ok tt) × ((Cache.rollback (Cache.commit t).1).1.b.keys ≡ t.b.keys)
unfolding Cache.commit Cache.rollback Cache.finish
cache_committed t e = simp e (refl, refl)

-- Whether a request goes on after its authentication: it does for users, for requests without credentials,
-- and for those whose credentials do not authenticate anyone, but not after any other error.
abbrev pub goes_on : Result AuthError (Option User) → Bool
goes_on (err (auth_error e)) = false
goes_on _ = true

-- The ID of the user that a request is served as.
abbrev pub user_id : Result AuthError (Option User) → Text
user_id (ok (some user)) = user.id
user_id _ = everyone

-- The user with the principals that the permissions give.
abbrev pub IsServed : User → Result AuthError (Option User) → Backends → Type 0
IsServed user r cns =
    (user.id ≡ user_id r) × (get_user_principals user.id (new_txn cns).perms ≡ ok user.principals)

proceeds :
    (next : Txn → List Event) (cns : Backends) (r : Result AuthError (Option User))
    → goes_on r ≡ true
    → (user : User) × IsServed user r cns
      × (authenticated next (new_txn cns) r
          ≡ serve_next (next (as_user user cns)) (unwritten (as_user user cns)))
unfolding authenticated with_principals get_user_principals new_txn Permission.begin
proceeds next cns (ok (some user)) h = (_, (refl, refl), refl)
proceeds next cns (ok none) h = (_, (refl, refl), refl)
proceeds next cns (err unauthenticated) h = (_, (refl, refl), refl)
proceeds next cns (err (auth_error e)) h = absurd (ground arith)

-- A request whose authentication ends without an error, or with the error that it does not authenticate
-- anyone, reaches its handlers, as the user that was authenticated or else as system.Everyone, with the
-- user's principals. Where they make their calls and then respond with a status below 500, errors of the
-- client included, the backends keep everything that the calls did, and the status is sent.
pub transactional-commits :
    (authenticate : Txn → Result AuthError (Option User)) (calls : Txn → List Event)
    (code : Txn → ℕ) (cns : Backends)
    → goes_on (authenticate (new_txn cns)) ≡ true
    → ((txn : Txn) → AreCalls (calls txn))
    → ((txn : Txn) → code txn < 500)
    → (user : User) × IsServed user (authenticate (new_txn cns)) cns
      × (let txn = as_user user cns in
          let kept = backends (ran (calls txn) txn) in
          let (after, sent) =
            transactional authenticate (λ txn. calls txn ++ respond (code txn)) cns in
          (sent ≡ some (code txn))
          × (after.store.tree ≡ kept.store.tree)
          × (after.store.dead ≡ kept.store.dead)
          × (after.perms.users ≡ kept.perms.users)
          × (after.perms.perms ≡ kept.perms.perms)
          × (after.cache.keys ≡ kept.cache.keys))
unfolding transactional rollback commit new_txn Store.begin Permission.begin Cache.begin
transactional-commits authenticate calls code cns reaches only_calls low =
    let (user, served, e) =
      proceeds (λ txn. calls txn ++ respond (code txn)) cns (authenticate (new_txn cns)) reaches in
    let txn = as_user user cns in
    let all =
      e
      ∙ serve_next_calls (calls txn) (respond (code txn)) (unwritten txn) (only_calls txn)
      ∙ succeeded (code txn) (ran (calls txn) txn) (low txn) in
    let (stored, tree, dead) =
      store_committed (StoreCalls.run (store_calls (calls txn)) txn.store)
        (StoreLocks.run-open (store_calls (calls txn)) txn.store refl) in
    let (allowed, users, perms) =
      perms_committed (PermsCalls.run (perms_calls (calls txn)) txn.perms)
        (PermsLocks.run-open (perms_calls (calls txn)) txn.perms refl) in
    let (cached, keys) =
      cache_committed (CacheCalls.run (cache_calls (calls txn)) txn.cache)
        (CacheLocks.run-open (cache_calls (calls txn)) txn.cache refl) in
    (user, served, rw all (rw (stored, allowed, cached) refl, tree, dead, users, perms, keys))
