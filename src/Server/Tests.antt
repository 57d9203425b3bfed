-- ===== src/Server/Tests.antt =====
-- internal/server/middleware.go: instances of the theorems.
use riposo.Prelude.{
  ◌≡◌, refl, arith, false, Option, some, List, [], ◌∷◌, ◌++◌, bytes, Result, ok, err,
}
use riposo.Schema.{Object}
use riposo.Storage.Backend
use riposo.Storage.Txn.Calls as StoreCalls
use riposo.Permission
use riposo.Permission.Calls as PermsCalls
use riposo.Cache
use riposo.Cache.Calls as CacheCalls
use riposo.Api.Txn.{Txn, User, Backends, new_txn, backends}
use riposo.Server.{
  AuthError, unauthenticated, Event, store_call, perms_call, cache_call, transactional,
}
use riposo.Server.Requests.{transactional-unlocks}
use riposo.Server.Outcomes.{AreRestored, IsServed, transactional-restores, transactional-commits}
use riposo.Server.Responses.{ran, respond, as_user}
use riposo.Server.Backoff.{Settings}

abbrev cns : Backends
cns = record { store = Backend.new; perms = Permission.new; cache = Cache.new }

abbrev alice : User
alice = record { id = bytes "account:alice"; principals = [] }

abbrev authenticate : Txn → Result AuthError (Option User)
authenticate txn = ok (some alice)

abbrev plain : Object
plain = record { id = bytes "foo"; mod_time = 3; deleted = false; extra = bytes "{}" }

abbrev calls : List Event
calls =
    store_call (StoreCalls.create_call (bytes "/buckets/*") plain 9 [])
    ∷ perms_call (PermsCalls.create_call (bytes "/buckets/foo") [])
    ∷ cache_call (CacheCalls.set_call (bytes "token") [] 60)
    ∷ []

transactional-unlocks_example :
    let after = (transactional authenticate (λ txn. calls ++ respond 201) cns).0 in
    (after.store.locked ≡ false) × (after.perms.locked ≡ false) × (after.cache.locked ≡ false)
transactional-unlocks_example = transactional-unlocks authenticate (λ txn. calls ++ respond 201) cns

transactional-restores_example :
    AreRestored
      (bytes "/buckets")
      cns
      (transactional authenticate (λ txn. calls ++ respond 500) cns).0
transactional-restores_example =
    transactional-restores authenticate (λ txn. calls) (λ txn. 500) cns (bytes "/buckets")
      (λ txn. tt) (λ txn. ground arith) (λ txn. (tt, tt, tt))

abbrev anonymous : Txn → Result AuthError (Option User)
anonymous txn = err unauthenticated

transactional-commits_example :
    (user : User) × IsServed user (anonymous (new_txn cns)) cns
    × (let txn = as_user user cns in
        let kept = backends (ran calls txn) in
        let (after, sent) = transactional anonymous (λ txn. calls ++ respond 404) cns in
        (sent ≡ some 404)
        × (after.store.tree ≡ kept.store.tree)
        × (after.store.dead ≡ kept.store.dead)
        × (after.perms.users ≡ kept.perms.users)
        × (after.perms.perms ≡ kept.perms.perms)
        × (after.cache.keys ≡ kept.cache.keys))
transactional-commits_example =
    transactional-commits anonymous (λ txn. calls) (λ txn. 404) cns refl (λ txn. tt)
      (λ txn. ground arith)

abbrev settings : Settings
settings = record { backoff_val = bytes "60"; backoff_pct = 30; retry_after_val = [] }
