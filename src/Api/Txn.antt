-- ===== src/Api/Txn.antt =====
-- pkg/api/txn.go: the transaction of a request, which holds one of each backend, and its user
-- (pkg/api/api.go). `Data`, which only plugins use, and `Helpers`, whose results are arguments of the
-- methods that ask for them, are left out.
use riposo.Prelude.{List, [], ◌∷◌, ◌++◌, Text, Result, ok, err, Effect, within}
use riposo.Storage.Txn as Store
use riposo.Storage.Backend
use riposo.Permission
use riposo.Permission.{everyone}
use riposo.Cache
use riposo.Api.Errors.{Error, store_error, perms_error, cache_error}

pub record User : Type 0 where
  pub id : Text
  pub principals : List Text

pub record Txn : Type 0 where
  pub store : Store.Transaction
  pub perms : Permission.Transaction
  pub cache : Cache.Transaction
  pub user : User

-- The backends of a conn.Set.
pub record Backends : Type 0 where
  pub store : Backend.Backend
  pub perms : Permission.Backend
  pub cache : Cache.Backend

-- `Begin` of a backend in memory cannot fail.
unfoldable pub new_txn : Backends → Txn
new_txn cns = record {
  store = Store.begin cns.store;
  perms = Permission.begin cns.perms;
  cache = Cache.begin cns.cache;
  user = record { id = everyone; principals = [] };
}

-- The backends that a transaction leaves behind.
abbrev pub backends : Txn → Backends
backends txn = record { store = txn.store.b; perms = txn.perms.b; cache = txn.cache.b }

abbrev pub errors_of : {E : Type 0} → (E → Error) → Result E (Unit {0}) → List Error
errors_of f (ok u) = []
errors_of f (err e) = f e ∷ []

-- `multierr.Combine` of the errors of three calls, all of which are made.
abbrev pub combine :
    Txn
    → Result Store.Error (Unit {0}) × Store.Transaction
    → Result Permission.Error (Unit {0}) × Permission.Transaction
    → Result Cache.Error (Unit {0}) × Cache.Transaction
    → List Error × Txn
combine txn (r, store) (s, perms) (u, cache) = (
  errors_of store_error r ++ errors_of perms_error s ++ errors_of cache_error u,
  record txn { store = store; perms = perms; cache = cache },
)

unfoldable pub commit : Txn → List Error × Txn
commit txn =
    combine txn (Store.commit txn.store) (Permission.commit txn.perms) (Cache.commit txn.cache)

unfoldable pub rollback : Txn → List Error × Txn
rollback txn =
    combine txn (Store.rollback txn.store) (Permission.rollback txn.perms)
      (Cache.rollback txn.cache)

-- Methods of one of the transactions.
abbrev pub on_store : {A : Type 0} → Effect Store.Transaction Store.Error A → Effect Txn Error A
on_store = within (λ txn. txn.store) (λ store txn. record txn { store = store }) store_error

abbrev pub on_perms :
    {A : Type 0} → Effect Permission.Transaction Permission.Error A → Effect Txn Error A
on_perms = within (λ txn. txn.perms) (λ perms txn. record txn { perms = perms }) perms_error

abbrev pub on_cache : {A : Type 0} → Effect Cache.Transaction Cache.Error A → Effect Txn Error A
on_cache = within (λ txn. txn.cache) (λ cache txn. record txn { cache = cache }) cache_error
