-- ===== src/Api/Actions.antt =====
-- pkg/api/callbacks.go and pkg/api/actions.go: the callbacks of plugins around the methods of a
-- model. What a callback changes in its argument is returned. The pool that the slice of callbacks comes
-- from is left out.
pub mod Nesting
mod Tests
use riposo.Prelude.{
  ℕ, Option, none, some, List, [], ◌∷◌, ◌++◌, Text, ok, err, Effect, reads, pure, ◌>>=◌, ◌>>◌,
}
use riposo.Schema.{Object}
use riposo.Schema.Resources.{Resource}
use riposo.Permission.Aces.{get_permissions}
use riposo.Api.Errors.{Error}
use riposo.Api.Txn.{Txn, on_perms}
use riposo.Api.Model
use riposo.Api.Model.{Model, Fault}

-- CreateCallback and its like: the errors E, what `Before…` takes and what `After…` takes. `Before…` also
-- returns the `After…` of the instance, which knows what `Before…` kept in it.
pub record Callback (E S T : Type 0) : Type 0 where
  pub before : S → Effect Txn E (S × (T → Effect Txn E T))

-- The paths that were deleted are those that `AfterDeleteAll` may change.
pub record DeleteAllCallback : Type 0 where
  pub before :
      List Object → Effect Txn Error (List Object × (ℕ → List Text → Effect Txn Error (List Text)))

-- A nil callback is none.
pub record Callbacks : Type 0 where
  pub on_create : Text → Txn → Option (Callback Fault Resource Resource) × Txn
  pub on_update : Text → Txn → Option (Callback Error (Object × Resource) Resource) × Txn
  pub on_patch : Text → Txn → Option (Callback Error (Object × Resource) Resource) × Txn
  pub on_delete : Text → Txn → Option (Callback Error Object Object) × Txn
  pub on_delete_all : Text → Txn → Option DeleteAllCallback × Txn

unfoldable pub noop_callbacks : Callbacks
noop_callbacks = record {
  on_create = λ path txn. (none, txn);
  on_update = λ path txn. (none, txn);
  on_patch = λ path txn. (none, txn);
  on_delete = λ path txn. (none, txn);
  on_delete_all = λ path txn. (none, txn);
}

abbrev pub append_some : {C : Type 0} → List C → Option C → List C
append_some slice none = slice
append_some slice (some cm) = slice ++ cm ∷ []

-- The loop of `prepareCallbacks`.
unfoldable pub prepare_each :
    {C : Type 0} → (Callbacks → Txn → Option C × Txn) → List C → List Callbacks → Txn → List C × Txn
prepare_each fn slice [] txn = (slice, txn)
prepare_each fn slice (cb ∷ cbs) txn =
    let (cm, txn') = fn cb txn in prepare_each fn (append_some slice cm) cbs txn'

unfoldable pub prepare_callbacks :
    {C E : Type 0} → List Callbacks → (Callbacks → Txn → Option C × Txn) → Effect Txn E (List C)
prepare_callbacks cbs fn txn = let (slice, txn') = prepare_each fn [] cbs txn in (ok slice, txn')

module _ {E T : Type 0} where
  -- The loop after the action, which goes from the last callback to the first.
  unfoldable pub run_after : List (T → Effect Txn E T) → T → Effect Txn E T
  run_after [] t = pure t
  run_after (after ∷ afters) t = do t' ← run_after afters t; after t'

module _ {E S T : Type 0} where
  -- The loop before the action.
  unfoldable pub run_before :
      List (Callback E S T) → S → Effect Txn E (S × List (T → Effect Txn E T))
  run_before [] s = pure (s, [])
  run_before (c ∷ cs) s =
      c.before s >>= λ first. run_before cs first.0 >>= λ rest. pure (rest.0, first.1 ∷ rest.1)

  -- The action and what follows it.
  unfoldable pub act_after : (S → Effect Txn E T) → S × List (T → Effect Txn E T) → Effect Txn E T
  act_after act before = act before.0 >>= run_after before.1

  -- The body that the actions share.
  unfoldable pub around : List (Callback E S T) → (S → Effect Txn E T) → S → Effect Txn E T
  around cs act s = run_before cs s >>= act_after act

-- The objects, the epoch and the paths of a bulk deletion.
pub record Deletion : Type 0 where
  pub objs : List Object
  pub mod_time : ℕ
  pub deleted : List Text

abbrev pub as_callback : DeleteAllCallback → Callback Error (List Object) Deletion
as_callback c = record {
  before = λ objs. c.before objs >>= λ first. pure (
    first.0,
    λ d. first.1 d.mod_time d.deleted >>= λ deleted. pure (record d { deleted = deleted }),
  );
}

abbrev pub optional_callback :
    Option DeleteAllCallback × Txn → Option (Callback Error (List Object) Deletion) × Txn
optional_callback (none, txn) = (none, txn)
optional_callback (some c, txn) = (some (as_callback c), txn)

-- The interface Actions. `DeleteAll` also returns the objects as the callbacks left them.
pub record Actions : Type 0 where
  pub get : Text → Effect Txn Error Resource
  pub create : Text → Resource → Effect Txn Fault Resource
  pub update : Text → Object → Resource → Effect Txn Error Resource
  pub patch : Text → Object → Resource → Effect Txn Error Resource
  pub delete : Text → Object → Effect Txn Error Object
  pub delete_all : Text → List Object → Effect Txn Error (ℕ × List Object)

-- The resource in the response to an update or a patch.
unfoldable pub with_permissions : Text → Effect Txn Error Object → Effect Txn Error Resource
with_permissions path m = do
  exst ← m
  ps ← on_perms (reads (get_permissions path))
  pure (record { object = exst; permissions = some ps })

module _ (mod' : Model) (cbs : List Callbacks) where
  unfoldable pub create : Text → Resource → Effect Txn Fault Resource
  create path payload = do
    callbacks ← prepare_callbacks cbs (λ cb. cb.on_create path)
    around callbacks (mod'.create path) payload

  unfoldable pub update : Text → Object → Resource → Effect Txn Error Resource
  update path exst payload = do
    callbacks ← prepare_callbacks cbs (λ cb. cb.on_update path)
    around callbacks (λ s. with_permissions path (mod'.update path s.0 s.1)) (exst, payload)

  unfoldable pub patch : Text → Object → Resource → Effect Txn Error Resource
  patch path exst payload = do
    callbacks ← prepare_callbacks cbs (λ cb. cb.on_patch path)
    around callbacks (λ s. with_permissions path (mod'.patch path s.0 s.1)) (exst, payload)

  unfoldable pub delete : Text → Object → Effect Txn Error Object
  delete path exst = do
    callbacks ← prepare_callbacks cbs (λ cb. cb.on_delete path)
    around callbacks (mod'.delete path) exst

  unfoldable pub deletion : Text → List Object → Effect Txn Error Deletion
  deletion path objs = do
    (mod_time, deleted) ← mod'.delete_all path objs
    pure (record { objs = objs; mod_time = mod_time; deleted = deleted })

  unfoldable pub delete_all : Text → List Object → Effect Txn Error (ℕ × List Object)
  delete_all path objs = do
    callbacks ← prepare_callbacks cbs (λ cb txn. optional_callback (cb.on_delete_all path txn))
    d ← around callbacks (deletion path) objs
    pure (d.mod_time, d.objs)

  unfoldable pub new_actions : Actions
  new_actions = record {
    get = mod'.get;
    create = create;
    update = update;
    patch = patch;
    delete = delete;
    delete_all = delete_all;
  }
