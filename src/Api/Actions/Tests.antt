-- ===== src/Api/Actions/Tests.antt =====
-- pkg/api/actions.go: instances of the theorems.
use riposo.Prelude.{◌≡◌, false, ok, none, some, List, [], ◌∷◌, bytes, Text, pure, continue, raise}
use riposo.Schema.{Object}
use riposo.Schema.Resources.{Resource}
use riposo.Schema.Patch.{no_members}
use riposo.Storage.Backend
use riposo.Permission
use riposo.Cache
use riposo.Api.Errors.{forbidden}
use riposo.Api.Txn.{Txn, new_txn}
use riposo.Api.Model.{Model, default_model}
use riposo.Api.Actions.{
  Callbacks, with_permissions, create, update, patch, delete, deletion, delete_all,
  optional_callback, noop_callbacks,
}
use riposo.Api.Actions.Nesting.{given, nest, actions-nest}

abbrev plain : Object
plain = record { id = bytes "foo"; mod_time = 3; deleted = false; extra = bytes "{}" }

abbrev payload : Resource
payload = record { object = plain; permissions = none }

abbrev guarded : Callbacks
guarded = record noop_callbacks {
  on_delete =
      λ path txn. (some (record { before = λ obj. pure (obj, λ deleted. raise forbidden) }), txn);
}

abbrev txn : Txn
txn = new_txn (record { store = Backend.new; perms = Permission.new; cache = Cache.new })

abbrev model : Model
model =
    default_model (record { now = 9; next_id = bytes "x" })
      (record { decode = λ t. ok no_members; encode = λ o. bytes "{}" })

abbrev cbs : List Callbacks
cbs = noop_callbacks ∷ guarded ∷ guarded ∷ []

abbrev path : Text
path = bytes "/buckets/foo"

actions-nest_example :
    (let (cs, txn') = given (λ cb. cb.on_create path) cbs txn in
      create model cbs path payload txn ≡ nest cs (model.create path) payload txn')
    × (let (cs, txn') = given (λ cb. cb.on_update path) cbs txn in
        update model cbs path plain payload txn
        ≡ nest cs (λ s. with_permissions path (model.update path s.0 s.1)) (plain, payload) txn')
    × (let (cs, txn') = given (λ cb. cb.on_patch path) cbs txn in
        patch model cbs path plain payload txn
        ≡ nest cs (λ s. with_permissions path (model.patch path s.0 s.1)) (plain, payload) txn')
    × (let (cs, txn') = given (λ cb. cb.on_delete path) cbs txn in
        delete model cbs path plain txn ≡ nest cs (model.delete path) plain txn')
    × (let (cs, txn') = given (λ cb txn. optional_callback (cb.on_delete_all path txn)) cbs txn in
        delete_all model cbs path (plain ∷ []) txn
        ≡ continue
            (λ d. pure (d.mod_time, d.objs))
            (nest cs (deletion model cbs path) (plain ∷ []) txn'))
actions-nest_example = actions-nest model cbs path plain payload (plain ∷ []) txn
