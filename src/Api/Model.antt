-- ===== src/Api/Model.antt =====
-- pkg/api/model.go: the models, which change objects and permissions together, and the default one,
-- over a transaction of each backend. An object or a payload that a method changes is returned.
pub mod Resources
pub mod Deletes
mod Tests
use riposo.Prelude.{
  ℕ, Option, none, some, List, [], ◌∷◌, map, if◌then◌else◌, Text, bytes, text_eq, Result, ok, err,
  Effect, gets, pure, reads, ◌>>=◌, ◌>>◌, map_err,
}
use riposo.Path.{with_object_id}
use riposo.Schema
use riposo.Schema.{Object}
use riposo.Schema.Patch.{Codec, patch}
use riposo.Schema.Resources.{Resource, add_principal}
use riposo.Storage.Txn as Store
use riposo.Permission.{everyone, or_empty}
use riposo.Permission.Aces.{
  PermissionSet, get_permissions, create_permissions, merge_permissions, delete_permissions,
}
use riposo.Api.Errors.{Error, other_error}
use riposo.Api.Txn.{Txn, on_store, on_perms}

-- An error of `Create`, and the payload as the call left it.
pub record Fault : Type 0 where
  pub error : Error
  pub payload : Resource

pub record Model : Type 0 where
  pub get : Text → Effect Txn Error Resource
  pub create : Text → Resource → Effect Txn Fault Resource
  -- the path, the existing object and the payload; the result is the object afterwards
  pub update : Text → Object → Resource → Effect Txn Error Object
  pub patch : Text → Object → Resource → Effect Txn Error Object
  pub delete : Text → Object → Effect Txn Error Object
  pub delete_all : Text → List Object → Effect Txn Error (ℕ × List Text)

-- The permissions with the current user as writer.
unfoldable pub with_writer : Text → PermissionSet → PermissionSet
with_writer id p = if text_eq id everyone then p else add_principal (bytes "write") id p

-- The errors of a method, with the payload as it is then.
abbrev pub blame : {A : Type 0} → Resource → Effect Txn Error A → Effect Txn Fault A
blame payload m txn =
    let (r, txn') = m txn in (map_err (λ e. record { error = e; payload = payload }) r, txn')

-- What a method reads of the clock, as an epoch, and what the helpers' `NextID` returns.
pub record Env : Type 0 where
  pub now : ℕ
  pub next_id : Text

module _ (env : Env) where
  unfoldable pub get : Text → Effect Txn Error Resource
  get path = do
    obj ← on_store (reads (Store.get path))
    pms ← on_perms (reads (get_permissions path))
    pure (record { object = obj; permissions = some pms })

  -- The rest of `Create` after the storage has created the object.
  unfoldable pub create_stored : Text → Option PermissionSet → Object → Effect Txn Fault Resource
  create_stored path permissions obj = do
    id ← gets (λ txn. txn.user.id)
    let ps = with_writer id (or_empty permissions)
    let payload : Resource = record { object = obj; permissions = some ps }
    blame payload (on_perms (create_permissions (with_object_id path obj.id) ps))
    pure payload

  unfoldable pub create : Text → Resource → Effect Txn Fault Resource
  create path payload = do
    obj ← blame payload (on_store (Store.create path payload.object env.now env.next_id))
    create_stored path payload.permissions obj

  -- The end of the function `update`: the permissions, where they are not nil.
  unfoldable pub update_permissions : Text → Option PermissionSet → Effect Txn Error (Unit {0})
  update_permissions path none = pure tt
  update_permissions path (some ps) = do
    id ← gets (λ txn. txn.user.id)
    on_perms (merge_permissions path (with_writer id ps))

  -- The function `update`.
  unfoldable pub update_stored : Text → Object → Option PermissionSet → Effect Txn Error Object
  update_stored path exst ps = do
    obj ← on_store (Store.update path exst env.now)
    update_permissions path ps
    pure obj

  unfoldable pub update : Text → Object → Resource → Effect Txn Error Object
  update path exst payload =
      update_stored path (Schema.update exst payload.object) payload.permissions

  unfoldable pub patch_object : Codec → Text → Object → Resource → Effect Txn Error Object
  patch_object json path exst payload = do
    patched ← reads (λ txn. map_err other_error (patch json exst payload.object))
    update_stored path patched payload.permissions

  unfoldable pub delete : Text → Effect Txn Error Object
  delete path = do
    on_perms (delete_permissions (path ∷ []))
    on_store (Store.delete_object path env.now)

  unfoldable pub delete_all : Text → List Object → Effect Txn Error (ℕ × List Text)
  delete_all path objs = do
    let paths = map (λ obj. with_object_id path obj.id) objs
    on_perms (delete_permissions paths)
    on_store (Store.delete_all paths env.now)

  unfoldable pub default_model : Codec → Model
  default_model json = record {
    get = get;
    create = create;
    update = update;
    patch = patch_object json;
    delete = λ path exst. delete path;
    delete_all = delete_all;
  }
