-- ===== src/Api/Controller/Handlers.antt =====
-- pkg/api/ctrl.go: the handlers of single resources.
use riposo.Prelude.{
  Bool, true, false, not, ◌&&◌, Option, none, some, List, [], ◌∷◌, ◌++◌, if◌then◌else◌, is_empty,
  is_some, Text, bytes, text_eq, Result, ok, err, Effect, reads, pure, raise_if, ◌>>=◌, ◌>>◌,
}
use riposo.Path.{parent, object_id, resource_name, with_object_id}
use riposo.Identity.{is_valid}
use riposo.Schema.{Object}
use riposo.Schema.Resources.{Resource}
use riposo.Storage.Txn as Store
use riposo.Permission.Aces.{Ace}
use riposo.Api.Authz.{Authz}
use riposo.Api.Errors.{Error, invalid_path, invalid_body, invalid_resource, store_error}
use riposo.Api.Txn.{Txn}
use riposo.Api.Model.{Fault}
use riposo.Api.Actions.{Actions}
use riposo.Api.Conditions.{Http}
use riposo.Api.Controller.{
  Context, Payload, Request, Response, resource, in_txn, entries, is_forbidden, check_permission,
  check_parent, cache_headers, render_conditional,
}

-- &schema.Object{} and &schema.Object{ID: objID}
abbrev pub blank : Text → Object
blank id = record { id = id; mod_time = 0; deleted = false; extra = [] }

-- if err := …; errors.Is(err, storage.ErrNotFound) { return schema.InvalidResource(path) }
unfoldable pub or_invalid : {A : Type 0} → Text → Result Error A → Result Error A
or_invalid path (ok a) = ok a
or_invalid path (err (store_error Store.not_found)) = err (invalid_resource path)
or_invalid path (err e) = err e

abbrev pub catch_missing : {A : Type 0} → Text → Effect Txn Error A → Effect Txn Error A
catch_missing path m txn = let (r, txn') = m txn in (or_invalid path r, txn')

-- The object of a payload whose ID is to be that of the path.
unfoldable pub match_id : Text → Option Object → Result Error Object
match_id obj_id none = ok (blank obj_id)
match_id obj_id (some obj) =
    if is_empty obj.id
    then ok (record obj { id = obj_id })
    else if text_eq obj.id obj_id
    then ok obj
    else err (invalid_body (bytes "data.id") (bytes "Does not match requested object"))

-- What `Get` of the storage finds, where an object that does not exist is no error.
unfoldable pub found : Result Store.Error Object → Result Error (Option Object)
found (ok obj) = ok (some obj)
found (err Store.not_found) = ok none
found (err e) = err (store_error e)

abbrev pub fetched : Result Store.Error Object → Result Error Object
fetched (ok obj) = ok obj
fetched (err e) = err (store_error e)

abbrev pub invalid_id : Error
invalid_id = invalid_path (bytes "Invalid object id")

-- errors.Is(err, storage.ErrObjectExists)
unfoldable pub is_object_exists : Error → Bool
is_object_exists (store_error Store.object_exists) = true
is_object_exists e = false

-- Which answer of `Create` makes the handler get the object instead.
unfoldable pub is_taken : Fault → Bool
is_taken fault = is_object_exists fault.error && not (is_empty fault.payload.object.id)

abbrev pub create_entries : Text → List Ace
create_entries path =
    entries (bytes "write" ∷ []) (parent path)
      (record { perm = resource_name path ++ bytes ":create"; path = parent path } ∷ [])

abbrev pub or_blank : Option Object → Object
or_blank none = blank []
or_blank (some obj) = obj

-- payload.Data == nil && payload.Permissions == nil
abbrev pub is_void : Payload → Bool
is_void payload = not (is_some payload.object) && not (is_some payload.permissions)

module _ (act : Actions) (authz : Authz) (http : Http) where
  unfoldable pub do_get : Request → Text → Effect Context Error Response
  do_get req path = do
    raise_if (not (is_valid (object_id path))) invalid_id
    reads (λ c. check_permission authz (bytes "read" ∷ bytes "write" ∷ []) path c.txn)
    reads (λ c. check_parent path c.txn)
    exst ← in_txn (catch_missing path (act.get path))
    render_conditional http req.head exst.object.mod_time (some exst.object)
    pure (resource 0 exst)

  unfoldable pub get : Request → Effect Context Error Response
  get req = do_get req req.path

  -- What `createOrGet` does with the answer of `Create`.
  unfoldable pub created_or :
      Request → Text → Result Fault Resource × Context → Result Error Response × Context
  created_or req path (ok payload, c) =
      (cache_headers http req.head payload.object.mod_time >> pure (resource 201 payload)) c
  created_or req path (err fault, c) =
      if is_taken fault
      then do_get req (with_object_id path fault.payload.object.id) c
      else (err fault.error, c)

  unfoldable pub create_in : Request → Text → Resource → Effect Context Error Response
  create_in req path payload c =
      let (r, txn) = act.create path payload c.txn in
      created_or req path (r, record c { txn = txn })

  -- The rest of `createOrGet`, for a user who may create.
  unfoldable pub create_allowed : Request → Text → Resource → Effect Context Error Response
  create_allowed req path payload = do
    reads (λ c. check_parent path c.txn)
    create_in req path payload

  unfoldable pub create_or_get : Request → Text → Resource → Effect Context Error Response
  create_or_get req path payload = do
    reads (λ c. is_forbidden authz (create_entries path) c.txn)
    create_allowed req path payload

  -- The rest of `Create`, with the payload.
  unfoldable pub create_parsed : Request → Payload → Effect Context Error Response
  create_parsed req payload = do
    let obj = or_blank payload.object
    raise_if (not (is_empty obj.id) && not (is_valid obj.id)) invalid_id
    create_or_get req req.path (record { object = obj; permissions = payload.permissions })

  unfoldable pub create : Request → Effect Context Error Response
  create req = do payload ← reads (λ c. req.payload); create_parsed req payload

  -- The rest of `Update` of an object that exists, for a user who may write.
  unfoldable pub update_allowed : Request → Resource → Object → Effect Context Error Response
  update_allowed req payload exst = do
    reads (λ c. check_parent req.path c.txn)
    render_conditional http req.head exst.mod_time (some exst)
    res ← in_txn (act.update req.path exst payload)
    cache_headers http req.head res.object.mod_time
    pure (resource 0 res)

  unfoldable pub update_existing :
      Request → Resource → Option Object → Effect Context Error Response
  update_existing req payload none = create_or_get req (with_object_id req.path (bytes "*")) payload
  update_existing req payload (some exst) = do
    reads (λ c. check_permission authz (bytes "write" ∷ []) req.path c.txn)
    update_allowed req payload exst

  -- The rest of `Update`, from the existing object on and from the payload on.
  unfoldable pub update_named : Request → Resource → Effect Context Error Response
  update_named req payload = do
    exst ← reads (λ c. found (Store.get req.path c.txn.store))
    update_existing req payload exst

  unfoldable pub update_parsed : Request → Payload → Effect Context Error Response
  update_parsed req payload = do
    obj ← reads (λ c. match_id (object_id req.path) payload.object)
    update_named req (record { object = obj; permissions = payload.permissions })

  unfoldable pub update : Request → Effect Context Error Response
  update req = do
    raise_if (not (is_valid (object_id req.path))) invalid_id
    payload ← reads (λ c. req.payload)
    update_parsed req payload

  -- The rest of `Patch`, for a user who may write, and before that from the payload on.
  unfoldable pub patch_allowed : Request → Resource → Effect Context Error Response
  patch_allowed req payload = do
    reads (λ c. check_parent req.path c.txn)
    exst ← reads (λ c. or_invalid req.path (fetched (Store.get req.path c.txn.store)))
    render_conditional http req.head exst.mod_time (some exst)
    res ← in_txn (act.patch req.path exst payload)
    cache_headers http req.head res.object.mod_time
    pure (resource 0 res)

  unfoldable pub patch_named : Request → Resource → Effect Context Error Response
  patch_named req payload = do
    reads (λ c. check_permission authz (bytes "write" ∷ []) req.path c.txn)
    patch_allowed req payload

  unfoldable pub patch_parsed : Request → Payload → Effect Context Error Response
  patch_parsed req payload = do
    raise_if (is_void payload)
        (invalid_body [] (bytes "Provide at least one of data or permissions"))
    obj ← reads (λ c. match_id (object_id req.path) payload.object)
    patch_named req (record { object = obj; permissions = payload.permissions })

  unfoldable pub patch : Request → Effect Context Error Response
  patch req = do
    raise_if (not (is_valid (object_id req.path))) invalid_id
    payload ← reads (λ c. req.payload)
    patch_parsed req payload

  -- The rest of `Delete`, for a user who may write.
  unfoldable pub delete_allowed : Request → Effect Context Error Response
  delete_allowed req = do
    reads (λ c. check_parent req.path c.txn)
    exst ← reads (λ c. or_invalid req.path (fetched (Store.get req.path c.txn.store)))
    render_conditional http req.head exst.mod_time (some exst)
    deleted ← in_txn (act.delete req.path exst)
    cache_headers http req.head deleted.mod_time
    pure (resource 0 (record { object = deleted; permissions = none }))

  unfoldable pub delete : Request → Effect Context Error Response
  delete req = do
    raise_if (not (is_valid (object_id req.path))) invalid_id
    reads (λ c. check_permission authz (bytes "write" ∷ []) req.path c.txn)
    delete_allowed req
