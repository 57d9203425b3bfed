-- ===== src/Api/Errors.antt =====
-- pkg/schema/errors.go: the errors that the API responds with, without the texts of their constant
-- messages and details. An error of a transaction, which is no schema.Error, is kept as it is.
use riposo.Prelude.{ℕ, Option, Text}
use riposo.Schema.{Object}
use riposo.Storage.Txn
use riposo.Permission
use riposo.Cache

pub data Error : Type 0 where
  missing_auth_token forbidden not_modified : Error
  invalid_path invalid_query : Text → Error
  -- the field and the description
  invalid_body : Text → Text → Error
  -- the path of a resource that does not exist
  invalid_resource : Text → Error
  -- the ID and the name of a parent that does not exist
  missing_resource : Text → Text → Error
  -- the object that exists, if any
  modified_meanwhile : Option Object → Error
  store_error : Txn.Error → Error
  perms_error : Permission.Error → Error
  cache_error : Cache.Error → Error
  -- any other schema.Error, by its status, and any other error
  other_response : ℕ → Text → Error
  other_error : Text → Error

-- The status of the response; `renderError` makes an InternalError of what is no schema.Error.
unfoldable pub status : Error → ℕ
status missing_auth_token = 401
status forbidden = 403
status not_modified = 304
status (invalid_path description) = 400
status (invalid_query description) = 400
status (invalid_body field description) = 400
status (invalid_resource path) = 404
status (missing_resource id resource_name) = 404
status (modified_meanwhile existing) = 412
status (store_error e) = 500
status (perms_error e) = 500
status (cache_error e) = 500
status (other_response code message) = code
status (other_error message) = 500
