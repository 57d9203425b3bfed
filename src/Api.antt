-- ===== src/Api.antt =====
-- pkg/api: the HTTP API.
pub mod Authz
pub mod Errors
pub mod Txn
pub mod Model
pub mod Actions
pub mod Conditions
pub mod Controller
