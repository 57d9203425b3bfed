-- ===== src/Storage.antt =====
-- internal/conn/memory/storage: the in-memory storage backend.
pub mod Tree
pub mod Backend
pub mod Txn
pub mod Filters
pub mod Lists
mod Tests
