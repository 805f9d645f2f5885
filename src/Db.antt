-- ===== src/Db.antt =====
-- The database behind internal/repository, and the Go functions that run against it.
-- A statement is sent to the transaction of the context, if there is one, and to the pool otherwise
-- (tx.go); the model has one request at a time, so both see the same tables.
pub mod Schema
pub mod Fine
pub mod Rows
pub mod Statement
pub mod Redis
pub mod Returns
pub mod Migrate
pub use Schema.*
unfoldable pub use Statement.{◌>>=◌, new_uuid, statement, query, begin_tx, commit_tx, rollback_tx}
pub use Statement.*
unfoldable pub use Redis.{cache_get, cache_set, cache_del}
