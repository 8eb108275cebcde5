-- ===== src/Db.antt =====
-- The SQLite database of the daemon: package internal/db.
pub mod Schema
pub mod Tx
pub mod Query
pub mod Invariant
pub mod Keeps
pub mod Work
pub mod Batch
pub mod Complete
pub mod Mapping
pub mod Runs
pub mod Witnesses
