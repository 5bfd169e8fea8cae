-- ===== src/Store.antt =====
-- internal/store: the database, and the managers over it.
pub mod Db
pub mod Exec
pub mod Random
pub mod Locks
pub mod Queues
pub mod Lock
pub mod Notes
pub mod Tasks
pub mod Presence
pub mod Events
pub mod Keyed
