-- ===== src/Sqlite.antt =====
-- internal/store/sqlite: the leases and the scheduler of the durable store.
pub mod Tables
pub mod Leases
pub mod Scheduler
pub mod Calls
pub mod Effects
