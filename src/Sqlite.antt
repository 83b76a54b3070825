-- ===== src/Sqlite.antt =====
-- internal/sqlite/sqlite.go: the tables of sessions, memory, the index and cron jobs. A statement is
-- one call of the SQL engine: it fails and changes nothing, or it does what its text says.
pub mod Base
pub mod Keyed
pub mod Messages
pub mod Memory
pub mod Index
pub mod CronJobs
pub mod Opening
