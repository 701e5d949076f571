-- ===== src/Store.antt =====
-- backend/internal/store: the rows that the relay core reads and writes, and the statements on them.
pub mod Rows
pub mod Seeds
pub mod Records
pub mod Replicas
pub mod Unique
pub mod Operations
pub mod Invariant
pub mod History
pub mod Promises
pub mod Migrate
pub mod Split
pub mod Due
pub mod Migrated
pub mod Upgrades
pub mod Scenarios
pub mod Updates
