-- ===== src/Qb.antt =====
-- backend/internal/qb: the client of a qBittorrent instance, and the registry of instances.
pub mod Manager
pub mod Order
pub mod Sorted
pub mod Registry
pub mod Client
pub mod Retried
pub mod Slow
pub mod Since
pub mod Tracked
pub mod Scenarios
