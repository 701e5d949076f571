-- ===== src/Api.antt =====
-- backend/internal/api: the handlers that act on one seed.
pub mod Ops
pub mod Atomic
pub mod Tombstone
pub mod Scenarios
