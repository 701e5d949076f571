-- ===== src/Engine/Retry.antt =====
-- backend/internal/engine/retry.go: the in-memory delay queue of failed seeds.
pub mod Queue
pub mod Due
pub mod Wait
pub mod Scenarios
