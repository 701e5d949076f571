-- ===== src/Engine/Submit.antt =====
-- backend/internal/engine/retry.go: one pipeline attempt, and where its failure goes.
pub mod Job
pub mod Bounded
pub mod Scenarios
