-- ===== src/Engine/Lifecycle.antt =====
-- backend/internal/engine/engine.go: starting and stopping the engine, and its pool of workers.
pub mod Pool
pub mod Workers
pub mod Sound
pub mod Reached
pub mod Drained
pub mod Resend
pub mod Cleared
pub mod Resent
pub mod Rerun
pub mod Recovered
pub mod Scenarios
