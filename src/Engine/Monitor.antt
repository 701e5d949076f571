-- ===== src/Engine/Monitor.antt =====
-- backend/internal/engine/monitor.go: what a monitoring pass does with seeds that are complete.
pub mod Retire
pub mod Conditions
pub mod Dropped
pub mod Retired
pub mod Watch
pub mod Announced
pub mod Counted
pub mod Alarms
pub mod Abort
pub mod Aborted
pub mod Requeued
pub mod Scenarios
pub mod Rounds
pub mod Untouched
