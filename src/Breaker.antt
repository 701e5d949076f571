-- ===== src/Breaker.antt =====
-- backend/internal/notifier/breaker.go: the circuit breaker of one notifier instance.
-- A method that locks the mutex returns the new record. `Do` runs its function outside the lock, so
-- it is two atomic steps: `begin` (phase 1) and `settle` (phase 3), with the call in flight between.
pub mod State
pub mod Invariant
pub mod Window
pub mod Scenarios
