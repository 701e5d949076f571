-- ===== src/Engine.antt =====
-- backend/internal/engine: the relay orchestrator (retry queue, dispatcher, poller, monitor).
pub mod Strategy
pub mod Lifecycle
pub mod Retry
pub mod Submit
pub mod Poll
pub mod Dispatcher
pub mod Monitor
