-- ===== src/Engine/Poll.antt =====
-- backend/internal/engine/poller.go: polling the sources, and what becomes of an item.
pub mod Ingest
pub mod Unique
pub mod Scenarios
pub mod Marks
pub mod Source
pub mod Pause
