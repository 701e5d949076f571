-- ===== src/Engine/Dispatcher.antt =====
-- backend/internal/engine/dispatcher.go: which qBittorrent instance a seed goes to.
pub mod Select
pub mod Best
pub mod Registered
pub mod Scenarios
