-- ===== src/Router.antt =====
-- backend/internal/notifier/router.go: warnings and infos are gathered in windows, one for each instance,
-- level and event.
pub mod Window
pub mod Conserve
pub mod Scenarios
