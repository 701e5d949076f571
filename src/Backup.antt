-- ===== src/Backup.antt =====
-- backend/internal/backup: restoring an archive.
pub mod Restore
pub mod Admitted
pub mod Safe
pub mod Restored
pub mod Scenarios
