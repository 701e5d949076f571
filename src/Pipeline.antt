-- ===== src/Pipeline.antt =====
-- backend/internal/pipeline: one seed from its source to every enabled target.
pub mod Publish
pub mod Frame
pub mod Once
pub mod Relay
pub mod Done
pub mod Clean
pub mod Success
pub mod Outcome
pub mod Scenarios
