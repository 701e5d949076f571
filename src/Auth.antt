-- ===== src/Auth.antt =====
-- backend/internal/auth: the limit on login attempts, sessions, and the gate before the handlers.
pub mod RateLimit
pub mod Bound
pub mod Session
pub mod Accepted
pub mod Settings
pub mod Initialized
pub mod Lasting
pub mod Secret
pub mod Unary
pub mod Restarts
pub mod Scenarios
