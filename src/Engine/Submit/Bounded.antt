-- ===== src/Engine/Submit/Bounded.antt =====
-- Failed attempts and the maximum of retries (backend/internal/engine/retry.go).
use auto_seed_relay.Engine.Strategy.{Strategy}
use auto_seed_relay.Engine.Submit.Job.{Engine}
