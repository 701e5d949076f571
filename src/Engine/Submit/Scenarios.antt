-- ===== src/Engine/Submit/Scenarios.antt =====
-- A job that fails (backend/internal/engine/retry.go).
use auto_seed_relay.Prelude.{true, String, []}
use auto_seed_relay.Store.Rows.{empty_db}
use auto_seed_relay.Engine.Retry.Queue.{new_retry_queue}
use auto_seed_relay.Engine.Submit.Job.{Engine, failed, Pipeline}

abbrev engine : Engine
engine = record { db = empty_db []; retry = new_retry_queue; notices = [] }

-- No target of the seed can be reached.
abbrev unreachable : Pipeline
unreachable seed db = (db, failed true "timeout")

abbrev unchanged : String → String
unchanged message = message
