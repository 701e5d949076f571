-- ===== src/Engine/Submit/Job.antt =====
-- `submitJob` and `rebuildRetryQueue` of backend/internal/engine/retry.go. The pipeline is an argument,
-- a function on the database. Texts of messages are left out: a notice is its level and its event.
use auto_seed_relay.Prelude.{
  ℕ, ◌+◌, Bool, List, [], ◌∷◌, ◌++◌, Option, none, some, String, if◌then◌else◌, ltb, leb, ◌==◌,
}
use auto_seed_relay.Store.Rows.{Db, Seed}
use auto_seed_relay.Store.Seeds.{bump_retry, update_seed_status, list_seeds_by_status}
use auto_seed_relay.Engine.Strategy.{Strategy}
use auto_seed_relay.Engine.Retry.Queue.{RetryQueue, enqueue}

pub data Level : Type 0 where
  info warning critical : Level

-- What `notify` hands to the router.
pub record Notice : Type 0 where
  pub level : Level
  pub event : String

-- The state that a job reads and writes.
pub record Engine : Type 0 where
  pub db : Db
  pub retry : RetryQueue
  pub notices : List Notice

-- What `Relay` returns: nil, or an error with its text and whether it is a partial failure.
pub data Attempt : Type 0 where
  relayed : Attempt
  failed : Bool → String → Attempt

abbrev pub Pipeline : Type 0
Pipeline = ℕ → Db → Db × Attempt

abbrev pub notify : Level → String → Engine → Engine
notify level event e = record e {
  notices = e.notices ++ record { level = level; event = event } ∷ [];
}

-- `RetryMax`, or 3 if that is not positive.
abbrev pub max_retries : Strategy → ℕ
max_retries st = if st.retry_max == 0 then 3 else st.retry_max

-- The error of a store call is only logged, so that its flag is dropped.
abbrev pub set_status : ℕ → String → String → Engine → Engine
set_status seed status error e = record e { db = (update_seed_status seed status error e.db).0 }

abbrev pub schedule : ℕ → ℕ → ℕ → Engine → Engine
schedule now seed next e = record e { retry = enqueue now seed next e.retry }

-- What follows the counting of a failure.
unfoldable pub route : ℕ → ℕ → ℕ → ℕ → Bool → String → Engine → Engine
route now max seed next partial message e =
    if leb next max
    then schedule now seed next (set_status seed "retry" message e)
    else if partial
    then notify critical "retry" (set_status seed "seeding" message e)
    else notify critical "failed" (set_status seed "failed" message e)

settle : ℕ → Strategy → ℕ → ℕ → Attempt → Engine → Engine
unfolding route
settle now st seed retry_no relayed e = e
settle now st seed retry_no (failed partial message) e =
    route now (max_retries st) seed (retry_no + 1) partial message
      (record e { db = (bump_retry seed e.db).0 })

abbrev redacted : (String → String) → Attempt → Attempt
redacted f relayed = relayed
redacted f (failed partial message) = failed partial (f message)

-- `submitJob` at a clock, with the pipeline, the strategy and the redaction of error texts. No pipeline
-- leaves the seed as it is.
unfoldable pub submit_job :
    ℕ → Option Pipeline → Strategy → (String → String) → ℕ → ℕ → Engine → Engine
unfolding settle
submit_job now none st redact seed retry_no e = e
submit_job now (some relay) st redact seed retry_no e =
    let (db, attempt) = relay seed e.db in
    settle now st seed retry_no (redacted redact attempt) (record e { db = db })

unfoldable pub enqueue_seeds : ℕ → List Seed → RetryQueue → RetryQueue
enqueue_seeds now [] q = q
enqueue_seeds now (s ∷ seeds) q =
    enqueue_seeds now seeds (enqueue now s.id (if ltb s.retry_count 1 then 1 else s.retry_count) q)

-- `rebuildRetryQueue`: every seed in "retry", at its retry count.
unfoldable pub rebuild : ℕ → Engine → Engine
unfolding enqueue_seeds
rebuild now e =
    let (db, found) = list_seeds_by_status "retry" e.db in
    elim found [
      | none ↦ record e { db = db }
      | some seeds ↦ record e { db = db; retry = enqueue_seeds now seeds e.retry }
    ]
