-- ===== src/Engine/Lifecycle/Scenarios.antt =====
-- Runs of the engine's lifecycle (backend/internal/engine/engine.go).
use auto_seed_relay.Prelude.{
  ℕ, ◌+◌, ◌≡◌, ◌≢◌, refl, true, false, String, [], ◌∷◌, none, some, arith, All,
}
use auto_seed_relay.Store.Rows.{Seed, RelayRecord, Replica, empty_db}
use auto_seed_relay.Pipeline.Clean.{IsClean}
use auto_seed_relay.Engine.Submit.Job.{Engine}
use auto_seed_relay.Engine.Lifecycle.Pool.{
  WorkerPool, new_pool, start_pool, begin_stop, send_job, take_job, leave, takes, starts, stops,
  sends, works, Reach, here, next,
}
use auto_seed_relay.Engine.Lifecycle.Sound.{IsSound}
use auto_seed_relay.Engine.Lifecycle.Reached.{lifecycle-IsSound}
use auto_seed_relay.Engine.Lifecycle.Resend.{mid_flight, resend_seed, start_recovery}
use auto_seed_relay.Engine.Lifecycle.Resent.{seed_row, Requeued}
use auto_seed_relay.Engine.Lifecycle.Rerun.{resend_seed-Requeued}
use auto_seed_relay.Engine.Lifecycle.Recovered.{queued, recovered, start_recovers}

-- Two workers; one takes the job of seed 7, and a stop begins.
abbrev started : WorkerPool
started = start_pool 2 new_pool

abbrev offered : WorkerPool
offered = send_job 7 started

abbrev taken : WorkerPool
taken = take_job 0 7 [] offered

abbrev stopping : WorkerPool
stopping = begin_stop taken

stopping_reached : Reach 2 new_pool stopping
unfolding start_pool send_job take_job begin_stop
stopping_reached =
    next
      (next (next (next here (starts refl refl)) (sends 7 refl (omega arith) refl))
        (works refl (takes 0 7 [] refl refl refl)))
      (stops refl refl refl)

lifecycle-IsSound_example : IsSound 2 stopping
lifecycle-IsSound_example = lifecycle-IsSound 2 stopping stopping_reached

-- While it waits, the poller sends another job and the second worker returns.
abbrev later : WorkerPool
later = leave 1 (send_job 8 stopping)

abbrev seed_at : ℕ → String → Seed
seed_at id status = record {
  id = id;
  source_site = "site";
  info_hash = "aa";
  title = "";
  size = 0;
  category = "";
  promotion = "";
  source_id = 1;
  status = status;
  error = "timeout";
  retry_count = 2;
  updated_at = 0;
}

abbrev published_row : RelayRecord
published_row = record {
  id = 1;
  seed_id = 7;
  target_id = 3;
  role = "cross";
  status = "published";
  attempts = 0;
  last_error = "";
  published_at = 5;
  retired_at = 0;
  retire_reason = "";
  updated_at = 0;
}

abbrev copy_of_seed : Replica
copy_of_seed = record {
  id = 1;
  seed_id = 7;
  qb_id = 1;
  info_hash = "aa";
  role = "origin";
  status = "seeding";
  progress = 0;
}

abbrev engine_before : Engine
engine_before = record {
  db = record (empty_db []) {
    seeds = seed_at 7 "failed" ∷ seed_at 8 "downloading" ∷ seed_at 9 "discovered" ∷ [];
    records = published_row ∷ [];
    replicas = copy_of_seed ∷ [];
  };
  retry = record { items = []; wake = true };
  notices = [];
}

resend_seed-Requeued_example :
    let (e', r) = resend_seed 5 7 true engine_before in
    (r ≡ none → Requeued 5 7 true engine_before e')
    × (r ≢ none → e'.retry ≡ engine_before.retry)
    × (IsClean engine_before.db
        → seed_row 7 engine_before.db ≡ some (seed_at 7 "failed")
        → r ≡ none)
resend_seed-Requeued_example = resend_seed-Requeued 5 7 true (seed_at 7 "failed") engine_before

start_recovers_example :
    let e' = start_recovery 5 engine_before in
    (queued 8 e'.retry.items
      ≡ queued 8 engine_before.retry.items + recovered 8 engine_before.db.seeds)
    × All (λ s. mid_flight s ≡ false) e'.db.seeds
start_recovers_example = start_recovers 5 8 engine_before refl
