-- ===== src/Engine/Monitor/Rounds.antt =====
-- A slow torrent that is aborted and a disk that fills twice (backend/internal/engine/monitor.go).
use auto_seed_relay.Prelude.{ℕ, String, ◌+◌, ◌≡◌, refl, true, false, List, [], ◌∷◌, some}
use auto_seed_relay.Store.Rows.{Seed, RelayRecord, empty_db}
use auto_seed_relay.Engine.Strategy.{default_strategy}
use auto_seed_relay.Engine.Retry.Queue.{new_retry_queue}
use auto_seed_relay.Engine.Submit.Job.{Engine}
use auto_seed_relay.Engine.Monitor.Watch.{disk_level}
use auto_seed_relay.Engine.Monitor.Announced.{Look, health, disk, looks, alarms, outages, fillings}
use auto_seed_relay.Engine.Monitor.Alarms.{alarms_exact}
use auto_seed_relay.Engine.Monitor.Abort.{abort_slow_torrent}
use auto_seed_relay.Engine.Monitor.Requeued.{Aborts, abort_requeues}
use auto_seed_relay.Qb.Manager.{Status}

abbrev seed_at : ℕ → String → Seed
seed_at id status = record {
  id = id;
  source_site = "site";
  info_hash = "aa";
  title = "";
  size = 0;
  category = "";
  promotion = "";
  source_id = 1;
  status = status;
  error = "timeout";
  retry_count = 2;
  updated_at = 0;
}

abbrev slow_seed : Seed
slow_seed = seed_at 5 "seeding"

abbrev pending_row : RelayRecord
pending_row = record {
  id = 1;
  seed_id = 5;
  target_id = 2;
  role = "publisher";
  status = "processing";
  attempts = 0;
  last_error = "";
  published_at = 0;
  retired_at = 0;
  retire_reason = "";
  updated_at = 9;
}

abbrev slow_engine : Engine
slow_engine = record {
  db = record (empty_db []) { seeds = slow_seed ∷ []; records = pending_row ∷ []; unixepoch = 20 };
  retry = new_retry_queue;
  notices = [];
}

abort_requeues_example :
    Aborts 90 5 2 pending_row slow_seed slow_engine (abort_slow_torrent 90 true 5 slow_engine)
    × (abort_slow_torrent 90 false 5 slow_engine ≡ slow_engine)
abort_requeues_example =
    abort_requeues 90 5 2 pending_row slow_seed slow_engine refl (tt, tt) refl refl

abbrev offline : Status
offline = record { name = "nas"; online = false; version = ""; last_error = "refused" }

abbrev rounds : List Look
rounds =
    health (offline ∷ [])
    ∷ disk default_strategy "nas" (some 5)
    ∷ health (offline ∷ [])
    ∷ disk default_strategy "nas" (some 100_000_000_000)
    ∷ disk default_strategy "nas" (some 5)
    ∷ []

alarms_exact_example :
    let m = looks rounds (record { engine = slow_engine; all_offline = false; disk_state = [] }) in
    (alarms "offline" m.engine.notices
      ≡ alarms "offline" slow_engine.notices + outages false rounds)
    × (alarms "disk" m.engine.notices
        ≡ alarms "disk" slow_engine.notices + fillings (λ n. "") rounds)
alarms_exact_example = alarms_exact rounds slow_engine

-- One outage, and the disk filled twice.
expected : (outages false rounds ≡ 1) × (fillings (λ n. "") rounds ≡ 2)
unfolding outages fillings disk_level default_strategy
expected = (refl, refl)
