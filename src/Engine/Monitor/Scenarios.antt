-- ===== src/Engine/Monitor/Scenarios.antt =====
-- A published seed that is retired (backend/internal/engine/monitor.go).
use text.Mathlib.Text.{◌==◌ as str_eq}
use auto_seed_relay.Prelude.{◌*◌, ◌≤◌, ◌≡◌, ◌↔◌, ◌⊎◌, refl, true, false, [], ◌∷◌, some, keep, ◌==◌}
use auto_seed_relay.Store.Rows.{RelayRecord, Replica, empty_db, find, mem_str}
use auto_seed_relay.Store.Records.{has_key}
use auto_seed_relay.Engine.Strategy.{default_strategy}
use auto_seed_relay.Engine.Retry.Queue.{new_retry_queue}
use auto_seed_relay.Engine.Submit.Job.{Engine}
use auto_seed_relay.Engine.Monitor.Retire.{
  TorrentInfo, is_published_status, retire_seed, should_retire,
}
use auto_seed_relay.Engine.Monitor.Conditions.{HasAged, should_retire_iff}
use auto_seed_relay.Engine.Monitor.Retired.{retire_seed-IsRetired}

abbrev published_row : RelayRecord
published_row = record {
  id = 1;
  seed_id = 5;
  target_id = 2;
  role = "publisher";
  status = "published";
  attempts = 1;
  last_error = "";
  published_at = 9;
  retired_at = 0;
  retire_reason = "";
  updated_at = 9;
}

abbrev origin : Replica
origin = record {
  id = 3;
  seed_id = 5;
  qb_id = 1;
  info_hash = "abcd";
  role = "origin";
  status = "seeding";
  progress = 1_000_000;
}

abbrev engine : Engine
engine = record {
  db = record (empty_db []) {
    records = published_row ∷ [];
    replicas = origin ∷ record origin { id = 4; seed_id = 6 } ∷ [];
  };
  retry = new_retry_queue;
  notices = [];
}

is_published : is_published_status "published" ≡ true
unfolding is_published_status mem_str
is_published = refl

retire_seed-IsRetired_example :
    let e' = retire_seed 5 "seeders" engine in
    ((r' : RelayRecord) × (find (has_key 5 2) e'.db.records ≡ some r')
      × (r'.status ≡ "retired")
      × (r'.retire_reason ≡ "seeders"))
    × (keep (λ q. q.seed_id == 5) e'.db.replicas ≡ [])
retire_seed-IsRetired_example =
    retire_seed-IsRetired 5 2 "seeders" published_row engine refl refl is_published

abbrev torrent : TorrentInfo
torrent = record { seeders = 12; completion_on = 100; ratio = 150; completed = true }

should_retire_iff_example :
    (str_eq default_strategy.retire_mode "or" ≡ true
      → (should_retire torrent default_strategy (9000 * 1_000_000_000) ≡ true) ↔ (
          (default_strategy.retire_seeders ≤ torrent.seeders)
          ⊎ HasAged torrent default_strategy (9000 * 1_000_000_000)
          ⊎ ((default_strategy.retire_ratio_enabled ≡ true)
              × (default_strategy.retire_ratio ≤ torrent.ratio))))
    × (str_eq default_strategy.retire_mode "or" ≡ false
        → (should_retire torrent default_strategy (9000 * 1_000_000_000) ≡ true) ↔ (
            (default_strategy.retire_seeders ≤ torrent.seeders)
            × HasAged torrent default_strategy (9000 * 1_000_000_000)
            × (default_strategy.retire_ratio_enabled ≡ true
                → default_strategy.retire_ratio ≤ torrent.ratio)))
should_retire_iff_example = should_retire_iff torrent default_strategy (9000 * 1_000_000_000)
