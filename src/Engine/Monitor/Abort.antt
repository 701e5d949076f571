-- ===== src/Engine/Monitor/Abort.antt =====
-- `monitorSlow` and `abortSlowTorrent` of backend/internal/engine/monitor.go. What qBittorrent answers to a
-- deletion and whether `IsSlow` says that a torrent is slow are arguments, as is the lower case of a hash.
use text.Mathlib.Text.{◌==◌ as str_eq}
use auto_seed_relay.Prelude.{
  ℕ, ◌+◌, Bool, not, List, [], ◌∷◌, Option, none, some, String, if◌then◌else◌, ◌||◌, lookup, insert,
  string_eq, nat_eq,
}
use auto_seed_relay.Store.Rows.{Db, Seed, RelayRecord, Replica}
use auto_seed_relay.Store.Seeds.{get_seed_by_id, bump_retry}
use auto_seed_relay.Store.Records.{list_records_by_seed, update_record_attempt}
use auto_seed_relay.Store.Replicas.{list_replicas_by_qb}
use auto_seed_relay.Engine.Submit.Job.{Engine, warning, notify, set_status, schedule}
use auto_seed_relay.Engine.Monitor.Retire.{is_published_status, with_engine_db}

-- A torrent as it is listed, with whether its state is one of downloading; the empty text is no hash.
pub record Listed : Type 0 where
  pub hash : String
  pub downloading : Bool

-- `isDoneRecordStatus`
unfoldable pub is_done_record_status : String → Bool
is_done_record_status status = is_published_status status || str_eq status "retired"

unfoldable pub fail_record_of : ℕ → RelayRecord → Db → Db
fail_record_of seed r db =
    if is_done_record_status r.status
    then db
    else (update_record_attempt seed r.target_id "failed" "low_speed_abort" db).0

unfoldable pub fail_records_of : ℕ → List RelayRecord → Db → Db
fail_records_of seed [] db = db
fail_records_of seed (r ∷ rs) db = fail_records_of seed rs (fail_record_of seed r db)

-- The number of the next retry, 1 if the seed was not found.
abbrev pub next_retry : Option (Option Seed) → ℕ
next_retry none = 1
next_retry (some none) = 1
next_retry (some (some s)) = s.retry_count + 1

unfoldable pub requeue_slow : ℕ → ℕ → ℕ → Engine → Engine
requeue_slow now seed retry_no e = notify warning "low_speed" (
    schedule now seed retry_no
      (set_status seed "retry" "low_speed_abort" (with_engine_db (bump_retry seed e.db).0 e)))

unfoldable pub after_list_records : ℕ → ℕ → Option (List RelayRecord) → Engine → Engine
after_list_records now seed none e = e
after_list_records now seed (some rs) e =
    let (db, found) = get_seed_by_id seed (fail_records_of seed rs e.db) in
    requeue_slow now seed (next_retry found) (with_engine_db db e)

-- `abortSlowTorrent`, with whether qBittorrent has deleted the torrent.
unfoldable pub abort_slow_torrent : ℕ → Bool → ℕ → Engine → Engine
abort_slow_torrent now deleted seed e =
    let (db, rs) = list_records_by_seed seed e.db in
    let aborted = after_list_records now seed rs (with_engine_db db e) in
    if deleted then aborted else e

module _ (lower : String → String) where
  -- The seed of a hash: that of the first replica, or of the last origin replica.
  unfoldable pub seed_by_hash : List Replica → List (String × ℕ) → List (String × ℕ)
  seed_by_hash [] m = m
  seed_by_hash (r ∷ rs) m =
      let h = lower r.info_hash in
      let set = insert h r.seed_id m in
      seed_by_hash rs
        (elim (lookup h m) [ none ↦ set | some s ↦ if str_eq r.role "origin" then set else m ])

  abbrev pub abort_owner : ℕ → Bool → Option ℕ → Engine → Engine
  abort_owner now deleted none e = e
  abort_owner now deleted (some seed) e = abort_slow_torrent now deleted seed e

  unfoldable pub abort_slow_torrents :
      ℕ → (String → Bool) → (String → Bool) → List (String × ℕ) → List Listed → Engine → Engine
  abort_slow_torrents now is_slow deletes owners [] e = e
  abort_slow_torrents now is_slow deletes owners (t ∷ ts) e =
      let e' = abort_owner now (deletes t.hash) (lookup (lower t.hash) owners) e in
      let skip = str_eq t.hash "" || not t.downloading || not (is_slow t.hash) in
      abort_slow_torrents now is_slow deletes owners ts (if skip then e else e')

  unfoldable pub after_list_by_qb :
      ℕ → (String → Bool) → (String → Bool) → List Listed → Option (List Replica) → Engine → Engine
  after_list_by_qb now is_slow deletes ts none e = e
  after_list_by_qb now is_slow deletes ts (some rs) e =
      abort_slow_torrents now is_slow deletes (seed_by_hash rs []) ts e

  -- `monitorSlow`, when the strategy aborts slow torrents.
  unfoldable pub monitor_slow :
      ℕ → Bool → (String → Bool) → (String → Bool) → ℕ → List Listed → Engine → Engine
  monitor_slow now enabled is_slow deletes qb ts e =
      let (db, rs) = list_replicas_by_qb qb e.db in
      let checked = after_list_by_qb now is_slow deletes ts rs (with_engine_db db e) in
      if enabled then checked else e
