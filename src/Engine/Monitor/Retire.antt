-- ===== src/Engine/Monitor/Retire.antt =====
-- `shouldRetire` and `retireCheck` of backend/internal/engine/monitor.go. Whether qBittorrent reports the
-- torrent as completed is part of the torrent; its answer to the deletion is only logged and left out,
-- as are the texts of logs and notices. Ratios are in hundredths, the clock in nanoseconds.
use text.Mathlib.Text.{◌==◌ as str_eq}
use auto_seed_relay.Prelude.{
  ℕ, ◌+◌, ◌*◌, Bool, true, false, List, [], ◌∷◌, Option, none, some, String, if◌then◌else◌, ltb,
  leb, ◌&&◌, ◌||◌,
}
use auto_seed_relay.Store.Rows.{Db, RelayRecord, Replica, mem_str}
use auto_seed_relay.Store.Seeds.{append_log}
use auto_seed_relay.Store.Records.{list_records_by_seed, mark_retired, update_record_status}
use auto_seed_relay.Store.Replicas.{list_replicas, delete_replica}
use auto_seed_relay.Engine.Strategy.{Strategy}
use auto_seed_relay.Engine.Submit.Job.{Engine, info, notify, set_status}

-- The fields of qb.TorrentInfo that matter; `completion_on` is in seconds, and 0 if it is not positive.
pub record TorrentInfo : Type 0 where
  pub seeders : ℕ
  pub completion_on : ℕ
  pub ratio : ℕ
  pub completed : Bool

abbrev pub nanos_per_second : ℕ
nanos_per_second = 1_000_000_000

abbrev pub seeders_ok : TorrentInfo → Strategy → Bool
seeders_ok t st = leb st.retire_seeders t.seeders

-- minutes > retire_minutes, where an unknown time of completion gives 0 minutes.
abbrev pub time_ok : TorrentInfo → Strategy → ℕ → Bool
time_ok t st now =
    if ltb 0 t.completion_on
    then ltb (st.retire_minutes * (60 * nanos_per_second) + t.completion_on * nanos_per_second) now
    else false

abbrev pub ratio_ok : TorrentInfo → Strategy → Bool
ratio_ok t st = leb st.retire_ratio t.ratio

-- `conds[1:]`
abbrev pub later_conditions : TorrentInfo → Strategy → ℕ → List Bool
later_conditions t st now =
    if st.retire_ratio_enabled then time_ok t st now ∷ ratio_ok t st ∷ [] else time_ok t st now ∷ []

-- The loop over `conds[1:]`.
unfoldable pub combine : String → Bool → List Bool → Bool
combine mode met [] = met
combine mode met (c ∷ cs) = combine mode (if str_eq mode "or" then met || c else met && c) cs

unfoldable pub should_retire : TorrentInfo → Strategy → ℕ → Bool
should_retire t st now = combine st.retire_mode (seeders_ok t st) (later_conditions t st now)

-- `isPublishedStatus`
unfoldable pub is_published_status : String → Bool
is_published_status status =
    mem_str status ("published" ∷ "seeding" ∷ "cross_seeding" ∷ "cross_seeded" ∷ [])

abbrev pub with_engine_db : Db → Engine → Engine
with_engine_db db e = record e { db = db }

-- A published record whose retirement was written.
unfoldable pub close_record : ℕ → ℕ → Engine → Engine
close_record seed target e = notify info "retire" (
    with_engine_db
      (append_log 0 "info" "retired" (update_record_status seed target "retired" "" e.db).0).0 e)

unfoldable pub after_mark_retired : ℕ → ℕ → Bool → Engine → Engine
after_mark_retired seed target false e = e
after_mark_retired seed target true e = close_record seed target e

unfoldable pub retire_record : ℕ → String → RelayRecord → Engine → Engine
retire_record seed reason r e =
    let (db, marked) = mark_retired seed r.target_id reason e.db in
    let e' = after_mark_retired seed r.target_id marked (with_engine_db db e) in
    if is_published_status r.status then e' else e

unfoldable pub retire_records : ℕ → String → List RelayRecord → Engine → Engine
retire_records seed reason [] e = e
retire_records seed reason (r ∷ rs) e =
    retire_records seed reason rs (retire_record seed reason r e)

unfoldable pub delete_replicas : List Replica → Db → Db
delete_replicas [] db = db
delete_replicas (r ∷ rs) db = delete_replicas rs (delete_replica r.id db).0

unfoldable pub drop_listed : Option (List Replica) → Db → Db
drop_listed none db = db
drop_listed (some rs) db = delete_replicas rs db

unfoldable pub drop_replicas : ℕ → Db → Db
drop_replicas seed db = let (db', rs) = list_replicas seed db in drop_listed rs db'

unfoldable pub close_seed : ℕ → String → Option (List RelayRecord) → Engine → Engine
close_seed seed reason none e = e
close_seed seed reason (some rs) e =
    let e' = retire_records seed reason rs e in
    set_status seed "retired" reason (with_engine_db (drop_replicas seed e'.db) e')

-- What `retireCheck` does once the conditions are met.
unfoldable pub retire_seed : ℕ → String → Engine → Engine
retire_seed seed reason e =
    let (db, rs) = list_records_by_seed seed e.db in close_seed seed reason rs (with_engine_db db e)

-- `retireCheck`
unfoldable pub retire_check : TorrentInfo → Strategy → ℕ → ℕ → String → Engine → Engine
retire_check t st now seed reason e =
    let retired = retire_seed seed reason e in
    if t.completed then if should_retire t st now then retired else e else e
