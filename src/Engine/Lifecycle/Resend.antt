-- ===== src/Engine/Lifecycle/Resend.antt =====
-- `ResendSeed` and the recovery at `Start` of backend/internal/engine/engine.go, with the statements
-- that they run on the raw handle. Each is one statement; there is no transaction.
use text.Mathlib.Text.{◌==◌ as str_eq}
use auto_seed_relay.Prelude.{
  ℕ, Bool, true, false, List, [], ◌∷◌, Option, none, some, if◌then◌else◌, ◌==◌, ◌||◌, keep, not,
}
use auto_seed_relay.Store.Rows.{Db, Seed, Replica, exec, update_where}
use auto_seed_relay.Store.Seeds.{get_seed_by_id, update_seed}
use auto_seed_relay.Store.Replicas.{list_replicas, delete_replica}
use auto_seed_relay.Engine.Retry.Queue.{enqueue}
use auto_seed_relay.Engine.Submit.Job.{Engine, rebuild}
use auto_seed_relay.Engine.Monitor.Retire.{with_engine_db}

-- The step of `ResendSeed` whose error it returns.
pub data ResendError : Type 0 where
  get_seed no_seed delete_records list_reps delete_rep reset_state : ResendError

unfoldable pub delete_records_of : ℕ → Db → Db × Bool
delete_records_of seed =
    exec (λ d. record d { records = keep (λ r. not (r.seed_id == seed)) d.records })

-- The loop over the replicas ends at the first error.
unfoldable pub delete_each : List Replica → Db → Db × Bool
delete_each [] db = (db, true)
delete_each (r ∷ rs) db =
    let (db', ok) = delete_replica r.id db in
    let rest = delete_each rs db' in if ok then rest else (db', false)

unfoldable pub delete_listed : Option (List Replica) → Db → Db × Option ResendError
delete_listed none db = (db, some list_reps)
delete_listed (some rs) db =
    let (db', ok) = delete_each rs db in (db', if ok then none else some delete_rep)

unfoldable pub after_delete_records : ℕ → Bool → Db → Db × Option ResendError
after_delete_records seed false db = (db, some delete_records)
after_delete_records seed true db = let (db', rs) = list_replicas seed db in delete_listed rs db'

-- What `fullRerun` does before the retry state is reset.
unfoldable pub clear_seed : ℕ → Db → Db × Option ResendError
clear_seed seed db = let (db', ok) = delete_records_of seed db in after_delete_records seed ok db'

unfoldable pub reset_retry : ℕ → Db → Db × Bool
reset_retry seed =
    update_seed seed
      (λ now s. record s { retry_count = 0; status = "retry"; error = ""; updated_at = now })

unfoldable pub after_reset : ℕ → ℕ → Bool → Engine → Engine × Option ResendError
after_reset now seed false e = (e, some reset_state)
after_reset now seed true e = (record e { retry = enqueue now seed 1 e.retry }, none)

unfoldable pub requeue : ℕ → ℕ → Option ResendError → Engine → Engine × Option ResendError
requeue now seed (some error) e = (e, some error)
requeue now seed none e =
    let (db, ok) = reset_retry seed e.db in after_reset now seed ok (with_engine_db db e)

unfoldable pub after_get :
    ℕ → ℕ → Bool → Option (Option Seed) → Engine → Engine × Option ResendError
after_get now seed full none e = (e, some get_seed)
after_get now seed full (some none) e = (e, some no_seed)
after_get now seed full (some (some s)) e =
    let (db, error) = if full then clear_seed seed e.db else (e.db, none) in
    requeue now seed error (with_engine_db db e)

-- `ResendSeed`
unfoldable pub resend_seed : ℕ → ℕ → Bool → Engine → Engine × Option ResendError
resend_seed now seed full e =
    let (db, found) = get_seed_by_id seed e.db in
    after_get now seed full found (with_engine_db db e)

abbrev pub mid_flight : Seed → Bool
mid_flight s = str_eq s.status "downloading" || str_eq s.status "processing"

-- The statement of `Start` that takes interrupted seeds back.
unfoldable pub reclaim : Db → Db × Bool
reclaim =
    exec (λ d. record d {
      seeds = update_where mid_flight (λ s. record s { status = "retry" }) d.seeds;
    })

-- What `Start` does before it launches the goroutines; an error of the statement is only logged.
unfoldable pub start_recovery : ℕ → Engine → Engine
start_recovery now e = rebuild now (with_engine_db (reclaim e.db).0 e)
