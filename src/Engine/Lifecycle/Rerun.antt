-- ===== src/Engine/Lifecycle/Rerun.antt =====
-- `ResendSeed` when no statement fails, and its result (backend/internal/engine/engine.go).
use auto_seed_relay.Prelude.{
  ℕ, ◌≡◌, ◌≢◌, refl, ap, Bool, true, false, List, [], ◌∷◌, Option, none, some,
}
use auto_seed_relay.Store.Rows.{Db, Seed, Replica, exec, spend}
use auto_seed_relay.Store.Seeds.{get_seed_by_id, update_seed}
use auto_seed_relay.Store.Replicas.{list_replicas, delete_replica}
use auto_seed_relay.Pipeline.Clean.{exec_clean, query_clean, IsClean, spend-IsClean, exec-IsClean}
use auto_seed_relay.Engine.Submit.Job.{Engine}
use auto_seed_relay.Engine.Monitor.Dropped.{delete_replica-IsClean}
use auto_seed_relay.Engine.Monitor.Retire.{with_engine_db}
use auto_seed_relay.Engine.Lifecycle.Resend.{
  ResendError, delete_records_of, delete_each, delete_listed, after_delete_records, clear_seed,
  reset_retry, after_reset, requeue, after_get, resend_seed,
}
use auto_seed_relay.Engine.Lifecycle.Resent.{seed_row, Requeued, resend_seed_either}

exec_fine : (f : Db → Db) (db : Db) → IsClean db → (exec f db).1 ≡ true
exec_fine f db h = ap (λ x. x.1) (exec_clean f db h)

delete_replica_fine : (id : ℕ) (db : Db) → IsClean db → (delete_replica id db).1 ≡ true
unfolding delete_replica
delete_replica_fine id db h = exec_fine _ db h

delete_each_fine :
    (rs : List Replica) (db : Db)
    → IsClean db
    → ((delete_each rs db).1 ≡ true) × IsClean (delete_each rs db).0
unfolding delete_each
delete_each_fine [] db h = (refl, h)
delete_each_fine (r ∷ rs) db h =
    rw (delete_replica_fine r.id db h)
      (delete_each_fine rs (delete_replica r.id db).0 (delete_replica-IsClean r.id db h))

abbrev Fine : Db × Option ResendError → Type 0
Fine x = (x.1 ≡ none) × IsClean x.0

delete_listed-Fine : (rs : List Replica) (db : Db) → IsClean db → Fine (delete_listed (some rs) db)
unfolding delete_listed
delete_listed-Fine rs db h = let (a, b) = delete_each_fine rs db h in (rw a refl, b)

clear_seed-Fine : (seed : ℕ) (db : Db) → IsClean db → Fine (clear_seed seed db)
unfolding clear_seed after_delete_records delete_records_of list_replicas
clear_seed-Fine seed db h =
    let d = (delete_records_of seed db).0 in
    let c : IsClean d = exec-IsClean _ db (λ x. refl) h in
    rw (exec_fine _ db h, query_clean _ d c) (delete_listed-Fine _ (spend d) (spend-IsClean d c))

requeue_fine : (now seed : ℕ) (e : Engine) → IsClean e.db → (requeue now seed none e).1 ≡ none
unfolding requeue after_reset reset_retry update_seed
requeue_fine now seed e h = rw (exec_fine _ e.db h) refl

after_get_fine :
    (now seed : ℕ) (full : Bool) (s : Seed) (e : Engine)
    → IsClean e.db
    → (after_get now seed full (some (some s)) e).1 ≡ none
unfolding after_get
after_get_fine now seed false s e h = requeue_fine now seed (with_engine_db e.db e) h
after_get_fine now seed true s e h =
    let (a, b) = clear_seed-Fine seed e.db h in
    rw a (requeue_fine now seed (with_engine_db (clear_seed seed e.db).0 e) b)

resend_seed_fine :
    (now seed : ℕ) (full : Bool) (s : Seed) (e : Engine)
    → IsClean e.db
    → seed_row seed e.db ≡ some s
    → (resend_seed now seed full e).1 ≡ none
unfolding resend_seed get_seed_by_id
resend_seed_fine now seed full s e h k =
    rw (query_clean _ e.db h, k)
      (after_get_fine now seed full s (with_engine_db (spend e.db) e) (spend-IsClean e.db h))

-- `ResendSeed` returns nil if the seed exists and no statement fails. Whenever it returns nil, whichever
-- statements might have failed: the seed is in "retry" with a retry count of 0 and no error, it is queued
-- as the first retry and nothing else is, and the records of other seeds are as before; after a full
-- rerun it has no replicas, and whatever targets there are, all of them are pending for the next run of
-- the pipeline. If it returns an error, nothing was queued.
pub resend_seed-Requeued :
    (now seed : ℕ) (full : Bool) (s : Seed) (e : Engine)
    → let (e', r) = resend_seed now seed full e in
      (r ≡ none → Requeued now seed full e e')
      × (r ≢ none → e'.retry ≡ e.retry)
      × (IsClean e.db → seed_row seed e.db ≡ some s → r ≡ none)
resend_seed-Requeued now seed full s e =
    let (a, b) = resend_seed_either now seed full e in (a, b, resend_seed_fine now seed full s e)
