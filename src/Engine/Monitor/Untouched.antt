-- ===== src/Engine/Monitor/Untouched.antt =====
-- What the statements of a retirement leave alone (backend/internal/engine/monitor.go).
use auto_seed_relay.Prelude.{
  ℕ, ◌≡◌, ◌≢◌, refl, ◌∙◌, true, false, List, [], ◌∷◌, Option, none, some, String, arith,
}
use auto_seed_relay.Store.Rows.{Db, Replica, exec}
use auto_seed_relay.Store.Seeds.{update_seed_status, update_seed, validate_seed_status}
use auto_seed_relay.Store.Records.{mark_retired, update_record}
use auto_seed_relay.Store.Replicas.{list_replicas, delete_replica}
use auto_seed_relay.Pipeline.Frame.{row_of, query-row, update_record-row, exec-row, if-row}
use auto_seed_relay.Pipeline.Clean.{IsClean, update_record-IsClean}
use auto_seed_relay.Engine.Submit.Job.{Engine, set_status}
use auto_seed_relay.Engine.Monitor.Retire.{delete_replicas, drop_listed, drop_replicas}

-- The statement on a seed leaves the other tables alone.
pub set_status-replicas :
    (seed : ℕ) (status error : String) (e : Engine)
    → (set_status seed status error e).db.replicas ≡ e.db.replicas
unfolding update_seed_status update_seed exec
set_status-replicas seed status error e = ground arith

delete_replica-row : (s t id : ℕ) (db : Db) → row_of s t (delete_replica id db).0 ≡ row_of s t db
unfolding delete_replica
delete_replica-row s t id db = exec-row s t _ db (λ d. refl)

delete_replicas-row :
    (s t : ℕ) (rs : List Replica) (db : Db) → row_of s t (delete_replicas rs db) ≡ row_of s t db
unfolding delete_replicas
delete_replicas-row s t [] db = refl
delete_replicas-row s t (r ∷ rs) db =
    delete_replicas-row s t rs (delete_replica r.id db).0 ∙ delete_replica-row s t r.id db

drop_listed-row :
    (s t : ℕ) (o : Option (List Replica)) (db : Db) → row_of s t (drop_listed o db) ≡ row_of s t db
unfolding drop_listed
drop_listed-row s t none db = refl
drop_listed-row s t (some rs) db = delete_replicas-row s t rs db

pub drop_replicas-row :
    (s t seed : ℕ) (db : Db) → row_of s t (drop_replicas seed db) ≡ row_of s t db
unfolding drop_replicas list_replicas
drop_replicas-row s t seed db = drop_listed-row s t (list_replicas seed db).1 _ ∙ query-row s t _ db

pub set_status-row :
    (s t seed : ℕ) (status error : String) (e : Engine)
    → row_of s t (set_status seed status error e).db ≡ row_of s t e.db
unfolding update_seed_status update_seed
set_status-row s t seed status error e =
    if-row s t (validate_seed_status status) _ (e.db, false) e.db (exec-row s t _ e.db (λ d. refl))
      refl

pub mark_retired-row :
    (s t t' : ℕ) (reason : String) (db : Db)
    → t ≢ t'
    → row_of s t (mark_retired s t' reason db).0 ≡ row_of s t db
unfolding mark_retired
mark_retired-row s t t' reason db n = update_record-row s t t' _ db n (λ now r. refl)

pub mark_retired-IsClean :
    (s t : ℕ) (reason : String) (db : Db) → IsClean db → IsClean (mark_retired s t reason db).0
unfolding mark_retired
mark_retired-IsClean s t reason db h = update_record-IsClean s t _ db h

pub mark_retired-ok :
    (s t : ℕ) (reason : String) (db : Db) → IsClean db → (mark_retired s t reason db).1 ≡ true
unfolding mark_retired update_record exec
mark_retired-ok s t reason db h = rw h refl
