-- ===== src/Pipeline/Clean.antt =====
-- Publishing to a target when no statement fails (backend/internal/pipeline/target.go).
use auto_seed_relay.Prelude.{
  ℕ, ◌≡◌, refl, ◌∙◌, Bool, true, false, [], ◌∷◌, ◌++◌, Option, none, some, String, arith,
  if◌then◌else◌, Bool-cases, inl, inr,
}
use auto_seed_relay.Store.Rows.{Db, RelayRecord, Replica, exec, query, next_fault, spend}
use auto_seed_relay.Store.Seeds.{
  append_log, validate_record_status, validate_seed_status, update_seed_status, update_seed,
}
use auto_seed_relay.Store.Records.{
  get_record, upsert_record, claim, update_record, set_record_role, mark_published,
  update_record_status, update_record_attempt,
}
use auto_seed_relay.Store.Replicas.{list_replicas, upsert_replica}
use auto_seed_relay.Pipeline.Publish.{
  RelayOne, Reply, accepted, refused, duplicate, auth_expired, other_error, Swarm, Target, Job,
  is_done, set_role, cross_seed, join_swarm, with_selected, cross_replica, finish_join,
  finish_cross_seed, settle_reply, send, after_claim, after_read, after_prepare, pending_record,
  publish_to_one_target,
}

-- No later statement fails.
abbrev pub IsClean : Db → Type 0
IsClean db = db.faults ≡ []

pub spend-IsClean : (db : Db) → IsClean db → IsClean (spend db)
spend-IsClean db h = rw h refl

pub exec-IsClean :
    (f : Db → Db) (db : Db)
    → ((d : Db) → (f d).faults ≡ d.faults)
    → IsClean db
    → IsClean (exec f db).0
unfolding exec
exec-IsClean f db k h = elim (Bool-cases (next_fault db.faults)) [
  | inl fault ↦ rw fault (spend-IsClean db h)
  | inr fine ↦ rw fine (k (spend db) ∙ spend-IsClean db h)
]

pub exec_clean : (f : Db → Db) (db : Db) → IsClean db → exec f db ≡ (f (spend db), true)
unfolding exec
exec_clean f db h = rw h refl

pub query_clean {ℓ} :
    {A : Type ℓ} (f : Db → A) (db : Db) → IsClean db → query f db ≡ (spend db, some (f db))
unfolding query
query_clean f db h = rw h refl

pub query-IsClean {ℓ} : {A : Type ℓ} (f : Db → A) (db : Db) → IsClean db → IsClean (query f db).0
unfolding query
query-IsClean f db h = rw h refl

pub get_record-IsClean : (s t : ℕ) (db : Db) → IsClean db → IsClean (get_record s t db).0
unfolding get_record
get_record-IsClean s t db h = query-IsClean _ db h

if-IsClean :
    (c : Bool) (x y : Db × Bool) → IsClean x.0 → IsClean y.0 → IsClean (if c then x else y).0
if-IsClean true x y h k = h
if-IsClean false x y h k = k

pub append_log-IsClean :
    (seed : ℕ) (level action : String) (db : Db)
    → IsClean db
    → IsClean (append_log seed level action db).0
unfolding append_log
append_log-IsClean seed level action db h = exec-IsClean _ db (λ d. refl) h

pub update_record-IsClean :
    (s t : ℕ) (f : ℕ → RelayRecord → RelayRecord) (db : Db)
    → IsClean db
    → IsClean (update_record s t f db).0
unfolding update_record
update_record-IsClean s t f db h = exec-IsClean _ db (λ d. refl) h

pub set_record_role-IsClean :
    (s t : ℕ) (role : String) (db : Db) → IsClean db → IsClean (set_record_role s t role db).0
unfolding set_record_role
set_record_role-IsClean s t role db h = update_record-IsClean s t _ db h

mark_published-IsClean : (s t at : ℕ) (db : Db) → IsClean db → IsClean (mark_published s t at db).0
unfolding mark_published
mark_published-IsClean s t at db h = update_record-IsClean s t _ db h

pub update_record_status-IsClean :
    (s t : ℕ) (status error : String) (db : Db)
    → IsClean db
    → IsClean (update_record_status s t status error db).0
unfolding update_record_status
update_record_status-IsClean s t status error db h =
    if-IsClean (validate_record_status status) _ (db, false) (update_record-IsClean s t _ db h) h

update_record_attempt-IsClean :
    (s t : ℕ) (status error : String) (db : Db)
    → IsClean db
    → IsClean (update_record_attempt s t status error db).0
unfolding update_record_attempt
update_record_attempt-IsClean s t status error db h =
    if-IsClean (validate_record_status status) _ (db, false) (update_record-IsClean s t _ db h) h

pub update_seed_status-IsClean :
    (s : ℕ) (status error : String) (db : Db)
    → IsClean db
    → IsClean (update_seed_status s status error db).0
unfolding update_seed_status update_seed
update_seed_status-IsClean s status error db h =
    if-IsClean (validate_seed_status status) _ (db, false) (exec-IsClean _ db (λ d. refl) h) h

upsert_replica-IsClean : (r : Replica) (db : Db) → IsClean db → IsClean (upsert_replica r db).0
unfolding upsert_replica
upsert_replica-IsClean r db h = exec-IsClean _ db (λ d. ground arith) h

join_swarm-IsClean :
    (s : ℕ) (w : Swarm) (qb : ℕ) (hash : Option String) (db : Db)
    → IsClean db
    → IsClean (join_swarm s w qb hash db).0
unfolding join_swarm
join_swarm-IsClean s w qb none db h = h
join_swarm-IsClean s w qb (some hash) db h =
    ground (arith, upsert_replica-IsClean (cross_replica s qb hash) db h)

with_selected-IsClean :
    (s : ℕ) (w : Swarm) (qb : Option ℕ) (db : Db) → IsClean db → IsClean (with_selected s w qb db).0
unfolding with_selected
with_selected-IsClean s w none db h = h
with_selected-IsClean s w (some qb) db h = join_swarm-IsClean s w qb w.reannounced db h

pub cross_seed-IsClean : (s : ℕ) (w : Swarm) (db : Db) → IsClean db → IsClean (cross_seed s w db).0
unfolding cross_seed list_replicas
cross_seed-IsClean s w db h = with_selected-IsClean s w w.selected _ (query-IsClean _ db h)

claim-IsClean :
    (r : RelayRecord) (o : Option RelayRecord) (db : Db) → IsClean db → IsClean (claim r o db).0
unfolding claim
claim-IsClean r none db h = h
claim-IsClean r (some old) db h = h

pub upsert_record-IsClean :
    (r : RelayRecord) (db : Db) → IsClean db → IsClean (upsert_record r db).0
unfolding upsert_record
upsert_record-IsClean r db h = elim (Bool-cases (validate_record_status r.status)) [
  | inl valid ↦ elim (Bool-cases (next_fault db.faults)) [
    | inl fault ↦ rw (valid, fault) (spend-IsClean db h)
    | inr fine ↦ rw (valid, fine) (claim-IsClean r _ (spend db) (spend-IsClean db h))
  ]
  | inr bad ↦ rw bad h
]

module _ (p : RelayOne) (s : ℕ) (site : Target) where
  finish_join-IsClean :
      (db : Db) (e : Option String) (j : Job)
      → IsClean db
      → IsClean (finish_join p s site.id (db, e) j).0.db
  unfolding finish_join
  finish_join-IsClean db (some e) j h =
      update_record_attempt-IsClean s site.id "failed" (p.redact e) db h
  finish_join-IsClean db none j h =
      append_log-IsClean s "info" "cross_seeding" _
        (update_record_status-IsClean s site.id "cross_seeding" "" db h)

  finish_cross_seed-IsClean : (j : Job) → IsClean j.db → IsClean (finish_cross_seed p s site j).0.db
  unfolding finish_cross_seed
  finish_cross_seed-IsClean j h =
      finish_join-IsClean (cross_seed s site.swarm j.db).0 (cross_seed s site.swarm j.db).1 j
        (cross_seed-IsClean s site.swarm j.db h)

  settle_reply-IsClean :
      (r : Reply) (j : Job) → IsClean j.db → IsClean (settle_reply p s site r j).0.db
  unfolding settle_reply
  settle_reply-IsClean accepted j h =
      append_log-IsClean s "info" "published" _ (mark_published-IsClean s site.id p.now j.db h)
  settle_reply-IsClean (refused e) j h =
      update_record_attempt-IsClean s site.id "failed" (p.redact e) j.db h
  settle_reply-IsClean (duplicate e) j h =
      finish_cross_seed-IsClean (set_role s site.id "seeder" j)
        (set_record_role-IsClean s site.id "seeder" j.db h)
  settle_reply-IsClean (auth_expired e) j h =
      append_log-IsClean s "warning" "auth_expired" _
        (update_record_attempt-IsClean s site.id "failed" (p.redact e) j.db h)
  settle_reply-IsClean (other_error e) j h =
      append_log-IsClean s "warning" "publish_failed" _
        (update_record_attempt-IsClean s site.id "failed" (p.redact e) j.db h)

  send-IsClean : (j : Job) → IsClean j.db → IsClean (send p s site j).0.db
  unfolding send
  send-IsClean j h = settle_reply-IsClean site.reply (record j { sent = j.sent ++ site.id ∷ [] }) h

  after_claim-IsClean :
      (o : Option Bool) (j : Job) → IsClean j.db → IsClean (after_claim p s site o j).0.db
  unfolding after_claim
  after_claim-IsClean none j h = h
  after_claim-IsClean (some true) j h = send-IsClean j h
  after_claim-IsClean (some false) j h =
      finish_cross_seed-IsClean (set_role s site.id "seeder" j)
        (set_record_role-IsClean s site.id "seeder" j.db h)

  after_read-IsClean :
      (o : Option (Option RelayRecord)) (j : Job)
      → IsClean j.db
      → IsClean (after_read p s site o j).0.db
  unfolding after_read
  after_read-IsClean none j h = h
  after_read-IsClean (some (some old)) j h = elim (Bool-cases (is_done old.status)) [
    | inl done ↦ rw done h
    | inr live ↦ rw live (send-IsClean j h)
  ]
  after_read-IsClean (some none) j h =
      after_claim-IsClean _ _ (upsert_record-IsClean (pending_record s site.id) j.db h)

  after_prepare-IsClean :
      (o : Option String) (j : Job) → IsClean j.db → IsClean (after_prepare p s site o j).0.db
  unfolding after_prepare get_record
  after_prepare-IsClean (some e) j h = h
  after_prepare-IsClean none j h = after_read-IsClean _ _ (query-IsClean _ j.db h)

  -- When no statement fails during a publish, none is left to fail after it.
  pub publish-IsClean : (j : Job) → IsClean j.db → IsClean (publish_to_one_target p s site j).0.db
  unfolding publish_to_one_target
  publish-IsClean j h = after_prepare-IsClean site.prepared j h
