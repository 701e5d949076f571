-- ===== src/Pipeline/Success.antt =====
-- Publishing that returns nil, and the runs of `Relay` after it (backend/internal/pipeline).
use auto_seed_relay.Prelude.{
  ℕ, ◌≡◌, refl, ◌∙◌, Bool, true, false, List, [], ◌∷◌, ◌++◌, Option, none, some, String, arith,
  Bool-cases, Option-cases, inl, inr,
}
use auto_seed_relay.Store.Rows.{Db, RelayRecord, exec, query, find, spend, mem_str}
use auto_seed_relay.Store.Seeds.{validate_record_status}
use auto_seed_relay.Store.Records.{
  has_key, get_record, upsert_record, claim, claimed, update_record, set_record_role,
  mark_published, update_record_status,
}
use auto_seed_relay.Store.History.{find-update_where}
use auto_seed_relay.Pipeline.Publish.{
  RelayOne, Reply, accepted, refused, duplicate, auth_expired, other_error, Target, Job, is_done,
  with_db, set_role, cross_seed, finish_join, finish_cross_seed, settle_reply, send, after_claim,
  after_read, after_prepare, pending_record, publish_to_one_target,
}
use auto_seed_relay.Pipeline.Frame.{row_of, Leaves, Leaves-trans, append_log-row, cross_seed-row}
use auto_seed_relay.Pipeline.Clean.{
  IsClean, cross_seed-IsClean, set_record_role-IsClean, upsert_record-IsClean, get_record-IsClean,
}
use auto_seed_relay.Pipeline.Relay.{Inputs, relay}
use auto_seed_relay.Pipeline.Done.{IsDone, IsDone-Leaves, relay-Leaves}

abbrev HasRow : ℕ → ℕ → Db → Type 0
HasRow s t db = (r : RelayRecord) × (row_of s t db ≡ some r)

pub find-holds :
    (q : RelayRecord → Bool) (rows : List RelayRecord) {r : RelayRecord}
    → find q rows ≡ some r
    → q r ≡ true
find-holds q [] h = cc
find-holds q (x ∷ rows) {r} h = elim (Bool-cases (q x)) [
  | inl hit ↦ ground arith
  | inr miss ↦ find-holds q rows (rw miss at h)
]

find-append-new :
    (q : RelayRecord → Bool) (rows : List RelayRecord) (r : RelayRecord)
    → find q rows ≡ none
    → q r ≡ true
    → find q (rows ++ r ∷ []) ≡ some r
find-append-new q [] r h k = rw k refl
find-append-new q (x ∷ rows) r h k = elim (Bool-cases (q x)) [
  | inl hit ↦ ground arith
  | inr miss ↦ rw miss (find-append-new q rows r (rw miss at h) k)
]

pub update_record-hit :
    (s t : ℕ) (f : ℕ → RelayRecord → RelayRecord) (db : Db) (r : RelayRecord)
    → IsClean db
    → ((now : ℕ) (q : RelayRecord) → has_key s t (f now q) ≡ has_key s t q)
    → row_of s t db ≡ some r
    → row_of s t (update_record s t f db).0 ≡ some (f db.unixepoch r)
unfolding update_record exec
update_record-hit s t f db r h k e = rw h (
    find-update_where (has_key s t) (has_key s t) (f db.unixepoch) db.records (k db.unixepoch) e
    ∙ rw (find-holds (has_key s t) db.records e) refl)

set_record_role-HasRow :
    (s t : ℕ) (role : String) (db : Db)
    → IsClean db
    → HasRow s t db
    → HasRow s t (set_record_role s t role db).0
unfolding set_record_role
set_record_role-HasRow s t role db h (r, e) =
    (record r { role = role }, update_record-hit s t _ db r h (λ now q. refl) e)

upsert_record-HasRow :
    (s t : ℕ) (db : Db) → IsClean db → HasRow s t (upsert_record (pending_record s t) db).0
unfolding upsert_record claim validate_record_status mem_str
upsert_record-HasRow s t db h = elim (Option-cases (row_of s t db)) [
  | inl free ↦ (
    claimed (pending_record s t) (spend db),
    rw (h, free) (find-append-new (has_key s t) db.records _ free (ground arith)),
  )
  | inr (q, taken) ↦ (q, rw (h, taken) taken)
]

module _ (p : RelayOne) (s : ℕ) (site : Target) where
  finish_join-IsDone :
      (db : Db) (o : Option String) (j : Job)
      → IsClean db
      → HasRow s site.id db
      → (finish_join p s site.id (db, o) j).1 ≡ none
      → IsDone s site.id (finish_join p s site.id (db, o) j).0
  unfolding finish_join update_record_status validate_record_status mem_str is_done
  finish_join-IsDone db (some e) j h row n = cc
  finish_join-IsDone db none j h (r, e) n = (
    record r { status = "cross_seeding"; last_error = ""; updated_at = db.unixepoch },
    append_log-row s site.id s "info" "cross_seeding" _
        ∙ update_record-hit s site.id _ db r h (λ now q. refl) e,
    refl,
  )

  finish_cross_seed-IsDone :
      (j : Job)
      → IsClean j.db
      → HasRow s site.id j.db
      → (finish_cross_seed p s site j).1 ≡ none
      → IsDone s site.id (finish_cross_seed p s site j).0
  unfolding finish_cross_seed
  finish_cross_seed-IsDone j h (r, e) n =
      finish_join-IsDone (cross_seed s site.swarm j.db).0 (cross_seed s site.swarm j.db).1 j
        (cross_seed-IsClean s site.swarm j.db h) (r, cross_seed-row s site.id site.swarm j.db ∙ e) n

  settle_reply-IsDone :
      (reply : Reply) (j : Job)
      → IsClean j.db
      → HasRow s site.id j.db
      → (settle_reply p s site reply j).1 ≡ none
      → IsDone s site.id (settle_reply p s site reply j).0
  unfolding settle_reply mark_published is_done
  settle_reply-IsDone accepted j h (r, e) n = (
    _,
    append_log-row s site.id s "info" "published" _
        ∙ update_record-hit s site.id _ j.db r h (λ now q. refl) e,
    refl,
  )
  settle_reply-IsDone (refused d) j h row n = cc
  settle_reply-IsDone (duplicate d) j h row n =
      finish_cross_seed-IsDone (set_role s site.id "seeder" j)
        (set_record_role-IsClean s site.id "seeder" j.db h)
        (set_record_role-HasRow s site.id "seeder" j.db h row) n
  settle_reply-IsDone (auth_expired d) j h row n = cc
  settle_reply-IsDone (other_error d) j h row n = cc

  send-IsDone :
      (j : Job)
      → IsClean j.db
      → HasRow s site.id j.db
      → (send p s site j).1 ≡ none
      → IsDone s site.id (send p s site j).0
  unfolding send
  send-IsDone j h row n =
      settle_reply-IsDone site.reply (record j { sent = j.sent ++ site.id ∷ [] }) h row n

  after_claim-IsDone :
      (o : Option Bool) (j : Job)
      → IsClean j.db
      → HasRow s site.id j.db
      → (after_claim p s site o j).1 ≡ none
      → IsDone s site.id (after_claim p s site o j).0
  unfolding after_claim
  after_claim-IsDone none j h row n = cc
  after_claim-IsDone (some true) j h row n = send-IsDone j h row n
  after_claim-IsDone (some false) j h row n =
      finish_cross_seed-IsDone (set_role s site.id "seeder" j)
        (set_record_role-IsClean s site.id "seeder" j.db h)
        (set_record_role-HasRow s site.id "seeder" j.db h row) n

  after_read-IsDone :
      (o : Option (Option RelayRecord)) (j : Job)
      → IsClean j.db
      → o ≡ some (row_of s site.id j.db)
      → (after_read p s site o j).1 ≡ none
      → IsDone s site.id (after_read p s site o j).0
  unfolding after_read
  after_read-IsDone none j h e n = cc
  after_read-IsDone (some (some old)) j h e n = elim (Bool-cases (is_done old.status)) [
    | inl done ↦ rw done (old, cc, done)
    | inr live ↦ rw live (send-IsDone j h (old, cc) (rw live at n))
  ]
  after_read-IsDone (some none) j h e n =
      after_claim-IsDone _ _ (upsert_record-IsClean (pending_record s site.id) j.db h)
        (upsert_record-HasRow s site.id j.db h) n

  get_record_clean :
      (db : Db)
      → IsClean db
      → (get_record s site.id db).1 ≡ some (row_of s site.id (get_record s site.id db).0)
  unfolding get_record query
  get_record_clean db h = rw h refl

  after_prepare-IsDone :
      (o : Option String) (j : Job)
      → IsClean j.db
      → (after_prepare p s site o j).1 ≡ none
      → IsDone s site.id (after_prepare p s site o j).0
  unfolding after_prepare
  after_prepare-IsDone (some e) j h n = cc
  after_prepare-IsDone none j h n =
      after_read-IsDone (get_record s site.id j.db).1 (with_db (get_record s site.id j.db).0 j)
        (get_record-IsClean s site.id j.db h) (get_record_clean j.db h) n

  -- When no statement fails and `publishToOneTarget` returns nil, the target is done.
  pub publish-IsDone :
      (j : Job)
      → IsClean j.db
      → (publish_to_one_target p s site j).1 ≡ none
      → IsDone s site.id (publish_to_one_target p s site j).0
  unfolding publish_to_one_target
  publish-IsDone j h n = after_prepare-IsDone site.prepared j h n

-- Runs of `Relay` on one seed, each with what it meets and with the statements that fail in it.
unfoldable pub relay_runs : RelayOne → ℕ → List (List Bool × Inputs) → Job → Job
relay_runs p s [] j = j
relay_runs p s ((faults, inputs) ∷ runs) j =
    relay_runs p s runs (relay p inputs s (with_db (record j.db { faults = faults }) j)).0

relay_runs-Leaves :
    (p : RelayOne) (s t : ℕ) (runs : List (List Bool × Inputs)) (j : Job)
    → IsDone s t j
    → Leaves s t j (relay_runs p s runs j)
unfolding relay_runs
relay_runs-Leaves p s t [] j d = record { row = refl; quiet = refl }
relay_runs-Leaves p s t ((faults, inputs) ∷ runs) j d =
    let i = with_db (record j.db { faults = faults }) j in
    let same : Leaves s t j i = record { row = refl; quiet = refl } in
    let run = relay-Leaves p s t inputs i (IsDone-Leaves s t j i same d) in
    let k = (relay p inputs s i).0 in
    Leaves-trans s t j i (relay_runs p s runs k) same (
      Leaves-trans s t i k (relay_runs p s runs k) run
        (relay_runs-Leaves p s t runs k (IsDone-Leaves s t i k run (IsDone-Leaves s t j i same d))))

-- A target is published to once: if no statement fails while a target is published to and that returns
-- nil, then in all later runs of `Relay` on the seed, whatever they meet and whichever of their
-- statements fail, the target's record stays as it is and its site is not asked to publish.
pub published_once :
    (p : RelayOne) (s : ℕ) (site : Target) (j : Job) (runs : List (List Bool × Inputs))
    → j.db.faults ≡ []
    → (publish_to_one_target p s site j).1 ≡ none
    → let j' = (publish_to_one_target p s site j).0 in
      IsDone s site.id j' × Leaves s site.id j' (relay_runs p s runs j')
published_once p s site j runs h n =
    let done = publish-IsDone p s site j h n in (done, relay_runs-Leaves p s site.id runs _ done)
