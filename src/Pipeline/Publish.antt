-- ===== src/Pipeline/Publish.antt =====
-- `publishToOneTarget`, `finishCrossSeed` and `crossSeed` of backend/internal/pipeline/target.go. What a
-- target site, qBittorrent and the torrent parser answer during one attempt is an argument; whether the
-- site is asked to publish is recorded in `sent`. The texts of logs and notices are left out, and an
-- error is the text that it wraps.
use auto_seed_relay.Prelude.{
  ℕ, Bool, true, false, List, [], ◌∷◌, ◌++◌, Option, none, some, String, if◌then◌else◌, ◌||◌,
}
use auto_seed_relay.Store.Rows.{Db, RelayRecord, Replica, mem_str}
use auto_seed_relay.Store.Seeds.{append_log}
use auto_seed_relay.Store.Records.{
  get_record, upsert_record, set_record_role, mark_published, update_record_status,
  update_record_attempt,
}
use auto_seed_relay.Store.Replicas.{list_replicas, upsert_replica}
use auto_seed_relay.Engine.Submit.Job.{Level, info, warning, Notice}

-- The clock, `source.RedactError` and `source.NormalizePromotion`.
pub record RelayOne : Type 0 where
  pub now : ℕ
  pub redact : String → String
  pub normalize : String → String

-- What `Publish` returns: a result with OK set or not, or an error by its class.
pub data Reply : Type 0 where
  accepted : Reply
  refused duplicate auth_expired other_error : String → Reply

-- What cross-seeding meets: the qB instance that is selected, by its id; the info hash of the torrent
-- for the target's announce, whether it is that of the seed, whether it is encoded; whether qB takes the
-- torrent without and with checking, whether it completes in time, and whether it is taken again.
pub record Swarm : Type 0 where
  pub selected : Option ℕ
  pub reannounced : Option String
  pub same_hash : Bool
  pub encoded : Bool
  pub adds_skipping : Bool
  pub adds_checking : Bool
  pub completes : Bool
  pub adds_again : Bool

-- A target, with what it answers; `prepared` is the error of building its configuration, its adapter or
-- its torrent.
pub record Target : Type 0 where
  pub id : ℕ
  pub prepared : Option String
  pub reply : Reply
  pub swarm : Swarm

pub record Job : Type 0 where
  pub db : Db
  pub notices : List Notice
  pub sent : List ℕ

-- A job and the error it returns.
abbrev pub Step : Type 0
Step = Job × Option String

-- `doneRecordStatuses`
unfoldable pub is_done : String → Bool
unfolding mem_str
is_done status = mem_str status ("published" ∷ "cross_seeding" ∷ "seeding" ∷ "retired" ∷ [])

abbrev pub with_db : Db → Job → Job
with_db db j = record j { db = db }

abbrev pub say : Level → String → Job → Job
say level event j = record j { notices = j.notices ++ record { level = level; event = event } ∷ [] }

abbrev pub log : ℕ → String → String → Job → Job
log seed level action j = with_db (append_log seed level action j.db).0 j

-- `UpdateRecordAttempt` with "failed", its error dropped.
abbrev pub fail_record : ℕ → ℕ → String → Job → Job
fail_record seed target error j =
    with_db (update_record_attempt seed target "failed" error j.db).0 j

abbrev pub set_role : ℕ → ℕ → String → Job → Job
set_role seed target role j = with_db (set_record_role seed target role j.db).0 j

abbrev pub cross_replica : ℕ → ℕ → String → Replica
cross_replica seed qb hash = record {
  id = 0;
  seed_id = seed;
  qb_id = qb;
  info_hash = hash;
  role = "cross";
  status = "seeding";
  progress = 1_000_000;
}

abbrev pub put_replica : Replica → Db → Db × Option String
put_replica r db =
    let (db', ok) = upsert_replica r db in (db', if ok then none else some "upsert replica")

-- From the torrent for the target's announce on.
unfoldable pub join_swarm : ℕ → Swarm → ℕ → Option String → Db → Db × Option String
join_swarm seed s qb none db = (db, some "reannounce")
join_swarm seed s qb (some hash) db =
    if s.same_hash
    then if s.encoded
      then if s.adds_skipping || s.adds_checking
        then if s.completes || s.adds_again
          then put_replica (cross_replica seed qb hash) db
          else (db, some "cross-seed fallback add")
        else (db, some "add cross-seed torrent")
      else (db, some "encode cross-seed torrent")
    else (db, some "reannounced info_hash")

unfoldable pub with_selected : ℕ → Swarm → Option ℕ → Db → Db × Option String
unfolding join_swarm
with_selected seed s none db = (db, some "no qB instance available for cross-seed")
with_selected seed s (some qb) db = join_swarm seed s qb s.reannounced db

-- `crossSeed`; it reads the replicas of the seed to find the qB instance of its origin.
unfoldable pub cross_seed : ℕ → Swarm → Db → Db × Option String
unfolding with_selected
cross_seed seed s db = with_selected seed s s.selected (list_replicas seed db).0

unfoldable pub finish_join : RelayOne → ℕ → ℕ → Db × Option String → Job → Step
finish_join p seed target (db, some e) j =
    (fail_record seed target (p.redact e) (with_db db j), some e)
finish_join p seed target (db, none) j = (
  say info "cross_seeded" (
      log seed "info" "cross_seeding"
        (with_db (update_record_status seed target "cross_seeding" "" db).0 j)),
  none,
)

unfoldable pub finish_cross_seed : RelayOne → ℕ → Target → Job → Step
unfolding finish_join
finish_cross_seed p seed t j = finish_join p seed t.id (cross_seed seed t.swarm j.db) j

-- What follows the answer of the site.
unfoldable pub settle_reply : RelayOne → ℕ → Target → Reply → Job → Step
settle_reply p seed t accepted j = (
  say info "published"
      (log seed "info" "published" (with_db (mark_published seed t.id p.now j.db).0 j)),
  none,
)
settle_reply p seed t (refused detail) j = (fail_record seed t.id (p.redact detail) j, some detail)
settle_reply p seed t (duplicate e) j = finish_cross_seed p seed t (set_role seed t.id "seeder" j)
settle_reply p seed t (auth_expired e) j = (
  say warning "auth_expired"
      (log seed "warning" "auth_expired" (fail_record seed t.id (p.redact e) j)),
  some e,
)
settle_reply p seed t (other_error e) j = (
  say warning "publish_failed"
      (log seed "warning" "publish_failed" (fail_record seed t.id (p.redact e) j)),
  some e,
)

unfoldable pub send : RelayOne → ℕ → Target → Job → Step
send p seed t j = settle_reply p seed t t.reply (record j { sent = j.sent ++ t.id ∷ [] })

abbrev pub pending_record : ℕ → ℕ → RelayRecord
pending_record seed target = record {
  id = 0;
  seed_id = seed;
  target_id = target;
  role = "publisher";
  status = "pending";
  attempts = 0;
  last_error = "";
  published_at = 0;
  retired_at = 0;
  retire_reason = "";
  updated_at = 0;
}

-- What follows `UpsertRecord`: a claim that is lost is a cross-seed.
unfoldable pub after_claim : RelayOne → ℕ → Target → Option Bool → Job → Step
after_claim p seed t none j = (j, some "claim record")
after_claim p seed t (some true) j = send p seed t j
after_claim p seed t (some false) j = finish_cross_seed p seed t (set_role seed t.id "seeder" j)

-- What follows `GetRecord`.
unfoldable pub after_read : RelayOne → ℕ → Target → Option (Option RelayRecord) → Job → Step
after_read p seed t none j = (j, some "get record")
after_read p seed t (some (some old)) j = if is_done old.status then (j, none) else send p seed t j
after_read p seed t (some none) j =
    let (db, inserted) = upsert_record (pending_record seed t.id) j.db in
    after_claim p seed t inserted (with_db db j)

unfoldable pub after_prepare : RelayOne → ℕ → Target → Option String → Job → Step
after_prepare p seed t (some e) j = (j, some e)
after_prepare p seed t none j =
    let (db, row) = get_record seed t.id j.db in after_read p seed t row (with_db db j)

-- `publishToOneTarget`
unfoldable pub publish_to_one_target : RelayOne → ℕ → Target → Job → Step
unfolding after_prepare
publish_to_one_target p seed t j = after_prepare p seed t t.prepared j
