-- ===== src/Pipeline/Scenarios.antt =====
-- Runs of the pipeline (backend/internal/pipeline) on concrete targets.
use auto_seed_relay.Prelude.{
  ℕ, ◌<◌, ◌≡◌, ◌≢◌, refl, Bool, true, false, none, some, List, [], ◌∷◌, All, length, arith,
}
use auto_seed_relay.Store.Rows.{empty_db, exec, query, mem_str}
use auto_seed_relay.Store.Seeds.{append_log, validate_record_status}
use auto_seed_relay.Store.Records.{
  get_record, upsert_record, claim, update_record, mark_published, list_records_by_seed,
}
use auto_seed_relay.Engine.Submit.Job.{relayed, failed}
use auto_seed_relay.Pipeline.Publish.{
  RelayOne, Reply, accepted, other_error, Swarm, Target, Job, is_done, with_db, send, settle_reply,
  after_claim, after_read, publish_to_one_target,
}
use auto_seed_relay.Pipeline.Frame.{Leaves}
use auto_seed_relay.Pipeline.Relay.{
  Inputs, publish_to_targets, pending_targets, publish_pending, publish_all, summarise, failures,
  not_done, has_done,
}
use auto_seed_relay.Pipeline.Done.{IsDone}
use auto_seed_relay.Pipeline.Success.{relay_runs, published_once}
use auto_seed_relay.Pipeline.Outcome.{relayed-IsDone, retry_is_total}

abbrev relay_one : RelayOne
relay_one = record { now = 77; redact = λ s. s; normalize = λ s. s }

abbrev no_swarm : Swarm
no_swarm = record {
  selected = none;
  reannounced = none;
  same_hash = true;
  encoded = true;
  adds_skipping = true;
  adds_checking = true;
  completes = true;
  adds_again = true;
}

abbrev site : ℕ → Reply → Target
site id reply = record { id = id; prepared = none; reply = reply; swarm = no_swarm }

abbrev job : Job
job = record { db = empty_db []; notices = []; sent = [] }

abbrev good : Target
good = site 2 accepted

abbrev bad : Target
bad = site 3 (other_error "timeout")

published : (publish_to_one_target relay_one 1 good job).1 ≡ none
unfolding publish_to_one_target get_record query after_read upsert_record claim
    validate_record_status mem_str after_claim send settle_reply
published = refl

-- The next run meets both targets, and its third statement fails.
abbrev runs : List (List Bool × Inputs)
runs =
    (
      false ∷ false ∷ true ∷ [],
      record {
        active = true;
        located = true;
        has_torrent_id = true;
        promotion = some "";
        promotions = [];
        download = none;
        targets = some (good ∷ bad ∷ []);
      },
    )
    ∷ []

published_once_example :
    let j' = (publish_to_one_target relay_one 1 good job).0 in
    IsDone 1 2 j' × Leaves 1 2 j' (relay_runs relay_one 1 runs j')
published_once_example = published_once relay_one 1 good job runs refl published

good_run : (publish_pending relay_one 1 (good ∷ []) job).1 ≡ relayed
unfolding publish_pending pending_targets list_records_by_seed not_done has_done publish_all
    publish_to_targets summarise failures publish_to_one_target get_record query after_read
    upsert_record claim validate_record_status mem_str after_claim send settle_reply
good_run = refl

relayed-IsDone_example :
    All (λ x. IsDone 1 x.id (publish_pending relay_one 1 (good ∷ []) job).0) (good ∷ [])
relayed-IsDone_example = relayed-IsDone relay_one 1 (good ∷ []) job refl tt good_run

-- Target 2 is published, target 3 is not.
abbrev halfway : Job
halfway = (publish_to_one_target relay_one 1 good job).0

halfway-IsDone : IsDone 1 2 halfway
unfolding publish_to_one_target get_record query after_read upsert_record claim
    validate_record_status mem_str after_claim send settle_reply mark_published update_record exec
    append_log is_done
halfway-IsDone = (_, refl, refl)

pending_left : 0 < length (pending_targets 1 (good ∷ bad ∷ []) halfway.db).1
unfolding pending_targets list_records_by_seed not_done has_done publish_to_one_target get_record
    query after_read upsert_record claim validate_record_status mem_str after_claim send
    settle_reply mark_published update_record exec append_log is_done
pending_left = omega arith

pending_fails :
    let pending = pending_targets 1 (good ∷ bad ∷ []) halfway.db in
    All (λ r. r.1 ≢ none) (publish_to_targets relay_one 1 pending.1 (with_db pending.0 halfway)).1
unfolding pending_targets list_records_by_seed not_done has_done publish_to_targets
    publish_to_one_target get_record query after_read upsert_record claim validate_record_status
    mem_str after_claim send settle_reply mark_published update_record exec append_log is_done
pending_fails = (cc, tt)

retry_is_total_example :
    ((publish_pending relay_one 1 (good ∷ bad ∷ []) halfway).1
      ≡ failed false "relay failed for all targets")
    × IsDone 1 2 (publish_pending relay_one 1 (good ∷ bad ∷ []) halfway).0
retry_is_total_example =
    retry_is_total relay_one 1 2 (good ∷ bad ∷ []) halfway halfway-IsDone pending_left pending_fails
