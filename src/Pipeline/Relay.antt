-- ===== src/Pipeline/Relay.antt =====
-- `Relay` of backend/internal/pipeline/pipeline.go. What the source site, the configuration and the
-- download answer during one run is an argument. The goroutines of `publishToTargets` write rows of
-- different targets; they are taken one after the other.
use text.Mathlib.Text.{◌==◌ as str_eq}
use auto_seed_relay.Prelude.{
  ℕ, Bool, true, false, List, [], ◌∷◌, Option, none, some, String, if◌then◌else◌, ltb, ◌==◌, length,
  not, keep,
}
use auto_seed_relay.Store.Rows.{Db, Seed, RelayRecord}
use auto_seed_relay.Store.Seeds.{get_seed_by_id, update_seed_status, update_seed_promotion}
use auto_seed_relay.Store.Records.{list_records_by_seed}
use auto_seed_relay.Engine.Submit.Job.{Attempt, relayed, failed}
use auto_seed_relay.Pipeline.Publish.{
  RelayOne, Target, Job, with_db, log, is_done, publish_to_one_target,
}

-- Whether an active source is found, whether it has the item, whether that has a torrent id; the
-- promotion in the detail, if that is fetched; the strategy's whitelist of promotions, empty if there is
-- none; the error of `downloadAndParse`; the enabled targets, if they are listed.
pub record Inputs : Type 0 where
  pub active : Bool
  pub located : Bool
  pub has_torrent_id : Bool
  pub promotion : Option String
  pub promotions : List String
  pub download : Option String
  pub targets : Option (List Target)

-- The job and what `Relay` returns.
abbrev pub Run : Type 0
Run = Job × Attempt

abbrev pub give_up : String → Job → Run
give_up e j = (j, failed false e)

-- `UpdateSeedStatus`, its error dropped.
abbrev pub set_seed : ℕ → String → String → Job → Job
set_seed seed status error j = with_db (update_seed_status seed status error j.db).0 j

-- Whether a target is among the records that are done.
unfoldable pub has_done : ℕ → List RelayRecord → Bool
has_done t [] = false
has_done t (r ∷ rows) =
    let rest = has_done t rows in
    if r.target_id == t then if is_done r.status then true else rest else rest

unfoldable pub not_done : Option (List RelayRecord) → List Target → List Target
not_done none targets = targets
not_done (some rows) targets = keep (λ t. not (has_done t.id rows)) targets

-- `pendingTargets`
unfoldable pub pending_targets : ℕ → List Target → Db → Db × List Target
pending_targets seed targets db =
    let (db', rows) = list_records_by_seed seed db in (db', not_done rows targets)

-- `publishToTargets`: each target with its error.
unfoldable pub publish_to_targets :
    RelayOne → ℕ → List Target → Job → Job × List (ℕ × Option String)
publish_to_targets p seed [] j = (j, [])
publish_to_targets p seed (t ∷ ts) j =
    let (j', e) = publish_to_one_target p seed t j in
    let (j'', results) = publish_to_targets p seed ts j' in (j'', (t.id, e) ∷ results)

unfoldable pub failures : List (ℕ × Option String) → List (ℕ × String)
failures [] = []
failures ((t, none) ∷ results) = failures results
failures ((t, some e) ∷ results) = (t, e) ∷ failures results

-- What `Relay` makes of the results.
unfoldable pub summarise : ℕ → List (ℕ × Option String) → Job → Run
unfolding failures
summarise seed results j =
    if length (failures results) == 0
    then (set_seed seed "seeding" "" j, relayed)
    else if ltb (length (failures results)) (length results)
    then (j, failed true "partial failure")
    else (j, failed false "relay failed for all targets")

unfoldable pub publish_all : RelayOne → ℕ → List Target → Job → Run
publish_all p seed [] j = (set_seed seed "seeding" "" j, relayed)
publish_all p seed (t ∷ ts) j =
    let (j', results) = publish_to_targets p seed (t ∷ ts) j in summarise seed results j'

-- `Relay` from the list of targets on.
unfoldable pub publish_pending : RelayOne → ℕ → List Target → Job → Run
publish_pending p seed targets j =
    let (db, pending) = pending_targets seed targets j.db in
    publish_all p seed pending (with_db db j)

unfoldable pub after_targets : RelayOne → ℕ → Option (List Target) → Job → Run
after_targets p seed none j = give_up "list targets" j
after_targets p seed (some []) j = give_up "no enabled targets" j
after_targets p seed (some (t ∷ ts)) j = publish_pending p seed (t ∷ ts) j

unfoldable pub after_download : RelayOne → Inputs → ℕ → Option String → Job → Run
after_download p inputs seed (some e) j = give_up e j
after_download p inputs seed none j =
    after_targets p seed inputs.targets (set_seed seed "downloaded" "" j)

-- `checkPromotionFilter`, without its effect.
unfoldable pub passes_promotion : (String → String) → List String → String → Bool
passes_promotion normalize [] promotion = true
passes_promotion normalize (w ∷ ws) promotion =
    if str_eq (normalize promotion) "" then false else listed (w ∷ ws)
  where
    listed : List String → Bool
    listed [] = false
    listed (v ∷ vs) = if str_eq (normalize v) (normalize promotion) then true else listed vs

-- `skipSeed`
abbrev pub skip_seed : ℕ → String → Job → Job
skip_seed seed detail j = log seed "info" "promotion_filter" (set_seed seed "skipped" detail j)

unfoldable pub after_filter : RelayOne → Inputs → ℕ → Bool → Job → Run
after_filter p inputs seed false j = (skip_seed seed "promotion" j, relayed)
after_filter p inputs seed true j =
    after_download p inputs seed inputs.download (set_seed seed "downloading" "" j)

unfoldable pub after_detail : RelayOne → Inputs → ℕ → Option String → Job → Run
after_detail p inputs seed none j = give_up "fetch detail" j
after_detail p inputs seed (some promotion) j =
    after_filter p inputs seed (passes_promotion p.normalize inputs.promotions promotion)
      (if str_eq promotion "" then j else with_db (update_seed_promotion seed promotion j.db).0 j)

unfoldable pub after_load : RelayOne → Inputs → ℕ → Option (Option Seed) → Job → Run
after_load p inputs seed none j = give_up "load seed" j
after_load p inputs seed (some none) j = give_up "load seed" j
after_load p inputs seed (some (some row)) j =
    if inputs.active
    then if inputs.located
      then if inputs.has_torrent_id
        then after_detail p inputs seed inputs.promotion (set_seed seed "processing" "" j)
        else give_up "source item has no torrent id" (set_seed seed "processing" "" j)
      else give_up "locate source item" (set_seed seed "processing" "" j)
    else give_up "no active source" (set_seed seed "processing" "" j)

-- `Relay`
unfoldable pub relay : RelayOne → Inputs → ℕ → Job → Run
relay p inputs seed j =
    let (db, row) = get_seed_by_id seed j.db in after_load p inputs seed row (with_db db j)
