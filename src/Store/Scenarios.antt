-- ===== src/Store/Scenarios.antt =====
-- Runs of the statements of backend/internal/store on concrete rows.
use auto_seed_relay.Prelude.{◌≡◌, ◌≢◌, refl, true, false, some, List, [], ◌∷◌}
use auto_seed_relay.Store.Rows.{Db, Seed, RelayRecord, empty_db, find, mem_str}
use auto_seed_relay.Store.Seeds.{validate_record_status}
use auto_seed_relay.Store.Records.{has_key, upsert_record, claim}
use auto_seed_relay.Store.Operations.{
  Operation, apply_all, creates_seed, sets_seed_status, marks_seen, claims_record, publishes,
  attempts,
}
use auto_seed_relay.Store.Updates.{IsValid}
use auto_seed_relay.Store.History.{Lasts, any_retirement}
use auto_seed_relay.Store.Promises.{statements-IsValid, record-Lasts, claim_once}

abbrev seed : Seed
seed = record {
  id = 0;
  source_site = "mteam";
  info_hash = "abcd";
  title = "t";
  size = 1;
  category = "";
  promotion = "free";
  source_id = 1;
  status = "discovered";
  error = "";
  retry_count = 0;
  updated_at = 0;
}

abbrev row : RelayRecord
row = record {
  id = 0;
  seed_id = 1;
  target_id = 2;
  role = "publisher";
  status = "pending";
  attempts = 0;
  last_error = "";
  published_at = 0;
  retired_at = 0;
  retire_reason = "";
  updated_at = 0;
}

-- The second statement fails; the third has a status that is not in the whitelist.
abbrev history : List Operation
history =
    creates_seed seed
    ∷ claims_record row
    ∷ sets_seed_status 1 "published" ""
    ∷ claims_record row
    ∷ publishes 1 2 77
    ∷ marks_seen "mteam" "abcd"
    ∷ []

statements-IsValid_example : IsValid (apply_all history (empty_db (false ∷ true ∷ [])))
statements-IsValid_example = statements-IsValid (false ∷ true ∷ []) history

abbrev claimed_db : Db
claimed_db = (upsert_record row (empty_db [])).0

claimed_now : (upsert_record row (empty_db [])).1 ≡ some true
unfolding upsert_record claim validate_record_status mem_str
claimed_now = refl

claimed_row : find (has_key 1 2) claimed_db.records ≡ some (record row { id = 1 })
unfolding upsert_record claim validate_record_status mem_str
claimed_row = refl

abbrev afterwards : List Operation
afterwards = publishes 1 2 77 ∷ attempts 1 2 "failed" "timeout" ∷ publishes 1 2 99 ∷ []

record-Lasts_example :
    Lasts
      (any_retirement afterwards)
      1
      2
      (record row { id = 1 })
      (apply_all afterwards claimed_db).records
record-Lasts_example = record-Lasts afterwards 1 2 (record row { id = 1 }) claimed_db claimed_row

claim_once_example :
    (upsert_record (record row { status = "uploading" }) (apply_all afterwards claimed_db)).1
    ≢ some true
claim_once_example =
    claim_once row (record row { status = "uploading" }) afterwards (empty_db []) refl refl
      claimed_now
