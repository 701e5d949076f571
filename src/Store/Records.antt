-- ===== src/Store/Records.antt =====
-- backend/internal/store/relay.go: one row for each seed and target, claimed once.
use auto_seed_relay.Prelude.{
  ℕ, ◌+◌, Bool, true, false, List, [], ◌∷◌, ◌++◌, Option, none, some, String, if◌then◌else◌, ◌==◌,
  ◌&&◌, keep,
}
use auto_seed_relay.Store.Rows.{Db, RelayRecord, exec, query, next_fault, spend, update_where, find}
use auto_seed_relay.Store.Seeds.{validate_record_status}

abbrev pub has_key : ℕ → ℕ → RelayRecord → Bool
has_key seed target r = (r.seed_id == seed) && (r.target_id == target)

unfoldable pub get_record : ℕ → ℕ → Db → Db × Option (Option RelayRecord)
get_record seed target = query (λ db. find (has_key seed target) db.records)

-- The row that a claim inserts: the retirement columns keep their defaults.
abbrev pub claimed : RelayRecord → Db → RelayRecord
claimed r db = record r {
  id = db.next_record;
  retired_at = 0;
  retire_reason = "";
  updated_at = db.unixepoch;
}

abbrev insert_record : RelayRecord → Db → Db
insert_record r db = record db {
  records = db.records ++ claimed r db ∷ [];
  next_record = db.next_record + 1;
}

-- ON CONFLICT DO NOTHING: the flag says whether a row was inserted.
unfoldable pub claim : RelayRecord → Option RelayRecord → Db → Db × Option Bool
claim r none db = (insert_record r db, some true)
claim r (some old) db = (db, some false)

-- `UpsertRecord`
unfoldable pub upsert_record : RelayRecord → Db → Db × Option Bool
upsert_record r db =
    if validate_record_status r.status
    then if next_fault db.faults
      then (spend db, none)
      else claim r (find (has_key r.seed_id r.target_id) db.records) (spend db)
    else (db, none)

unfoldable pub update_record : ℕ → ℕ → (ℕ → RelayRecord → RelayRecord) → Db → Db × Bool
update_record seed target f =
    exec (λ d. record d { records = update_where (has_key seed target) (f d.unixepoch) d.records })

unfoldable pub set_record_role : ℕ → ℕ → String → Db → Db × Bool
set_record_role seed target role = update_record seed target (λ now r. record r { role = role })

-- The first time of publication is kept.
unfoldable pub mark_published : ℕ → ℕ → ℕ → Db → Db × Bool
mark_published seed target at = update_record seed target (λ now r. record r {
  status = "published";
  last_error = "";
  published_at = if r.published_at == 0 then at else r.published_at;
  updated_at = now;
})

unfoldable pub update_record_status : ℕ → ℕ → String → String → Db → Db × Bool
update_record_status seed target status error db =
    if validate_record_status status
    then update_record seed target
        (λ now r. record r { status = status; last_error = error; updated_at = now }) db
    else (db, false)

unfoldable pub update_record_attempt : ℕ → ℕ → String → String → Db → Db × Bool
update_record_attempt seed target status error db =
    if validate_record_status status
    then update_record seed target
        (λ now r. record r {
          attempts = r.attempts + 1;
          status = status;
          last_error = error;
          updated_at = now;
        })
        db
    else (db, false)

unfoldable pub mark_retired : ℕ → ℕ → String → Db → Db × Bool
mark_retired seed target reason =
    update_record seed target
      (λ now r. record r { retired_at = now; retire_reason = reason; updated_at = now })

unfoldable pub list_records_by_seed : ℕ → Db → Db × Option (List RelayRecord)
list_records_by_seed seed = query (λ db. keep (λ r. r.seed_id == seed) db.records)
