-- ===== src/Store/Seeds.antt =====
-- backend/internal/store/seeds.go, status.go, seen.go and activity.go. An operation returns the
-- database and its result; `none` or `false` is an error.
use text.Mathlib.Text.{◌==◌ as str_eq}
use auto_seed_relay.Prelude.{
  ℕ, ◌+◌, Bool, true, false, List, [], ◌∷◌, ◌++◌, Option, none, some, String, if◌then◌else◌, ◌==◌,
  ◌&&◌, keep,
}
use auto_seed_relay.Store.Rows.{
  Db, Seed, exec, query, next_fault, spend, update_where, find, mem_str,
}

-- `seedStatuses` and `recordStatuses`.
abbrev pub seed_statuses : List String
seed_statuses =
    "discovered" ∷ "downloading" ∷ "downloaded" ∷ "processing" ∷ "seeding" ∷ "retry" ∷ "failed"
    ∷ "retired" ∷ "skipped" ∷ []

abbrev pub record_statuses : List String
record_statuses =
    "pending" ∷ "uploading" ∷ "published" ∷ "cross_seeding" ∷ "seeding" ∷ "failed" ∷ "retired"
    ∷ "skipped_existing" ∷ []

unfoldable pub validate_seed_status : String → Bool
validate_seed_status s = mem_str s seed_statuses

unfoldable pub validate_record_status : String → Bool
validate_record_status s = mem_str s record_statuses

abbrev pub has_hash : String → String → Seed → Bool
has_hash site hash s = str_eq s.source_site site && str_eq s.info_hash hash

unfoldable pub get_seed_by_id : ℕ → Db → Db × Option (Option Seed)
get_seed_by_id id = query (λ db. find (λ s. s.id == id) db.seeds)

-- `some none` is sql.ErrNoRows.
unfoldable pub get_seed_by_hash : String → String → Db → Db × Option (Option Seed)
get_seed_by_hash site hash = query (λ db. find (has_hash site hash) db.seeds)

abbrev pub insert_seed : Seed → Db → Db
insert_seed s db = record db {
  seeds = db.seeds ++ record s { id = db.next_seed; updated_at = db.unixepoch } ∷ [];
  next_seed = db.next_seed + 1;
}

abbrev found_id : Option (Option Seed) → Option ℕ
found_id none = none
found_id (some none) = none
found_id (some (some old)) = some old.id

-- What the INSERT does: on a conflict nothing, and a second statement looks the id up.
unfoldable pub inserted : Seed → Option Seed → Db → Db × Option ℕ
inserted s none db = (insert_seed s db, some db.next_seed)
inserted s (some old) db =
    let (d, found) = get_seed_by_hash s.source_site s.info_hash db in (d, found_id found)

-- `CreateSeed`: ON CONFLICT DO NOTHING leaves an existing row alone.
unfoldable pub create_seed : Seed → Db → Db × Option ℕ
create_seed s db =
    if validate_seed_status s.status
    then if next_fault db.faults
      then (spend db, none)
      else inserted s (find (has_hash s.source_site s.info_hash) db.seeds) (spend db)
    else (db, none)

-- `UPDATE seeds SET … WHERE id = ?`; the change is given the time of the database.
unfoldable pub update_seed : ℕ → (ℕ → Seed → Seed) → Db → Db × Bool
update_seed id f =
    exec (λ d. record d { seeds = update_where (λ s. s.id == id) (f d.unixepoch) d.seeds })

unfoldable pub update_seed_status : ℕ → String → String → Db → Db × Bool
update_seed_status id status error db =
    if validate_seed_status status
    then update_seed id (λ now s. record s { status = status; error = error; updated_at = now }) db
    else (db, false)

unfoldable pub update_seed_promotion : ℕ → String → Db → Db × Bool
update_seed_promotion id promotion =
    update_seed id (λ now s. record s { promotion = promotion; updated_at = now })

unfoldable pub bump_retry : ℕ → Db → Db × Bool
bump_retry id =
    update_seed id (λ now s. record s { retry_count = s.retry_count + 1; updated_at = now })

unfoldable pub list_seeds_by_status : String → Db → Db × Option (List Seed)
list_seeds_by_status status = query (λ db. keep (λ s. str_eq s.status status) db.seeds)

abbrev pub is_seen : String → String → List (String × String) → Bool
is_seen site hash [] = false
is_seen site hash ((s, h) ∷ rest) =
    if str_eq s site && str_eq h hash then true else is_seen site hash rest

-- `MarkSeen`: INSERT OR IGNORE.
unfoldable pub mark_seen : String → String → Db → Db × Bool
mark_seen site hash =
    exec
      (λ d. if is_seen site hash d.seen then d else record d { seen = d.seen ++ (site, hash) ∷ [] })

unfoldable pub has_seen : String → String → Db → Db × Option Bool
has_seen site hash = query (λ db. is_seen site hash db.seen)

-- `AppendLog` is seed 0.
unfoldable pub append_log : ℕ → String → String → Db → Db × Bool
append_log seed level action = exec (λ d. record d {
  logs = d.logs ++ record { seed_id = seed; level = level; action = action } ∷ [];
})
