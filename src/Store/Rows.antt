-- ===== src/Store/Rows.antt =====
-- The tables of backend/internal/store/models.go that the relay core uses, and how a statement runs.
-- SQLite itself is not under verification: each statement of the repository is the change that its SQL
-- text says, and it may fail. Whether the next statements fail is the list `faults`; a statement that
-- fails changes nothing. Rows stand in the order of their ids.
use text.Mathlib.Text.{◌==◌ as str_eq}
use auto_seed_relay.Prelude.{
  ℕ, Bool, true, false, List, [], ◌∷◌, Option, none, some, String, if◌then◌else◌,
}

-- `Seed`; the columns that nothing in the core reads are left out. A text is a String, an id a number.
pub record Seed : Type 0 where
  pub id : ℕ
  pub source_site : String
  pub info_hash : String
  pub title : String
  pub size : ℕ
  pub category : String
  pub promotion : String
  pub source_id : ℕ
  pub status : String
  pub error : String
  pub retry_count : ℕ
  pub updated_at : ℕ

-- `RelayRecord`; 0 stands for a time that is not set.
pub record RelayRecord : Type 0 where
  pub id : ℕ
  pub seed_id : ℕ
  pub target_id : ℕ
  pub role : String
  pub status : String
  pub attempts : ℕ
  pub last_error : String
  pub published_at : ℕ
  pub retired_at : ℕ
  pub retire_reason : String
  pub updated_at : ℕ

-- `Replica`; the progress, a float between 0 and 1, is kept in parts per million.
pub record Replica : Type 0 where
  pub id : ℕ
  pub seed_id : ℕ
  pub qb_id : ℕ
  pub info_hash : String
  pub role : String
  pub status : String
  pub progress : ℕ

-- `Activity`; seed 0 is not scoped to a seed.
pub record Activity : Type 0 where
  pub seed_id : ℕ
  pub level : String
  pub action : String

pub record Db : Type 0 where
  pub seeds : List Seed
  pub records : List RelayRecord
  pub replicas : List Replica
  pub seen : List (String × String)
  pub logs : List Activity
  pub next_seed : ℕ
  pub next_record : ℕ
  pub next_replica : ℕ
  pub unixepoch : ℕ
  pub faults : List Bool

-- The database when nothing was stored yet.
abbrev pub empty_db : List Bool → Db
empty_db faults = record {
  seeds = [];
  records = [];
  replicas = [];
  seen = [];
  logs = [];
  next_seed = 1;
  next_record = 1;
  next_replica = 1;
  unixepoch = 0;
  faults = faults;
}

-- Whether the next statement fails, with no fault after the end of the list.
abbrev pub next_fault : List Bool → Bool
next_fault [] = false
next_fault (b ∷ bs) = b

abbrev pub later_faults : List Bool → List Bool
later_faults [] = []
later_faults (b ∷ bs) = bs

abbrev pub spend : Db → Db
spend db = record db { faults = later_faults db.faults }

-- A statement that writes; the flag says that it returned no error.
unfoldable pub exec : (Db → Db) → Db → Db × Bool
exec f db = if next_fault db.faults then (spend db, false) else (f (spend db), true)

-- A query; `none` is an error other than sql.ErrNoRows.
unfoldable pub query {ℓ} : {A : Type ℓ} → (Db → A) → Db → Db × Option A
query f db = if next_fault db.faults then (spend db, none) else (spend db, some (f db))

-- `UPDATE … WHERE p`
abbrev pub update_where {ℓ} : {A : Type ℓ} → (A → Bool) → (A → A) → List A → List A
update_where p f [] = []
update_where p f (x ∷ xs) = (if p x then f x else x) ∷ update_where p f xs

-- The first row that satisfies `p`.
abbrev pub find {ℓ} : {A : Type ℓ} → (A → Bool) → List A → Option A
find p [] = none
find p (x ∷ xs) = if p x then some x else find p xs

unfoldable pub mem_str : String → List String → Bool
mem_str s [] = false
mem_str s (t ∷ ts) = if str_eq t s then true else mem_str s ts
