-- ===== src/Store/Updates.antt =====
-- The invariant of the rows, and updates of rows (backend/internal/store).
use text.Mathlib.TextEquality.{eq_iff}
use auto_seed_relay.Prelude.{ℕ, ◌≡◌, Bool, true, arith, ◌==◌, All, Bool-cases, inl, inr}
use auto_seed_relay.Store.Rows.{Db, Seed, RelayRecord, exec, spend, next_fault}
use auto_seed_relay.Store.Seeds.{
  validate_seed_status, validate_record_status, has_hash, update_seed,
}
use auto_seed_relay.Store.Records.{has_key, update_record}
use auto_seed_relay.Store.Unique.{All-update_where, IsUnique, IsUnique-update_where}

abbrev pub same_hash : Seed → Seed → Bool
same_hash s t = has_hash s.source_site s.info_hash t

abbrev pub same_key : RelayRecord → RelayRecord → Bool
same_key r q = has_key r.seed_id r.target_id q

-- Every status is one of the whitelist, and every key stands once.
pub record IsValid (db : Db) : Type 0 where
  pub seed_status : All (λ s. validate_seed_status s.status ≡ true) db.seeds
  pub record_status : All (λ r. validate_record_status r.status ≡ true) db.records
  pub seed_key : IsUnique same_hash db.seeds
  pub record_key : IsUnique same_key db.records

pub same_hash_symm : (s t : Seed) → same_hash s t ≡ same_hash t s
same_hash_symm s t = ground (
  arith,
  eq_iff s.source_site t.source_site,
  eq_iff t.source_site s.source_site,
  eq_iff s.info_hash t.info_hash,
  eq_iff t.info_hash s.info_hash,
)

pub same_key_symm : (r q : RelayRecord) → same_key r q ≡ same_key q r
same_key_symm r q = ground arith

pub spend-IsValid : (db : Db) → IsValid db → IsValid (spend db)
spend-IsValid db v = record {
  seed_status = v.seed_status;
  record_status = v.record_status;
  seed_key = v.seed_key;
  record_key = v.record_key;
}

-- A statement keeps the invariant if the change that it makes does.
pub exec-IsValid :
    (f : Db → Db) (db : Db)
    → ((d : Db) → IsValid d → IsValid (f d))
    → IsValid db
    → IsValid (exec f db).0
unfolding exec
exec-IsValid f db k v = elim (Bool-cases (next_fault db.faults)) [
  | inl fault ↦ rw fault (spend-IsValid db v)
  | inr fine ↦ rw fine (k (spend db) (spend-IsValid db v))
]

-- An update of seed rows that leaves the key alone and the status valid.
pub update_seed-IsValid :
    (id : ℕ) (f : ℕ → Seed → Seed) (db : Db)
    → ((now : ℕ) (s : Seed)
        → validate_seed_status s.status ≡ true
        → validate_seed_status (f now s).status ≡ true)
    → ((now : ℕ) (s t : Seed) → same_hash s (f now t) ≡ same_hash s t)
    → ((now : ℕ) (s t : Seed) → same_hash (f now s) t ≡ same_hash s t)
    → IsValid db
    → IsValid (update_seed id f db).0
unfolding update_seed
update_seed-IsValid id f db k l m v =
    exec-IsValid _ db
      (λ d w. record {
        seed_status =
            All-update_where _ (λ s. s.id == id) (f d.unixepoch) d.seeds (k d.unixepoch)
              w.seed_status;
        record_status = w.record_status;
        seed_key =
            IsUnique-update_where same_hash (λ s. s.id == id) (f d.unixepoch) d.seeds
              (l d.unixepoch) (m d.unixepoch) w.seed_key;
        record_key = w.record_key;
      })
      v

pub update_record-IsValid :
    (seed target : ℕ) (f : ℕ → RelayRecord → RelayRecord) (db : Db)
    → ((now : ℕ) (r : RelayRecord)
        → validate_record_status r.status ≡ true
        → validate_record_status (f now r).status ≡ true)
    → ((now : ℕ) (r q : RelayRecord) → same_key r (f now q) ≡ same_key r q)
    → ((now : ℕ) (r q : RelayRecord) → same_key (f now r) q ≡ same_key r q)
    → IsValid db
    → IsValid (update_record seed target f db).0
unfolding update_record
update_record-IsValid seed target f db k l m v =
    exec-IsValid _ db
      (λ d w. record {
        seed_status = w.seed_status;
        record_status =
            All-update_where _ (has_key seed target) (f d.unixepoch) d.records (k d.unixepoch)
              w.record_status;
        seed_key = w.seed_key;
        record_key =
            IsUnique-update_where same_key (has_key seed target) (f d.unixepoch) d.records
              (l d.unixepoch) (m d.unixepoch) w.record_key;
      })
      v
