-- ===== src/Store/Invariant.antt =====
-- The whitelists of backend/internal/store/status.go and the UNIQUE keys, under every statement.
use auto_seed_relay.Prelude.{
  ◌≡◌, refl, Bool, true, false, Option, none, some, arith, if◌then◌else◌, All-append,
}
use auto_seed_relay.Store.Rows.{Db, Seed, RelayRecord, query, spend, next_fault, find, mem_str}
use auto_seed_relay.Store.Seeds.{
  validate_seed_status, validate_record_status, has_hash, create_seed, get_seed_by_hash, inserted,
  insert_seed, update_seed_status, update_seed_promotion, bump_retry, mark_seen, append_log,
}
use auto_seed_relay.Store.Records.{
  has_key, upsert_record, claim, set_record_role, mark_published, update_record_status,
  update_record_attempt, mark_retired,
}
use auto_seed_relay.Store.Replicas.{upsert_replica, update_replica_progress, delete_replica}
use auto_seed_relay.Store.Unique.{find-none-All, IsUnique-append}
use auto_seed_relay.Store.Operations.{
  Operation, apply, creates_seed, sets_seed_status, sets_promotion, bumps_retry, marks_seen,
  appends_log, claims_record, sets_role, publishes, sets_record_status, attempts, retires,
  puts_replica, sets_progress, drops_replica,
}
use auto_seed_relay.Store.Updates.{
  same_hash, same_key, IsValid, same_hash_symm, same_key_symm, spend-IsValid, exec-IsValid,
  update_seed-IsValid, update_record-IsValid,
}

insert_seed-IsValid :
    (s : Seed) (db : Db)
    → validate_seed_status s.status ≡ true
    → find (has_hash s.source_site s.info_hash) db.seeds ≡ none
    → IsValid db
    → IsValid (insert_seed s db)
insert_seed-IsValid s db h e v = record {
  seed_status = All-append _ db.seeds _ v.seed_status (h, tt);
  record_status = v.record_status;
  seed_key =
      IsUnique-append same_hash db.seeds _ same_hash_symm (find-none-All same_hash _ db.seeds e)
        v.seed_key;
  record_key = v.record_key;
}

insert_record-IsValid :
    (r : RelayRecord) (db : Db)
    → validate_record_status r.status ≡ true
    → find (has_key r.seed_id r.target_id) db.records ≡ none
    → IsValid db
    → IsValid (claim r none db).0
unfolding claim
insert_record-IsValid r db h e v = record {
  seed_status = v.seed_status;
  record_status = All-append _ db.records _ v.record_status (h, tt);
  seed_key = v.seed_key;
  record_key =
      IsUnique-append same_key db.records _ same_key_symm (find-none-All same_key _ db.records e)
        v.record_key;
}

claim-IsValid :
    (r : RelayRecord) (o : Option RelayRecord) (db : Db)
    → validate_record_status r.status ≡ true
    → find (has_key r.seed_id r.target_id) db.records ≡ o
    → IsValid db
    → IsValid (claim r o db).0
claim-IsValid r none db h e v = insert_record-IsValid r db h e v
claim-IsValid r (some old) db h e v = unfold claim in v

if-IsValid {ℓ} :
    {B : Type ℓ} (b : Bool) (x y : Db × B)
    → (b ≡ true → IsValid x.0)
    → (b ≡ false → IsValid y.0)
    → IsValid (if b then x else y).0
if-IsValid true x y h k = h refl
if-IsValid false x y h k = k refl

upsert_record-IsValid : (r : RelayRecord) (db : Db) → IsValid db → IsValid (upsert_record r db).0
unfolding upsert_record
upsert_record-IsValid r db v =
    if-IsValid (validate_record_status r.status) _ _
      (λ good.
        if-IsValid (next_fault db.faults) _ _ (λ _. spend-IsValid db v)
          (λ _. claim-IsValid r _ (spend db) good refl (spend-IsValid db v)))
      (λ _. v)

query-IsValid {ℓ} : {A : Type ℓ} (f : Db → A) (db : Db) → IsValid db → IsValid (query f db).0
unfolding query
query-IsValid f db v =
    if-IsValid (next_fault db.faults) _ _ (λ _. spend-IsValid db v) (λ _. spend-IsValid db v)

inserted-IsValid :
    (s : Seed) (o : Option Seed) (db : Db)
    → validate_seed_status s.status ≡ true
    → find (has_hash s.source_site s.info_hash) db.seeds ≡ o
    → IsValid db
    → IsValid (inserted s o db).0
unfolding inserted get_seed_by_hash
inserted-IsValid s none db h e v = insert_seed-IsValid s db h e v
inserted-IsValid s (some old) db h e v = query-IsValid _ db v

create_seed-IsValid : (s : Seed) (db : Db) → IsValid db → IsValid (create_seed s db).0
unfolding create_seed
create_seed-IsValid s db v =
    if-IsValid (validate_seed_status s.status) _ _
      (λ good.
        if-IsValid (next_fault db.faults) _ _ (λ _. spend-IsValid db v)
          (λ _. inserted-IsValid s _ (spend db) good refl (spend-IsValid db v)))
      (λ _. v)

published_valid : validate_record_status "published" ≡ true
unfolding validate_record_status mem_str
published_valid = refl

-- Every statement keeps the invariant, whether or not it fails.
pub apply-IsValid : (o : Operation) (db : Db) → IsValid db → IsValid (apply o db)
unfolding apply update_seed_status update_seed_promotion bump_retry mark_seen append_log
    set_record_role mark_published update_record_status update_record_attempt mark_retired
    upsert_replica update_replica_progress delete_replica
apply-IsValid (creates_seed s) db v = create_seed-IsValid s db v
apply-IsValid (sets_seed_status id status error) db v =
    if-IsValid (validate_seed_status status) _ _
      (λ good. update_seed-IsValid _ _ db (λ now s _. good) (λ now s t. refl) (λ now s t. refl) v)
      (λ _. v)
apply-IsValid (sets_promotion id promotion) db v =
    update_seed-IsValid _ _ db (λ now s h. h) (λ now s t. refl) (λ now s t. refl) v
apply-IsValid (bumps_retry id) db v =
    update_seed-IsValid _ _ db (λ now s h. h) (λ now s t. refl) (λ now s t. refl) v
apply-IsValid (marks_seen site hash) db v = exec-IsValid _ db (λ d w. ground arith) v
apply-IsValid (appends_log seed level action) db v = exec-IsValid _ db (λ d w. ground arith) v
apply-IsValid (claims_record r) db v = upsert_record-IsValid r db v
apply-IsValid (sets_role seed target role) db v =
    update_record-IsValid _ _ _ db (λ now s h. h) (λ now s t. refl) (λ now s t. refl) v
apply-IsValid (publishes seed target at) db v =
    update_record-IsValid _ _ _ db (λ now s h. published_valid) (λ now s t. refl) (λ now s t. refl)
      v
apply-IsValid (sets_record_status seed target status error) db v =
    if-IsValid (validate_record_status status) _ _
      (λ good.
        update_record-IsValid _ _ _ db (λ now s _. good) (λ now s t. refl) (λ now s t. refl) v)
      (λ _. v)
apply-IsValid (attempts seed target status error) db v =
    if-IsValid (validate_record_status status) _ _
      (λ good.
        update_record-IsValid _ _ _ db (λ now s _. good) (λ now s t. refl) (λ now s t. refl) v)
      (λ _. v)
apply-IsValid (retires seed target reason) db v =
    update_record-IsValid _ _ _ db (λ now s h. h) (λ now s t. refl) (λ now s t. refl) v
apply-IsValid (puts_replica r) db v = exec-IsValid _ db (λ d w. ground arith) v
apply-IsValid (sets_progress id progress) db v = exec-IsValid _ db (λ d w. ground arith) v
apply-IsValid (drops_replica id) db v = exec-IsValid _ db (λ d w. ground arith) v
