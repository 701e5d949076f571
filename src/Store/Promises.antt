-- ===== src/Store/Promises.antt =====
-- Runs of the statements of backend/internal/store, with failures anywhere.
use auto_seed_relay.Prelude.{
  ℕ, ◌≡◌, ◌≢◌, Bool, true, false, List, [], ◌∷◌, ◌++◌, none, some, String, arith, if◌then◌else◌,
  Bool-cases, Option-cases, inl, inr,
}
use auto_seed_relay.Store.Rows.{
  Db, RelayRecord, Seed, exec, query, spend, next_fault, find, empty_db,
}
use auto_seed_relay.Store.Seeds.{
  is_seen, create_seed, inserted, get_seed_by_hash, update_seed, update_seed_status,
  update_seed_promotion, bump_retry, mark_seen, append_log,
}
use auto_seed_relay.Store.Records.{
  has_key, upsert_record, claim, claimed, update_record, set_record_role, mark_published,
  update_record_status, update_record_attempt, mark_retired,
}
use auto_seed_relay.Store.Replicas.{upsert_replica, update_replica_progress, delete_replica}
use auto_seed_relay.Store.Operations.{
  Operation, apply, apply_all, creates_seed, sets_seed_status, marks_seen, claims_record,
  sets_record_status, attempts, puts_replica,
}
use auto_seed_relay.Store.Updates.{IsValid}
use auto_seed_relay.Store.Invariant.{apply-IsValid}
use auto_seed_relay.Store.History.{Keeps, is_retirement, any_retirement, Lasts, apply-Lasts}

empty-IsValid : (faults : List Bool) → IsValid (empty_db faults)
empty-IsValid faults = record {
  seed_status = tt;
  record_status = tt;
  seed_key = tt;
  record_key = tt;
}

apply_all-IsValid : (os : List Operation) (db : Db) → IsValid db → IsValid (apply_all os db)
unfolding apply_all
apply_all-IsValid [] db v = v
apply_all-IsValid (o ∷ os) db v = apply_all-IsValid os (apply o db) (apply-IsValid o db v)

-- From the empty database on, whatever statements run and whichever of them fail: every seed and every
-- relay record has a status of its whitelist, no two seeds share a source site and a hash, and no two
-- records share a seed and a target.
pub statements-IsValid :
    (faults : List Bool) (os : List Operation) → IsValid (apply_all os (empty_db faults))
statements-IsValid faults os = apply_all-IsValid os _ (empty-IsValid faults)

Keeps-compose : (b : Bool) (q r s : RelayRecord) → Keeps b q r → Keeps b r s → Keeps b q s
Keeps-compose b q r s h k = ground arith

retirement_head :
    (o : Operation) (os : List Operation)
    → any_retirement (o ∷ os) ≡ false
    → (is_retirement o ≡ false) × (any_retirement os ≡ false)
retirement_head o os h = ground arith

-- A relay record is not lost by later statements of the store: they leave its key alone; they leave its
-- time of publication alone once it is set; and unless one of them is a MarkRetired they leave its retirement
-- time and reason alone.
pub record-Lasts :
    (os : List Operation) (s t : ℕ) (r : RelayRecord) (db : Db)
    → find (has_key s t) db.records ≡ some r
    → Lasts (any_retirement os) s t r (apply_all os db).records
unfolding apply_all
record-Lasts os s t r db h = go os (any_retirement os) s t r db (λ e. e) h
  where
    go :
        (os : List Operation) (b : Bool) (s t : ℕ) (r : RelayRecord) (db : Db)
        → (b ≡ false → any_retirement os ≡ false)
        → find (has_key s t) db.records ≡ some r
        → Lasts b s t r (apply_all os db).records
    go [] b s t r db n h = (r, h, ground arith)
    go (o ∷ os) b s t r db n h =
        let (r', h', k) = apply-Lasts b s t o r db (λ e. (retirement_head o os (n e)).0) h in
        let (r'', h'', k') = go os b s t r' (apply o db) (λ e. (retirement_head o os (n e)).1) h' in
        (r'', h'', Keeps-compose b r r' r'' k k')

claim_taken :
    (r q : RelayRecord) (db : Db)
    → find (has_key r.seed_id r.target_id) db.records ≡ some q
    → (upsert_record r db).1 ≢ some true
unfolding upsert_record claim
claim_taken r q db h = ground arith

find-append_hit :
    (p : RelayRecord → Bool) (xs : List RelayRecord) (y : RelayRecord)
    → p y ≡ true
    → find p (xs ++ y ∷ []) ≢ none
find-append_hit p [] y h = ground arith
find-append_hit p (x ∷ xs) y h = ground (arith, find-append_hit p xs y h)

claim_inserts :
    (r : RelayRecord) (db : Db)
    → (upsert_record r db).1 ≡ some true
    → find (has_key r.seed_id r.target_id) (upsert_record r db).0.records ≢ none
unfolding upsert_record claim
claim_inserts r db h =
    ground
      (arith, find-append_hit (has_key r.seed_id r.target_id) db.records (claimed r (spend db)))

claim_wins :
    (r : RelayRecord) (db : Db)
    → (upsert_record r db).1 ≡ some true
    → (q : RelayRecord) × (find (has_key r.seed_id r.target_id) (upsert_record r db).0.records
        ≡ some q)
claim_wins r db h =
    elim (Option-cases (find (has_key r.seed_id r.target_id) (upsert_record r db).0.records)) [
      | inl e ↦ absurd (claim_inserts r db h e)
      | inr found ↦ found
    ]

-- A claim has one winner: once UpsertRecord has inserted a record for a seed and a target, no later
-- UpsertRecord for the same pair inserts one, whatever statements ran in between.
pub claim_once :
    (r r' : RelayRecord) (os : List Operation) (db : Db)
    → r'.seed_id ≡ r.seed_id
    → r'.target_id ≡ r.target_id
    → (upsert_record r db).1 ≡ some true
    → (upsert_record r' (apply_all os (upsert_record r db).0)).1 ≢ some true
claim_once r r' os db es et h =
    let (q, held) = claim_wins r db h in
    let (q', still, kept) = record-Lasts os r.seed_id r.target_id q (upsert_record r db).0 held in
    claim_taken r' q' _ (rw (es, et) still)

is_seen-append :
    (site hash : String) (xs ys : List (String × String))
    → is_seen site hash xs ≡ true
    → is_seen site hash (xs ++ ys) ≡ true
is_seen-append site hash [] ys h = cc
is_seen-append site hash ((s, k) ∷ xs) ys h = ground (arith, is_seen-append site hash xs ys)

pub exec-seen :
    (site hash : String) (f : Db → Db) (db : Db)
    → ((d : Db) → is_seen site hash d.seen ≡ true → is_seen site hash (f d).seen ≡ true)
    → is_seen site hash db.seen ≡ true
    → is_seen site hash (exec f db).0.seen ≡ true
unfolding exec
exec-seen site hash f db k h = elim (Bool-cases (next_fault db.faults)) [
  | inl fault ↦ rw fault h
  | inr fine ↦ rw fine (k (spend db) h)
]

pub create_seed-seen : (s : Seed) (db : Db) → (create_seed s db).0.seen ≡ db.seen
unfolding create_seed inserted get_seed_by_hash query
create_seed-seen s db = ground arith

upsert_record-seen : (r : RelayRecord) (db : Db) → (upsert_record r db).0.seen ≡ db.seen
unfolding upsert_record claim
upsert_record-seen r db = ground arith

if-seen :
    (site hash : String) (c : Bool) (x y : Db × Bool)
    → is_seen site hash x.0.seen ≡ true
    → is_seen site hash y.0.seen ≡ true
    → is_seen site hash (if c then x else y).0.seen ≡ true
if-seen site hash true x y h k = h
if-seen site hash false x y h k = k

pub apply-seen :
    (site hash : String) (o : Operation) (db : Db)
    → is_seen site hash db.seen ≡ true
    → is_seen site hash (apply o db).seen ≡ true
unfolding apply update_seed_status update_seed_promotion bump_retry append_log set_record_role
    update_seed update_record mark_published update_record_status update_record_attempt mark_retired
    upsert_replica update_replica_progress delete_replica mark_seen
apply-seen site hash (creates_seed s) db h = rw (create_seed-seen s db) h
apply-seen site hash (claims_record r) db h = rw (upsert_record-seen r db) h
apply-seen site hash (marks_seen s k) db h =
    exec-seen site hash _ db
      (λ d e. ground (arith, is_seen-append site hash d.seen ((s, k) ∷ []) e)) h
apply-seen site hash (sets_seed_status id status error) db h =
    if-seen site hash _ _ _ (exec-seen site hash _ db (λ d e. e) h) h
apply-seen site hash (sets_record_status seed target status error) db h =
    if-seen site hash _ _ _ (exec-seen site hash _ db (λ d e. e) h) h
apply-seen site hash (attempts seed target status error) db h =
    if-seen site hash _ _ _ (exec-seen site hash _ db (λ d e. e) h) h
apply-seen site hash (puts_replica r) db h = exec-seen site hash _ db (λ d e. ground arith) h
apply-seen site hash _ db h = exec-seen site hash _ db (λ d e. e) h

-- A tombstone lasts: a hash that was marked as seen for a source site stays so, whatever
-- statements run and whichever of them fail.
seen_lasts :
    (os : List Operation) (site hash : String) (db : Db)
    → is_seen site hash db.seen ≡ true
    → is_seen site hash (apply_all os db).seen ≡ true
unfolding apply_all
seen_lasts [] site hash db h = h
seen_lasts (o ∷ os) site hash db h =
    seen_lasts os site hash (apply o db) (apply-seen site hash o db h)
