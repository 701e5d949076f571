-- ===== src/Store/History.antt =====
-- What a statement keeps of a relay record (backend/internal/store/relay.go).
use auto_seed_relay.Prelude.{
  ℕ, ◌<◌, ◌≡◌, refl, Bool, true, false, List, [], ◌∷◌, ◌++◌, Option, none, some, arith,
  if◌then◌else◌, Bool-cases, inl, inr,
}
use auto_seed_relay.Store.Rows.{
  Db, Seed, RelayRecord, exec, query, spend, next_fault, update_where, find,
}
use auto_seed_relay.Store.Seeds.{
  validate_record_status, create_seed, inserted, get_seed_by_hash, update_seed, update_seed_status,
  update_seed_promotion, bump_retry, mark_seen, append_log,
}
use auto_seed_relay.Store.Records.{
  has_key, upsert_record, claim, update_record, set_record_role, mark_published,
  update_record_status, update_record_attempt, mark_retired,
}
use auto_seed_relay.Store.Replicas.{upsert_replica, update_replica_progress, delete_replica}
use auto_seed_relay.Store.Operations.{
  Operation, apply, creates_seed, sets_seed_status, sets_promotion, bumps_retry, marks_seen,
  appends_log, claims_record, sets_role, publishes, sets_record_status, attempts, retires,
  puts_replica, sets_progress, drops_replica,
}

module _ {ℓ} {A : Type ℓ} (q : A → Bool) where
  pub find-update_where :
      (p : A → Bool) (f : A → A) (xs : List A) {x : A}
      → ((y : A) → q (f y) ≡ q y)
      → find q xs ≡ some x
      → find q (update_where p f xs) ≡ some (if p x then f x else x)
  find-update_where p f [] k h = cc
  find-update_where p f (y ∷ ys) {x} k h = elim (Bool-cases (q y)) [
    | inl hit ↦ ground (arith, k y)
    | inr miss ↦ ground (arith, k y, find-update_where p f ys {x = x} k (rw miss at h))
  ]

  pub find-append : (xs ys : List A) {x : A} → find q xs ≡ some x → find q (xs ++ ys) ≡ some x
  find-append [] ys h = cc
  find-append (y ∷ xs) ys {x} h = elim (Bool-cases (q y)) [
    | inl hit ↦ ground arith
    | inr miss ↦ rw miss (find-append xs ys (rw miss at h))
  ]

-- What every statement keeps of a row: its key, a time of publication once it is set, and, unless the
-- flag says that retirements are among the statements, the retirement columns.
pub record Keeps (retiring : Bool) (r r' : RelayRecord) : Type 0 where
  pub seed : r'.seed_id ≡ r.seed_id
  pub target : r'.target_id ≡ r.target_id
  pub published : 0 < r.published_at → r'.published_at ≡ r.published_at
  pub retired :
      retiring ≡ false → (r'.retired_at ≡ r.retired_at) × (r'.retire_reason ≡ r.retire_reason)

abbrev pub is_retirement : Operation → Bool
is_retirement (retires seed target reason) = true
is_retirement _ = false

abbrev pub any_retirement : List Operation → Bool
any_retirement [] = false
any_retirement (o ∷ os) = if is_retirement o then true else any_retirement os

-- The row with the key is there afterwards, and keeps what is said above.
abbrev pub Lasts : Bool → ℕ → ℕ → RelayRecord → List RelayRecord → Type 0
Lasts retiring s t r rows =
    (r' : RelayRecord) × (find (has_key s t) rows ≡ some r') × Keeps retiring r r'

Lasts-same :
    (b : Bool) (s t : ℕ) (r : RelayRecord) (rows rows' : List RelayRecord)
    → rows' ≡ rows
    → find (has_key s t) rows ≡ some r
    → Lasts b s t r rows'
Lasts-same b s t r rows rows' e h = (r, rw e h, ground arith)

Keeps-if :
    (b : Bool) (r : RelayRecord) (c : Bool) (r' : RelayRecord)
    → Keeps b r r'
    → Keeps b r (if c then r' else r)
Keeps-if b r true r' k = k
Keeps-if b r false r' k = ground arith

update_record-Lasts :
    (b : Bool) (s t : ℕ) (seed target : ℕ) (f : ℕ → RelayRecord → RelayRecord) (r : RelayRecord)
    (db : Db)
    → ((now : ℕ) (y : RelayRecord) → has_key s t (f now y) ≡ has_key s t y)
    → ((now : ℕ) → Keeps b r (f now r))
    → find (has_key s t) db.records ≡ some r
    → Lasts b s t r (update_record seed target f db).0.records
unfolding update_record exec
update_record-Lasts b s t seed target f r db k m h = elim (Bool-cases (next_fault db.faults)) [
  | inl fault ↦ rw fault (r, h, ground arith)
  | inr fine ↦ rw fine (
    if has_key seed target r then f db.unixepoch r else r,
    find-update_where (has_key s t) (has_key seed target) (f db.unixepoch) db.records
        (k db.unixepoch) h,
    Keeps-if b r (has_key seed target r) _ (m db.unixepoch),
  )
]

exec-records :
    (f : Db → Db) (db : Db)
    → ((d : Db) → (f d).records ≡ d.records)
    → (exec f db).0.records ≡ db.records
unfolding exec
exec-records f db k = elim (Bool-cases (next_fault db.faults)) [
  | inl fault ↦ rw fault
  | inr fine ↦ rw fine (k (spend db))
]

create_seed-records : (s : Seed) (db : Db) → (create_seed s db).0.records ≡ db.records
unfolding create_seed inserted get_seed_by_hash query
create_seed-records s db = ground arith

claim-find :
    (s t : ℕ) (q : RelayRecord) (o : Option RelayRecord) (db : Db) {r : RelayRecord}
    → find (has_key s t) db.records ≡ some r
    → find (has_key s t) (claim q o db).0.records ≡ some r
unfolding claim
claim-find s t q none db h = find-append (has_key s t) db.records _ h
claim-find s t q (some old) db h = h

upsert_record-Lasts :
    (b : Bool) (s t : ℕ) (q r : RelayRecord) (db : Db)
    → find (has_key s t) db.records ≡ some r
    → Lasts b s t r (upsert_record q db).0.records
unfolding upsert_record
upsert_record-Lasts b s t q r db h = elim (Bool-cases (validate_record_status q.status)) [
  | inr bad ↦ rw bad (r, h, ground arith)
  | inl good ↦ elim (Bool-cases (next_fault db.faults)) [
    | inl fault ↦ rw (good, fault) (r, h, ground arith)
    | inr fine ↦ rw (good, fine) (r, claim-find s t q _ (spend db) h, ground arith)
  ]
]

status-Lasts :
    (b : Bool) (s t : ℕ) (c : Bool) (x y : Db × Bool) (r : RelayRecord)
    → Lasts b s t r x.0.records
    → Lasts b s t r y.0.records
    → Lasts b s t r (if c then x else y).0.records
status-Lasts b s t true x y r h k = h
status-Lasts b s t false x y r h k = k

-- Each statement keeps a row with its key, whether or not it fails.
pub apply-Lasts :
    (b : Bool) (s t : ℕ) (o : Operation) (r : RelayRecord) (db : Db)
    → (b ≡ false → is_retirement o ≡ false)
    → find (has_key s t) db.records ≡ some r
    → Lasts b s t r (apply o db).records
unfolding apply update_seed_promotion bump_retry mark_seen append_log set_record_role update_seed
    mark_published update_seed_status update_record_status update_record_attempt mark_retired
    upsert_replica update_replica_progress delete_replica
apply-Lasts b s t (creates_seed x) r db n h =
    Lasts-same b s t r db.records _ (create_seed-records x db) h
apply-Lasts b s t (sets_seed_status id status error) r db n h =
    status-Lasts b s t _ _ _ r (Lasts-same b s t r db.records _ (exec-records _ db (λ d. refl)) h)
      (Lasts-same b s t r db.records db.records refl h)
apply-Lasts b s t (sets_promotion id promotion) r db n h =
    Lasts-same b s t r db.records _ (exec-records _ db (λ d. refl)) h
apply-Lasts b s t (bumps_retry id) r db n h =
    Lasts-same b s t r db.records _ (exec-records _ db (λ d. refl)) h
apply-Lasts b s t (marks_seen site hash) r db n h =
    Lasts-same b s t r db.records _ (exec-records _ db (λ d. ground arith)) h
apply-Lasts b s t (appends_log seed level action) r db n h =
    Lasts-same b s t r db.records _ (exec-records _ db (λ d. refl)) h
apply-Lasts b s t (claims_record q) r db n h = upsert_record-Lasts b s t q r db h
apply-Lasts b s t (sets_role seed target role) r db n h =
    update_record-Lasts b s t seed target _ r db (λ now y. refl) (λ now. ground arith) h
apply-Lasts b s t (publishes seed target at) r db n h =
    update_record-Lasts b s t seed target _ r db (λ now y. refl) (λ now. ground arith) h
apply-Lasts b s t (sets_record_status seed target status error) r db n h =
    status-Lasts b s t _ _ _ r
      (update_record-Lasts b s t seed target _ r db (λ now y. refl) (λ now. ground arith) h)
      (Lasts-same b s t r db.records db.records refl h)
apply-Lasts b s t (attempts seed target status error) r db n h =
    status-Lasts b s t _ _ _ r
      (update_record-Lasts b s t seed target _ r db (λ now y. refl) (λ now. ground arith) h)
      (Lasts-same b s t r db.records db.records refl h)
apply-Lasts true s t (retires seed target reason) r db n h =
    update_record-Lasts true s t seed target _ r db (λ now y. refl) (λ now. ground arith) h
apply-Lasts false s t (retires seed target reason) r db n h = absurd (ground (arith, n refl))
apply-Lasts b s t (puts_replica x) r db n h =
    Lasts-same b s t r db.records _ (exec-records _ db (λ d. ground arith)) h
apply-Lasts b s t (sets_progress id progress) r db n h =
    Lasts-same b s t r db.records _ (exec-records _ db (λ d. refl)) h
apply-Lasts b s t (drops_replica id) r db n h =
    Lasts-same b s t r db.records _ (exec-records _ db (λ d. refl)) h
