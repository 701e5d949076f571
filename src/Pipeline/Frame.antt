-- ===== src/Pipeline/Frame.antt =====
-- What publishing to one target leaves alone: the records of other targets
-- (backend/internal/pipeline/target.go).
use auto_seed_relay.Prelude.{
  ℕ, ◌+◌, ◌≡◌, ◌≢◌, refl, ◌∙◌, Bool, true, false, List, [], ◌∷◌, ◌++◌, Option, none, some, String,
  arith, if◌then◌else◌, ◌==◌, Bool-cases, inl, inr,
}
use auto_seed_relay.Store.Rows.{
  Db, RelayRecord, Replica, exec, query, find, update_where, next_fault, spend,
}
use auto_seed_relay.Store.Seeds.{append_log, validate_record_status}
use auto_seed_relay.Store.Records.{
  has_key, get_record, upsert_record, claim, claimed, update_record, set_record_role,
  mark_published, update_record_status, update_record_attempt,
}
use auto_seed_relay.Store.Replicas.{list_replicas, upsert_replica}
use auto_seed_relay.Pipeline.Publish.{
  Swarm, Job, cross_seed, join_swarm, with_selected, cross_replica, pending_record,
}

abbrev pub count : ℕ → List ℕ → ℕ
count t [] = 0
count t (x ∷ xs) = (if x == t then 1 else 0) + count t xs

pub count-append : (t : ℕ) (xs ys : List ℕ) → count t (xs ++ ys) ≡ count t xs + count t ys
count-append t [] ys = omega arith
count-append t (x ∷ xs) ys = omega (arith, count-append t xs ys)

abbrev pub row_of : ℕ → ℕ → Db → Option RelayRecord
row_of s t db = find (has_key s t) db.records

-- The record of `s` and `t` is the same, and the site of `t` was not asked in between.
pub record Leaves (s t : ℕ) (j j' : Job) : Type 0 where
  pub row : row_of s t j'.db ≡ row_of s t j.db
  pub quiet : count t j'.sent ≡ count t j.sent

pub Leaves-trans : (s t : ℕ) (i j k : Job) → Leaves s t i j → Leaves s t j k → Leaves s t i k
Leaves-trans s t i j k a b = record { row = b.row ∙ a.row; quiet = b.quiet ∙ a.quiet }

pub find-other :
    (s t t' : ℕ) (f : RelayRecord → RelayRecord) (rows : List RelayRecord)
    → t ≢ t'
    → ((r : RelayRecord) → has_key s t (f r) ≡ has_key s t r)
    → find (has_key s t) (update_where (has_key s t') f rows) ≡ find (has_key s t) rows
find-other s t t' f [] n k = refl
find-other s t t' f (r ∷ rows) n k = ground (arith, k r, find-other s t t' f rows n k)

pub find-append-other :
    (s t : ℕ) (r : RelayRecord) (rows : List RelayRecord)
    → has_key s t r ≡ false
    → find (has_key s t) (rows ++ r ∷ []) ≡ find (has_key s t) rows
find-append-other s t r [] h = ground arith
find-append-other s t r (q ∷ rows) h = ground (arith, find-append-other s t r rows h)

pub exec-row :
    (s t : ℕ) (f : Db → Db) (db : Db)
    → ((d : Db) → row_of s t (f d) ≡ row_of s t d)
    → row_of s t (exec f db).0 ≡ row_of s t db
unfolding exec
exec-row s t f db k = elim (Bool-cases (next_fault db.faults)) [
  | inl fault ↦ rw fault refl
  | inr fine ↦ rw fine (k (spend db))
]

pub update_record-row :
    (s t t' : ℕ) (f : ℕ → RelayRecord → RelayRecord) (db : Db)
    → t ≢ t'
    → ((now : ℕ) (r : RelayRecord) → has_key s t (f now r) ≡ has_key s t r)
    → row_of s t (update_record s t' f db).0 ≡ row_of s t db
unfolding update_record
update_record-row s t t' f db n k =
    exec-row s t _ db (λ d. find-other s t t' (f d.unixepoch) d.records n (k d.unixepoch))

pub if-row :
    (s t : ℕ) (c : Bool) (x y : Db × Bool) (db : Db)
    → row_of s t x.0 ≡ row_of s t db
    → row_of s t y.0 ≡ row_of s t db
    → row_of s t (if c then x else y).0 ≡ row_of s t db
if-row s t true x y db h k = h
if-row s t false x y db h k = k

pub append_log-row :
    (s t seed : ℕ) (level action : String) (db : Db)
    → row_of s t (append_log seed level action db).0 ≡ row_of s t db
unfolding append_log
append_log-row s t seed level action db = exec-row s t _ db (λ d. refl)

pub query-row {ℓ} :
    {A : Type ℓ} (s t : ℕ) (f : Db → A) (db : Db) → row_of s t (query f db).0 ≡ row_of s t db
unfolding query
query-row s t f db = ground arith

pub get_record-row : (s t s' t' : ℕ) (db : Db) → row_of s t (get_record s' t' db).0 ≡ row_of s t db
unfolding get_record
get_record-row s t s' t' db = query-row s t _ db

pub set_record_role-row :
    (s t t' : ℕ) (role : String) (db : Db)
    → t ≢ t'
    → row_of s t (set_record_role s t' role db).0 ≡ row_of s t db
unfolding set_record_role
set_record_role-row s t t' role db n = update_record-row s t t' _ db n (λ now r. refl)

pub mark_published-row :
    (s t t' at : ℕ) (db : Db) → t ≢ t' → row_of s t (mark_published s t' at db).0 ≡ row_of s t db
unfolding mark_published
mark_published-row s t t' at db n = update_record-row s t t' _ db n (λ now r. refl)

pub update_record_attempt-row :
    (s t t' : ℕ) (status error : String) (db : Db)
    → t ≢ t'
    → row_of s t (update_record_attempt s t' status error db).0 ≡ row_of s t db
unfolding update_record_attempt
update_record_attempt-row s t t' status error db n =
    if-row s t (validate_record_status status) _ (db, false) db
      (update_record-row s t t' _ db n (λ now r. refl)) refl

pub update_record_status-row :
    (s t t' : ℕ) (status error : String) (db : Db)
    → t ≢ t'
    → row_of s t (update_record_status s t' status error db).0 ≡ row_of s t db
unfolding update_record_status
update_record_status-row s t t' status error db n =
    if-row s t (validate_record_status status) _ (db, false) db
      (update_record-row s t t' _ db n (λ now r. refl)) refl

pub upsert_replica-row :
    (s t : ℕ) (r : Replica) (db : Db) → row_of s t (upsert_replica r db).0 ≡ row_of s t db
unfolding upsert_replica
upsert_replica-row s t r db = exec-row s t _ db (λ d. ground arith)

join_swarm-row :
    (s t : ℕ) (w : Swarm) (qb : ℕ) (hash : Option String) (db : Db)
    → row_of s t (join_swarm s w qb hash db).0 ≡ row_of s t db
unfolding join_swarm
join_swarm-row s t w qb none db = refl
join_swarm-row s t w qb (some hash) db =
    ground (arith, upsert_replica-row s t (cross_replica s qb hash) db)

with_selected-row :
    (s t : ℕ) (w : Swarm) (qb : Option ℕ) (db : Db)
    → row_of s t (with_selected s w qb db).0 ≡ row_of s t db
unfolding with_selected
with_selected-row s t w none db = refl
with_selected-row s t w (some qb) db = join_swarm-row s t w qb w.reannounced db

pub cross_seed-row :
    (s t : ℕ) (w : Swarm) (db : Db) → row_of s t (cross_seed s w db).0 ≡ row_of s t db
unfolding cross_seed list_replicas
cross_seed-row s t w db = with_selected-row s t w w.selected _ ∙ query-row s t _ db

pub upsert_record-row :
    (s t t' : ℕ) (db : Db)
    → t ≢ t'
    → row_of s t (upsert_record (pending_record s t') db).0 ≡ row_of s t db
unfolding upsert_record claim
upsert_record-row s t t' db n = elim (Bool-cases (validate_record_status "pending")) [
  | inl valid ↦
      rw valid (
        ground (arith, find-append-other s t (claimed (pending_record s t') (spend db)) db.records))
  | inr bad ↦ rw bad refl
]
