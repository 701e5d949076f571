-- ===== src/Api/Atomic.antt =====
-- The transaction of `deleteSeed` (backend/internal/api/ops_seeds.go).
use auto_seed_relay.Prelude.{
  some_inj, ℕ, ◌≡◌, ◌≢◌, refl, ap, ◌∙◌, true, false, List, [], ◌∷◌, Option, none, some, ◌==◌, keep,
  not, All, Bool-cases, Option-cases, inl, inr,
}
use auto_seed_relay.Store.Rows.{Db, Seed, exec, spend}
use auto_seed_relay.Store.Seeds.{get_seed_by_id}
use auto_seed_relay.Pipeline.Clean.{IsClean, spend-IsClean, exec_clean}
use auto_seed_relay.Engine.Lifecycle.Resend.{mid_flight}
use auto_seed_relay.Engine.Lifecycle.Cleared.{exec_ok, query_ok, query_fault}
use auto_seed_relay.Engine.Lifecycle.Resent.{seed_row}
use auto_seed_relay.Api.Ops.{
  Response, ok, not_found, conflict, server_error, delete_statements, run_statements,
  settle_transaction, delete_rows, delete_found, delete_seed,
}

-- The tables, whatever statements are to fail.
pub record SameTables (db db' : Db) : Type 0 where
  pub seeds : db'.seeds ≡ db.seeds
  pub records : db'.records ≡ db.records
  pub replicas : db'.replicas ≡ db.replicas
  pub logs : db'.logs ≡ db.logs
  pub seen : db'.seen ≡ db.seen

-- Every row of the seed is gone, and every other row and every mark is still there.
pub record Deleted (seed : ℕ) (db db' : Db) : Type 0 where
  pub seeds : db'.seeds ≡ keep (λ s. not (s.id == seed)) db.seeds
  pub records : db'.records ≡ keep (λ r. not (r.seed_id == seed)) db.records
  pub replicas : db'.replicas ≡ keep (λ r. not (r.seed_id == seed)) db.replicas
  pub logs : db'.logs ≡ keep (λ l. not (l.seed_id == seed)) db.logs
  pub seen : db'.seen ≡ db.seen

-- All changes of a transaction, one after another.
abbrev committed : List (Db → Db) → Db → Db
committed [] db = db
committed (f ∷ fs) db = committed fs (f (spend db))

run_statements-committed :
    (fs : List (Db → Db)) (db : Db)
    → (run_statements fs db).1 ≡ true
    → (run_statements fs db).0 ≡ committed fs db
unfolding run_statements
run_statements-committed [] db h = refl
run_statements-committed (f ∷ fs) db h = elim (Bool-cases (exec f db).1) [
  | inr failed ↦ absurd (let k = rw failed at h in cc)
  | inl fine ↦ rw fine (
      run_statements-committed fs (exec f db).0 (rw fine at h)
      ∙ ap (committed fs) (exec_ok f db fine))
]

-- The two ends of a deletion.
abbrev Outcome : ℕ → Db → Db × Response → Type 0
Outcome seed db x = (x.1 ≡ ok → Deleted seed db x.0) × (x.1 ≢ ok → SameTables db x.0)

module _ (seed : ℕ) where
  delete_rows-Outcome : (db : Db) → Outcome seed db (delete_rows seed db)
  unfolding delete_rows settle_transaction
  delete_rows-Outcome db = elim (Bool-cases (run_statements (delete_statements seed) db).1) [
    | inl fine ↦
        rw (fine, run_statements-committed (delete_statements seed) db fine)
          (
            (λ h. record {
              seeds = refl;
              records = refl;
              replicas = refl;
              logs = refl;
              seen = refl;
            }),
            λ h. absurd (h refl),
          )
    | inr failed ↦ rw failed (
      (λ h. absurd cc),
      λ h. record { seeds = refl; records = refl; replicas = refl; logs = refl; seen = refl },
    )
  ]

  unchanged : (db : Db) (r : Response) → r ≢ ok → Outcome seed db (db, r)
  unchanged db r n = (
    (λ h. absurd (n h)),
    λ h. record { seeds = refl; records = refl; replicas = refl; logs = refl; seen = refl },
  )

  found-Outcome : (o : Option (Option Seed)) (db : Db) → Outcome seed db (delete_found seed o db)
  unfolding delete_found
  found-Outcome none db = unchanged db server_error (λ h. absurd cc)
  found-Outcome (some none) db = unchanged db not_found (λ h. absurd cc)
  found-Outcome (some (some s)) db = elim (Bool-cases (mid_flight s)) [
    | inl busy ↦ rw busy (unchanged db conflict (λ h. absurd cc))
    | inr free ↦ rw free (delete_rows-Outcome db)
  ]

run_statements_fine :
    (fs : List (Db → Db)) (db : Db)
    → All (λ f. (d : Db) → (f d).faults ≡ d.faults) fs
    → IsClean db
    → (run_statements fs db).1 ≡ true
unfolding run_statements
run_statements_fine [] db k h = refl
run_statements_fine (f ∷ fs) db k h =
    rw (exec_clean f db h)
      (run_statements_fine fs (f (spend db)) k.1 (k.0 (spend db) ∙ spend-IsClean db h))

delete_rows_fine : (seed : ℕ) (db : Db) → IsClean db → (delete_rows seed db).1 ≡ ok
unfolding delete_rows settle_transaction
delete_rows_fine seed db h =
    rw
      (run_statements_fine (delete_statements seed) db
        ((λ d. refl), ((λ d. refl), ((λ d. refl), ((λ d. refl), ((λ d. refl), ((λ d. refl), tt))))))
        h)
      refl

-- When the answer is 200, for what the query has found.
abbrev Answers : ℕ → Option Seed → Db → Type 0
Answers seed o db =
    ((s : Seed) → o ≡ some s → mid_flight s ≡ true → (delete_found seed (some o) db).1 ≢ ok)
    × (o ≡ none → (delete_found seed (some o) db).1 ≢ ok)
    × ((s : Seed)
        → IsClean db
        → o ≡ some s
        → mid_flight s ≡ false
        → (delete_found seed (some o) db).1 ≡ ok)

found-Answers : (seed : ℕ) (o : Option Seed) (db : Db) → Answers seed o db
unfolding delete_found
found-Answers seed none db = ((λ s e m h. absurd cc), (λ e h. absurd cc), λ s c e m. absurd cc)
found-Answers seed (some x) db = elim (Bool-cases (mid_flight x)) [
  | inl busy ↦ rw busy (
    (λ s e m h. absurd cc),
    (λ e h. absurd cc),
    λ s c e m. absurd (let k = rw (some_inj e) at busy in cc),
  )
  | inr free ↦ rw free (
    (λ s e m h. absurd (let k = rw (some_inj e) at free in cc)),
    (λ e h. absurd cc),
    λ s c e m. delete_rows_fine seed db c,
  )
]

spent-Outcome :
    (seed : ℕ) (db : Db) (x : Db × Response) → Outcome seed (spend db) x → Outcome seed db x
spent-Outcome seed db x o = (
  (λ h.
      let d = o.0 h in
      record {
        seeds = d.seeds;
        records = d.records;
        replicas = d.replicas;
        logs = d.logs;
        seen = d.seen;
      }),
  λ h.
      let d = o.1 h in
      record {
        seeds = d.seeds;
        records = d.records;
        replicas = d.replicas;
        logs = d.logs;
        seen = d.seen;
      },
)

not_ok : (seed : ℕ) (db : Db) → (delete_found seed none db).1 ≢ ok
unfolding delete_found
not_ok seed db h = absurd cc

-- `deleteSeed`, whichever statements fail. If it answers 200, the seed's row, its records, its replicas and
-- its log entries are gone, every other row is still there, and its hash stays marked as seen. On every
-- other answer all tables are as before; one of these is given for a seed in "downloading" or "processing"
-- and for a seed that does not exist, and 200 for any other seed if no statement fails.
pub delete_seed_atomic :
    (seed : ℕ) (db : Db)
    → let (db', r) = delete_seed seed db in
      (r ≡ ok → Deleted seed db db')
      × (r ≢ ok → SameTables db db')
      × ((s : Seed) → seed_row seed db ≡ some s → mid_flight s ≡ true → r ≢ ok)
      × (seed_row seed db ≡ none → r ≢ ok)
      × ((s : Seed) → IsClean db → seed_row seed db ≡ some s → mid_flight s ≡ false → r ≡ ok)
unfolding delete_seed get_seed_by_id
delete_seed_atomic seed db = elim (Option-cases (get_seed_by_id seed db).1) [
  | inl fault ↦
      let (b, n) = query_fault _ db fault in
      let (p, q) = spent-Outcome seed db _ (found-Outcome seed none (spend db)) in
      rw (fault, b)
        (
          (λ h. p h),
          (λ h. q h),
          (λ s e m. not_ok seed (spend db)),
          (λ e. not_ok seed (spend db)),
          λ s c e m. absurd (n c),
        )
  | inr (o, k) ↦
      let (a, b) = query_ok _ db o k in
      let (p, q) = spent-Outcome seed db _ (found-Outcome seed (some o) (spend db)) in
      let (x, y, z) = found-Answers seed o (spend db) in
      rw (k, b)
        (
          (λ h. p h),
          (λ h. q h),
          (λ s e m. x s (a ∙ e) m),
          (λ e. y (a ∙ e)),
          λ s c e m. z s (spend-IsClean db c) (a ∙ e) m,
        )
]
