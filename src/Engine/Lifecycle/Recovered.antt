-- ===== src/Engine/Lifecycle/Recovered.antt =====
-- What `Start` recovers (backend/internal/engine/engine.go).
use text.Mathlib.Text.{◌==◌ as str_eq}
use auto_seed_relay.Prelude.{
  ℕ, ◌+◌, ◌≡◌, refl, ap, ◌∙◌, Bool, true, false, List, [], ◌∷◌, ◌++◌, some, arith, if◌then◌else◌,
  ltb, ◌==◌, ◌||◌, keep, All, Bool-cases, inl, inr,
}
use auto_seed_relay.Store.Rows.{Db, Seed, spend, update_where}
use auto_seed_relay.Store.Seeds.{list_seeds_by_status}
use auto_seed_relay.Pipeline.Clean.{exec_clean, query_clean, IsClean, spend-IsClean}
use auto_seed_relay.Engine.Retry.Queue.{RetryItem, RetryQueue, enqueue, backoff_for}
use auto_seed_relay.Engine.Submit.Job.{Engine, rebuild, enqueue_seeds}
use auto_seed_relay.Engine.Lifecycle.Resend.{mid_flight, reclaim, start_recovery}

-- How many items of the queue are for a seed.
abbrev pub queued : ℕ → List RetryItem → ℕ
queued id [] = 0
queued id (it ∷ items) = (if it.seed_id == id then 1 else 0) + queued id items

queued-append :
    (id : ℕ) (xs ys : List RetryItem) → queued id (xs ++ ys) ≡ queued id xs + queued id ys
queued-append id [] ys = omega arith
queued-append id (it ∷ xs) ys = omega (arith, queued-append id xs ys)

abbrev pub recoverable : Seed → Bool
recoverable s = str_eq s.status "retry" || mid_flight s

-- How many rows with an id are to be recovered.
abbrev pub recovered : ℕ → List Seed → ℕ
recovered id [] = 0
recovered id (s ∷ seeds) =
    let rest = recovered id seeds in
    if recoverable s then (if s.id == id then 1 else 0) + rest else rest

abbrev times_in : ℕ → List Seed → ℕ
times_in id [] = 0
times_in id (s ∷ seeds) = (if s.id == id then 1 else 0) + times_in id seeds

enqueue_seeds-queued :
    (id now : ℕ) (seeds : List Seed) (q : RetryQueue)
    → queued id (enqueue_seeds now seeds q).items ≡ queued id q.items + times_in id seeds
unfolding enqueue_seeds enqueue
enqueue_seeds-queued id now [] q = omega arith
enqueue_seeds-queued id now (s ∷ seeds) q =
    let no = if ltb s.retry_count 1 then 1 else s.retry_count in
    omega (
      arith,
      enqueue_seeds-queued id now seeds (enqueue now s.id no q),
      queued-append id q.items
          (record { seed_id = s.id; retry_no = no; due_at = now + backoff_for no } ∷ []),
    )

abbrev taken_back : List Seed → List Seed
taken_back = update_where mid_flight (λ s. record s { status = "retry" })

abbrev in_retry : Seed → Bool
in_retry s = str_eq s.status "retry"

taken_back-recovered :
    (id : ℕ) (seeds : List Seed)
    → times_in id (keep in_retry (taken_back seeds)) ≡ recovered id seeds
taken_back-recovered id [] = refl
taken_back-recovered id (s ∷ seeds) = elim (Bool-cases (mid_flight s)) [
  | inl flight ↦ elim (Bool-cases (in_retry s)) [
    | inl waits ↦ rw (flight, waits, taken_back-recovered id seeds) refl
    | inr runs ↦ rw (flight, runs, taken_back-recovered id seeds) refl
  ]
  | inr other ↦ elim (Bool-cases (in_retry s)) [
    | inl waits ↦ rw (other, waits, taken_back-recovered id seeds) refl
    | inr runs ↦ rw (other, runs, taken_back-recovered id seeds) refl
  ]
]

none_flies : (seeds : List Seed) → All (λ s. mid_flight s ≡ false) (taken_back seeds)
none_flies [] = tt
none_flies (s ∷ seeds) = elim (Bool-cases (mid_flight s)) [
  | inl flight ↦ rw flight (refl, none_flies seeds)
  | inr other ↦ rw other (other, none_flies seeds)
]

list_clean :
    (db : Db)
    → IsClean db
    → list_seeds_by_status "retry" db ≡ (spend db, some (keep in_retry db.seeds))
unfolding list_seeds_by_status
list_clean db h = query_clean _ db h

rebuild_clean :
    (now : ℕ) (e : Engine)
    → IsClean e.db
    → rebuild now e
      ≡ record e { db = spend e.db; retry = enqueue_seeds now (keep in_retry e.db.seeds) e.retry }
unfolding rebuild
rebuild_clean now e h = rw (list_clean e.db h, rebuild) (rw (list_clean e.db h) refl)

abbrev reclaimed : Engine → Engine
reclaimed e = record e { db = record (spend e.db) { seeds = taken_back e.db.seeds } }

reclaim_clean :
    (db : Db) → IsClean db → reclaim db ≡ (record (spend db) { seeds = taken_back db.seeds }, true)
unfolding reclaim
reclaim_clean db h = exec_clean _ db h

-- When no statement fails at a start: no seed is left in "downloading" or "processing", and for each id
-- the queue gains as many items as there are seeds with that id in "retry", "downloading" or
-- "processing"; the items that the queue held before, from an earlier run of the engine, stay in it.
pub start_recovers :
    (now id : ℕ) (e : Engine)
    → IsClean e.db
    → let e' = start_recovery now e in
      (queued id e'.retry.items ≡ queued id e.retry.items + recovered id e.db.seeds)
      × All (λ s. mid_flight s ≡ false) e'.db.seeds
unfolding start_recovery
start_recovers now id e h =
    rw (reclaim_clean e.db h, rebuild_clean now (reclaimed e) (spend-IsClean e.db h))
      (
        enqueue_seeds-queued id now (keep in_retry (taken_back e.db.seeds)) e.retry
            ∙ ap (λ k. queued id e.retry.items + k) (taken_back-recovered id e.db.seeds),
        none_flies e.db.seeds,
      )
