-- ===== src/Engine/Lifecycle/Resent.antt =====
-- The result of `ResendSeed` (backend/internal/engine/engine.go).
use auto_seed_relay.Prelude.{
  ℕ, ◌≡◌, ◌≢◌, refl, ap, ◌∙◌, sym, Bool, true, false, List, [], ◌∷◌, Option, none, some, arith,
  ◌==◌, Bool-cases, Option-cases, inl, inr,
}
use auto_seed_relay.Store.Rows.{Db, Seed, query, next_fault, spend, find, update_where}
use auto_seed_relay.Store.Seeds.{get_seed_by_id, update_seed}
use auto_seed_relay.Store.Records.{has_key, list_records_by_seed}
use auto_seed_relay.Pipeline.Publish.{Target}
use auto_seed_relay.Pipeline.Relay.{has_done, not_done, pending_targets}
use auto_seed_relay.Engine.Retry.Queue.{enqueue}
use auto_seed_relay.Engine.Submit.Job.{Engine}
use auto_seed_relay.Engine.Monitor.Retire.{with_engine_db}
use auto_seed_relay.Engine.Lifecycle.Resend.{
  ResendError, clear_seed, reset_retry, after_reset, requeue, after_get, resend_seed,
}
use auto_seed_relay.Engine.Lifecycle.Cleared.{
  exec_ok, query_ok, records_of, replicas_of, clear_seed-Cleared,
}

-- The row of a seed.
abbrev pub seed_row : ℕ → Db → Option Seed
seed_row seed db = find (λ s. s.id == seed) db.seeds

keep_all : (targets : List Target) → not_done (some []) targets ≡ targets
unfolding not_done has_done
keep_all [] = refl
keep_all (t ∷ ts) = ap (λ xs. t ∷ xs) (unfold not_done has_done in keep_all ts)

-- Without records of the seed every target is pending, whether or not the query fails.
pub pending-all :
    (seed : ℕ) (targets : List Target) (db : Db)
    → records_of seed db ≡ []
    → (pending_targets seed targets db).1 ≡ targets
unfolding pending_targets list_records_by_seed query
pending-all seed targets db h = elim (Bool-cases (next_fault db.faults)) [
  | inl fault ↦ rw fault (unfold not_done in refl)
  | inr fine ↦ rw (fine, h) (keep_all targets)
]

pub record Requeued (now seed : ℕ) (full : Bool) (e e' : Engine) : Type 0 where
  pub queued : e'.retry ≡ enqueue now seed 1 e.retry
  pub row :
      (s : Seed) × (seed_row seed e'.db ≡ some s)
      × (s.status ≡ "retry")
      × (s.retry_count ≡ 0)
      × (s.error ≡ "")
  pub all_pending :
      full ≡ true → (targets : List Target) → (pending_targets seed targets e'.db).1 ≡ targets
  pub no_replicas : full ≡ true → replicas_of seed e'.db ≡ []
  pub other_rows :
      (s t : ℕ) → s ≢ seed → find (has_key s t) e'.db.records ≡ find (has_key s t) e.db.records

abbrev fresh : ℕ → Seed → Seed
fresh now s = record s { retry_count = 0; status = "retry"; error = ""; updated_at = now }

-- What holds of the database before the retry state is reset.
record Ready (seed : ℕ) (full : Bool) (e : Engine) (db : Db) : Type 0 where
  pub found : (s : Seed) × (seed_row seed db ≡ some s)
  pub cleared : full ≡ true → (records_of seed db ≡ []) × (replicas_of seed db ≡ [])
  pub others :
      (s t : ℕ) → s ≢ seed → find (has_key s t) db.records ≡ find (has_key s t) e.db.records

-- The row of a seed after a change of the rows with its id.
pub hit_found :
    (seed : ℕ) (f : Seed → Seed) (rows : List Seed) (s : Seed)
    → ((x : Seed) → (f x).id ≡ x.id)
    → find (λ x. x.id == seed) rows ≡ some s
    → find (λ x. x.id == seed) (update_where (λ x. x.id == seed) f rows) ≡ some (f s)
hit_found seed f [] s k h = absurd cc
hit_found seed f (x ∷ rows) s k h = elim (Bool-cases (x.id == seed)) [
  | inr miss ↦ ground (arith, k x, hit_found seed f rows s k (rw miss at h))
  | inl mine ↦ ground (arith, k x)
]

module _ (now seed : ℕ) (full : Bool) (e : Engine) where
  reset-Requeued :
      (d : Db)
      → Ready seed full e d
      → (reset_retry seed d).1 ≡ true
      → Requeued now seed full e
          (record e { db = (reset_retry seed d).0; retry = enqueue now seed 1 e.retry })
  unfolding reset_retry update_seed
  reset-Requeued d r h =
      let k = exec_ok _ d h in
      let (s, hit) = r.found in
      record {
        queued = refl;
        row = (
          fresh d.unixepoch s,
          rw k (hit_found seed (fresh d.unixepoch) d.seeds s (λ y. refl) hit),
          refl,
          refl,
          refl,
        );
        all_pending = λ f targets. pending-all seed targets _ (rw k (r.cleared f).0);
        no_replicas = λ f. rw k (r.cleared f).1;
        other_rows = λ i t n. rw k (r.others i t n);
      }

  requeue-Requeued :
      (d : Db) (o : Option ResendError)
      → (o ≡ none → Ready seed full e d)
      → let (e', r) = requeue now seed o (with_engine_db d e) in
        (r ≡ none → Requeued now seed full e e') × (r ≢ none → e'.retry ≡ e.retry)
  unfolding requeue after_reset
  requeue-Requeued d (some error) k = ((λ h. absurd cc), λ h. refl)
  requeue-Requeued d none k = elim (Bool-cases (reset_retry seed d).1) [
    | inl fine ↦ rw fine ((λ h. reset-Requeued d (k refl) fine), λ h. absurd (h refl))
    | inr failed ↦ rw failed ((λ h. absurd cc), λ h. refl)
  ]

get_seed_by_id_ok :
    (seed : ℕ) (db : Db) (found : Option Seed)
    → (get_seed_by_id seed db).1 ≡ some found
    → (found ≡ seed_row seed db) × ((get_seed_by_id seed db).0 ≡ spend db)
unfolding get_seed_by_id
get_seed_by_id_ok seed db found h = query_ok _ db found h

-- What follows a query that found `found` and left the rows of `d`.
found-Requeued :
    (now seed : ℕ) (full : Bool) (e : Engine) (found : Option Seed) (d : Db)
    → found ≡ seed_row seed e.db
    → d.seeds ≡ e.db.seeds
    → d.records ≡ e.db.records
    → d.replicas ≡ e.db.replicas
    → let (e', r) = after_get now seed full (some found) (with_engine_db d e) in
      (r ≡ none → Requeued now seed full e e') × (r ≢ none → e'.retry ≡ e.retry)
unfolding after_get
found-Requeued now seed full e none d f s r c = ((λ h. absurd cc), λ h. refl)
found-Requeued now seed false e (some x) d f s r c = requeue-Requeued now seed false e d none (λ h.
    record { found = (x, rw s (sym f)); cleared = λ k. absurd cc; others = λ i t n. rw r refl })
found-Requeued now seed true e (some x) d f s r c =
    requeue-Requeued now seed true e (clear_seed seed d).0 (clear_seed seed d).1 (λ h.
      let k = clear_seed-Cleared seed d h in
      record {
        found = (x, rw (k.same_seeds, s) (sym f));
        cleared = λ m. (k.no_records, k.no_replicas);
        others = λ i t n. k.other_rows i t n ∙ rw r refl;
      })

-- The result and what it says of the state.
pub resend_seed_either :
    (now seed : ℕ) (full : Bool) (e : Engine)
    → let (e', r) = resend_seed now seed full e in
      (r ≡ none → Requeued now seed full e e') × (r ≢ none → e'.retry ≡ e.retry)
unfolding resend_seed after_get
resend_seed_either now seed full e = elim (Option-cases (get_seed_by_id seed e.db).1) [
  | inl fault ↦ rw fault ((λ h. absurd cc), λ h. refl)
  | inr (found, k) ↦
      let (a, b) = get_seed_by_id_ok seed e.db found k in
      rw (k, b) (found-Requeued now seed full e found (spend e.db) a refl refl refl)
]
