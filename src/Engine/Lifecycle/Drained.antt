-- ===== src/Engine/Lifecycle/Drained.antt =====
-- The drain of the workers by `Stop` (backend/internal/engine/engine.go).
use auto_seed_relay.Prelude.{ℕ, suc, ◌+◌, ◌≤◌, ◌≡◌, true}
use auto_seed_relay.Engine.Lifecycle.Pool.{WorkerPool, cancel_pool, send_job, drop_job, WorkerStep}
use auto_seed_relay.Engine.Lifecycle.Workers.{sum_of, steps_left}

-- While `Stop` waits: `k` steps of workers, and what else may happen.
pub data Drain (n : ℕ) (p : WorkerPool) : ℕ → WorkerPool → Type 0 where
  begun : Drain n p 0 p
  worked : {k : ℕ} {q r : WorkerPool} → Drain n p k q → WorkerStep q r → Drain n p (suc k) r
  sent_on : {k : ℕ} {q : WorkerPool} (id : ℕ) → Drain n p k q → Drain n p k (send_job id q)
  dropped_on : {k : ℕ} {q : WorkerPool} (id : ℕ) → Drain n p k q → Drain n p k (drop_job id q)
  cancelled_on : {k : ℕ} {q : WorkerPool} → Drain n p k q → Drain n p k (cancel_pool q)

abbrev left : WorkerPool → ℕ
left p = sum_of steps_left p.workers

record Drains (k : ℕ) (p q : WorkerPool) : Type 0 where
  pub graceful_still : q.graceful ≡ true
  pub draining_still : q.draining ≡ true
  pub fewer : k + left q ≤ left p
  pub none_run : q.ran ≡ p.ran
