-- ===== src/Engine/Lifecycle/Reached.antt =====
-- What the engine's lifecycle can reach (backend/internal/engine/engine.go).
use auto_seed_relay.Prelude.{ℕ, ◌≡◌, refl, ap, false, List, [], ◌∷◌, arith, All}
use auto_seed_relay.Pipeline.Frame.{count-append}
use auto_seed_relay.Engine.Lifecycle.Pool.{
  Worker, gone, WorkerPool, new_pool, start_pool, finish_stop, PoolStep, starts, stops, cancels,
  stopped, sends, drops, works, Reach, here, next,
}
use auto_seed_relay.Engine.Lifecycle.Workers.{
  sum_of, length-waiting_workers, held, sum_of-waiting_workers,
}
use auto_seed_relay.Engine.Lifecycle.Sound.{
  IsSound, new_pool-IsSound, WorkerStep-IsSound, begin_stop-IsSound, cancel_pool-IsSound,
  send_job-IsSound, drop_job-IsSound,
}

module _ (n : ℕ) where
  start_pool-IsSound :
      (p : WorkerPool) → IsSound n p → p.running ≡ false → IsSound n (start_pool n p)
  unfolding start_pool
  start_pool-IsSound p s off = record {
    stopped_empty = λ k. absurd cc;
    all_workers = λ k. length-waiting_workers n;
    room = omega arith;
    account = λ id. omega (
      arith,
      s.account id,
      ap (sum_of (held id)) (s.stopped_empty off).0,
      count-append id p.lost p.jobs,
      sum_of-waiting_workers id n,
    );
    draining_too = λ k. absurd cc;
    shut_known = λ k. absurd cc;
    unlost = λ k. let (e, j) = s.unlost k in (rw (e, j off) refl, λ m. refl);
  }

  gone_held : (id : ℕ) (ws : List Worker) → All (λ w. w ≡ gone) ws → sum_of (held id) ws ≡ 0
  gone_held id [] h = refl
  gone_held id (w ∷ ws) h = rw h.0 (omega (arith, gone_held id ws h.1))

  finish_stop-IsSound :
      (p : WorkerPool) → IsSound n p → All (λ w. w ≡ gone) p.workers → IsSound n (finish_stop p)
  unfolding finish_stop
  finish_stop-IsSound p s h = record {
    stopped_empty = λ k. (refl, refl);
    all_workers = λ k. absurd cc;
    room = s.room;
    account = λ id. omega (arith, s.account id, gone_held id p.workers h);
    draining_too = λ k. absurd cc;
    shut_known = λ k. refl;
    unlost = λ k. absurd cc;
  }

  PoolStep-IsSound : (p q : WorkerPool) → IsSound n p → PoolStep n p q → IsSound n q
  PoolStep-IsSound p q s (starts off e) = rw e (start_pool-IsSound p s off)
  PoolStep-IsSound p q s (stops on g e) = rw e (begin_stop-IsSound n p s on)
  PoolStep-IsSound p q s (cancels on e) = rw e (cancel_pool-IsSound n p s on)
  PoolStep-IsSound p q s (stopped g h e) = rw e (finish_stop-IsSound p s h)
  PoolStep-IsSound p q s (sends id on h e) = rw e (send_job-IsSound n p s on id h)
  PoolStep-IsSound p q s (drops id on h e) = rw e (drop_job-IsSound n p s on id h)
  PoolStep-IsSound p q s (works on w) = WorkerStep-IsSound n p s on q w

  Reach-IsSound : {p q : WorkerPool} → IsSound n p → Reach n p q → IsSound n q
  Reach-IsSound s here = s
  Reach-IsSound s (next r st) = PoolStep-IsSound _ _ (Reach-IsSound s r) st

-- In every state that an engine with `n` workers can reach, by any interleaving of its goroutines with
-- any calls of `Start` and `Stop`: a stopped engine has no workers, a running one has `n`, the channel
-- holds at most `n` jobs, and each hand-over to `enqueue` is a call of `submitJob`, is lost, waits in the
-- channel or is with a worker, exactly one of these; none is lost before a shutdown has begun.
pub lifecycle-IsSound : (n : ℕ) (p : WorkerPool) → Reach n new_pool p → IsSound n p
lifecycle-IsSound n p r = Reach-IsSound n (new_pool-IsSound n) r
