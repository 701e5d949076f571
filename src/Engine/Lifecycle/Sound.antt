-- ===== src/Engine/Lifecycle/Sound.antt =====
-- The invariant of the pool of workers (backend/internal/engine/engine.go).
use auto_seed_relay.Prelude.{
  ℕ, ◌+◌, ◌≤◌, ◌<◌, ◌≡◌, refl, ap, ◌∙◌, true, false, List, [], ◌∷◌, some, arith, ◌||◌, length,
  length-append, get_elem?,
}
use auto_seed_relay.Pipeline.Frame.{count, count-append}
use auto_seed_relay.Engine.Lifecycle.Pool.{
  waits, holds, relays, gone, WorkerPool, new_pool, begin_stop, cancel_pool, send_job, drop_job,
  leave, take_job, discard_job, run_job, finish_job, ends, WorkerStep, leaves, takes, discards,
  runs, finishes,
}
use auto_seed_relay.Engine.Lifecycle.Workers.{sum_of, sum_of-set_worker, length-set_worker, held}

-- Jobs that are not settled yet: in the channel, or with a worker that has not looked at the flag.
abbrev pub open_jobs : ℕ → WorkerPool → ℕ
open_jobs id p = count id p.jobs + sum_of (held id) p.workers

pub record IsSound (n : ℕ) (p : WorkerPool) : Type 0 where
  pub stopped_empty : p.running ≡ false → (p.workers ≡ []) × (p.graceful ≡ false)
  pub all_workers : p.running ≡ true → length p.workers ≡ n
  pub room : length p.jobs ≤ n
  pub account : (id : ℕ) → count id p.sent ≡ count id p.ran + count id p.lost + open_jobs id p
  pub draining_too : p.graceful ≡ true → p.draining ≡ true
  pub shut_known : p.graceful || ends p ≡ true → p.shut ≡ true
  pub unlost : p.shut ≡ false → (p.lost ≡ []) × (p.running ≡ false → p.jobs ≡ [])

pub new_pool-IsSound : (n : ℕ) → IsSound n new_pool
new_pool-IsSound n = record {
  stopped_empty = λ h. (refl, refl);
  all_workers = λ h. absurd cc;
  room = omega arith;
  account = λ id. omega arith;
  draining_too = λ h. h;
  shut_known = λ h. h;
  unlost = λ h. (refl, λ k. refl);
}

ended_shut : (n : ℕ) (p : WorkerPool) → IsSound n p → ends p ≡ true → p.shut ≡ true
ended_shut n p s h = let k = s.shut_known in ground arith

module _ (n : ℕ) (p : WorkerPool) (s : IsSound n p) (on : p.running ≡ true) where
  leave-IsSound : (i : ℕ) → get_elem? p.workers i ≡ some waits → IsSound n (leave i p)
  unfolding leave
  leave-IsSound i h = record {
    stopped_empty = λ k. absurd cc;
    all_workers = λ k. length-set_worker i gone p.workers ∙ s.all_workers on;
    room = s.room;
    account =
        λ id. omega (arith, s.account id, sum_of-set_worker (held id) i waits gone p.workers h);
    draining_too = s.draining_too;
    shut_known = s.shut_known;
    unlost = s.unlost;
  }

  take_job-IsSound :
      (i id : ℕ) (rest : List ℕ)
      → get_elem? p.workers i ≡ some waits
      → p.jobs ≡ id ∷ rest
      → IsSound n (take_job i id rest p)
  unfolding take_job
  take_job-IsSound i id rest h e = record {
    stopped_empty = λ k. absurd cc;
    all_workers = λ k. length-set_worker i (holds id) p.workers ∙ s.all_workers on;
    room = omega (arith, s.room, ap length e);
    account = λ j. omega (
      arith,
      s.account j,
      ap (count j) e,
      sum_of-set_worker (held j) i waits (holds id) p.workers h,
    );
    draining_too = s.draining_too;
    shut_known = s.shut_known;
    unlost = λ k. ((s.unlost k).0, λ off. absurd cc);
  }

  discard_job-IsSound :
      (i id : ℕ)
      → get_elem? p.workers i ≡ some (holds id)
      → p.graceful ≡ true
      → IsSound n (discard_job i id p)
  unfolding discard_job
  discard_job-IsSound i id h g = record {
    stopped_empty = λ k. absurd cc;
    all_workers = λ k. length-set_worker i gone p.workers ∙ s.all_workers on;
    room = s.room;
    account = λ j. omega (
      arith,
      s.account j,
      count-append j p.lost (id ∷ []),
      sum_of-set_worker (held j) i (holds id) gone p.workers h,
    );
    draining_too = s.draining_too;
    shut_known = s.shut_known;
    unlost = λ k. absurd (let m = s.shut_known (rw g refl) in cc);
  }

  run_job-IsSound :
      (i id : ℕ) → get_elem? p.workers i ≡ some (holds id) → IsSound n (run_job i id p)
  unfolding run_job
  run_job-IsSound i id h = record {
    stopped_empty = λ k. absurd cc;
    all_workers = λ k. length-set_worker i (relays id) p.workers ∙ s.all_workers on;
    room = s.room;
    account = λ j. omega (
      arith,
      s.account j,
      count-append j p.ran (id ∷ []),
      sum_of-set_worker (held j) i (holds id) (relays id) p.workers h,
    );
    draining_too = s.draining_too;
    shut_known = s.shut_known;
    unlost = s.unlost;
  }

  finish_job-IsSound :
      (i id : ℕ) → get_elem? p.workers i ≡ some (relays id) → IsSound n (finish_job i p)
  unfolding finish_job
  finish_job-IsSound i id h = record {
    stopped_empty = λ k. absurd cc;
    all_workers = λ k. length-set_worker i waits p.workers ∙ s.all_workers on;
    room = s.room;
    account =
        λ j. omega (arith, s.account j, sum_of-set_worker (held j) i (relays id) waits p.workers h);
    draining_too = s.draining_too;
    shut_known = s.shut_known;
    unlost = s.unlost;
  }

  pub WorkerStep-IsSound : (q : WorkerPool) → WorkerStep p q → IsSound n q
  WorkerStep-IsSound q (leaves i h g e) = rw e (leave-IsSound i h)
  WorkerStep-IsSound q (takes i id rest h k e) = rw e (take_job-IsSound i id rest h k)
  WorkerStep-IsSound q (discards i id h g e) = rw e (discard_job-IsSound i id h g)
  WorkerStep-IsSound q (runs i id h g e) = rw e (run_job-IsSound i id h)
  WorkerStep-IsSound q (finishes i id h e) = rw e (finish_job-IsSound i id h)

  pub begin_stop-IsSound : IsSound n (begin_stop p)
  unfolding begin_stop
  begin_stop-IsSound = record {
    stopped_empty = λ k. absurd cc;
    all_workers = s.all_workers;
    room = s.room;
    account = s.account;
    draining_too = λ k. refl;
    shut_known = λ k. refl;
    unlost = λ k. absurd cc;
  }

  pub cancel_pool-IsSound : IsSound n (cancel_pool p)
  unfolding cancel_pool
  cancel_pool-IsSound = record {
    stopped_empty = λ k. absurd cc;
    all_workers = s.all_workers;
    room = s.room;
    account = s.account;
    draining_too = s.draining_too;
    shut_known = λ k. refl;
    unlost = λ k. absurd cc;
  }

  pub send_job-IsSound : (id : ℕ) → length p.jobs < n → IsSound n (send_job id p)
  unfolding send_job
  send_job-IsSound id h = record {
    stopped_empty = λ k. absurd cc;
    all_workers = s.all_workers;
    room = omega (arith, length-append p.jobs (id ∷ []));
    account = λ j.
        omega
          (arith, s.account j, count-append j p.sent (id ∷ []), count-append j p.jobs (id ∷ []));
    draining_too = s.draining_too;
    shut_known = s.shut_known;
    unlost = λ k. ((s.unlost k).0, λ off. absurd cc);
  }

  pub drop_job-IsSound : (id : ℕ) → ends p ≡ true → IsSound n (drop_job id p)
  unfolding drop_job
  drop_job-IsSound id h = record {
    stopped_empty = λ k. absurd cc;
    all_workers = s.all_workers;
    room = s.room;
    account = λ j.
        omega
          (arith, s.account j, count-append j p.sent (id ∷ []), count-append j p.lost (id ∷ []));
    draining_too = s.draining_too;
    shut_known = s.shut_known;
    unlost = λ k. absurd (let m = ended_shut n p s h in cc);
  }
