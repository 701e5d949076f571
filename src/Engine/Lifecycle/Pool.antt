-- ===== src/Engine/Lifecycle/Pool.antt =====
-- `Start`, `Stop`, `enqueue` and `workerLoop` of backend/internal/engine/engine.go, as the steps of the
-- goroutines on the engine's shared state, in any order. A select with several ready cases takes any of
-- them. `sent`, `ran`, `lost` and `shut` record what happened: the ids given to `enqueue`, those with
-- which `submitJob` was called, those that were dropped, and whether a shutdown ever began.
use auto_seed_relay.Prelude.{
  ℕ, zero, suc, ◌<◌, ◌≡◌, Bool, true, false, List, [], ◌∷◌, ◌++◌, some, ◌||◌, length, get_elem?,
  All,
}

-- A goroutine of `workerLoop`: it waits in the select, holds a job whose flag it has not read, runs
-- `submitJob`, or has returned.
pub data Worker : Type 0 where
  waits : Worker
  holds : ℕ → Worker
  relays : ℕ → Worker
  gone : Worker

pub record WorkerPool : Type 0 where
  pub running : Bool
  pub graceful : Bool
  pub draining : Bool
  pub cancelled : Bool
  pub jobs : List ℕ
  pub workers : List Worker
  pub sent : List ℕ
  pub ran : List ℕ
  pub lost : List ℕ
  pub shut : Bool

abbrev pub new_pool : WorkerPool
new_pool = record {
  running = false;
  graceful = false;
  draining = false;
  cancelled = false;
  jobs = [];
  workers = [];
  sent = [];
  ran = [];
  lost = [];
  shut = false;
}

abbrev pub waiting_workers : ℕ → List Worker
waiting_workers zero = []
waiting_workers (suc n) = waits ∷ waiting_workers n

abbrev pub set_worker : ℕ → Worker → List Worker → List Worker
set_worker i w [] = []
set_worker zero w (v ∷ vs) = w ∷ vs
set_worker (suc i) w (v ∷ vs) = v ∷ set_worker i w vs

-- `Start`, for an engine that is not running: the flags are reset, the channel of jobs is a new one.
unfoldable pub start_pool : ℕ → WorkerPool → WorkerPool
start_pool n p = record p {
  running = true;
  graceful = false;
  draining = false;
  cancelled = false;
  jobs = [];
  workers = waiting_workers n;
  lost = p.lost ++ p.jobs;
}

-- The first phase of `Stop`.
unfoldable pub begin_stop : WorkerPool → WorkerPool
begin_stop p = record p { graceful = true; draining = true; shut = true }

-- The context of the run ends: the parent's does, or `Stop` has waited for `ShutdownTimeout`.
unfoldable pub cancel_pool : WorkerPool → WorkerPool
cancel_pool p = record p { cancelled = true; shut = true }

-- The last phase of `Stop`, when all workers have returned.
unfoldable pub finish_stop : WorkerPool → WorkerPool
finish_stop p = record p {
  running = false;
  graceful = false;
  cancelled = true;
  workers = [];
  shut = true;
}

-- The cases of `enqueue`.
unfoldable pub send_job : ℕ → WorkerPool → WorkerPool
send_job id p = record p { jobs = p.jobs ++ id ∷ []; sent = p.sent ++ id ∷ [] }

unfoldable pub drop_job : ℕ → WorkerPool → WorkerPool
drop_job id p = record p { sent = p.sent ++ id ∷ []; lost = p.lost ++ id ∷ [] }

-- The cases of `workerLoop`, for the worker at an index.
unfoldable pub leave : ℕ → WorkerPool → WorkerPool
leave i p = record p { workers = set_worker i gone p.workers }

unfoldable pub take_job : ℕ → ℕ → List ℕ → WorkerPool → WorkerPool
take_job i id rest p = record p { jobs = rest; workers = set_worker i (holds id) p.workers }

unfoldable pub discard_job : ℕ → ℕ → WorkerPool → WorkerPool
discard_job i id p = record p { workers = set_worker i gone p.workers; lost = p.lost ++ id ∷ [] }

unfoldable pub run_job : ℕ → ℕ → WorkerPool → WorkerPool
run_job i id p = record p { workers = set_worker i (relays id) p.workers; ran = p.ran ++ id ∷ [] }

unfoldable pub finish_job : ℕ → WorkerPool → WorkerPool
finish_job i p = record p { workers = set_worker i waits p.workers }

abbrev pub ends : WorkerPool → Bool
ends p = p.cancelled || p.draining

-- The steps of `workerLoop`.
pub data WorkerStep (p q : WorkerPool) : Type 0 where
  leaves :
      (i : ℕ) → get_elem? p.workers i ≡ some waits → ends p ≡ true → q ≡ leave i p → WorkerStep p q
  takes :
      (i id : ℕ) (rest : List ℕ)
      → get_elem? p.workers i ≡ some waits
      → p.jobs ≡ id ∷ rest
      → q ≡ take_job i id rest p
      → WorkerStep p q
  discards :
      (i id : ℕ)
      → get_elem? p.workers i ≡ some (holds id)
      → p.graceful ≡ true
      → q ≡ discard_job i id p
      → WorkerStep p q
  runs :
      (i id : ℕ)
      → get_elem? p.workers i ≡ some (holds id)
      → p.graceful ≡ false
      → q ≡ run_job i id p
      → WorkerStep p q
  finishes :
      (i id : ℕ) → get_elem? p.workers i ≡ some (relays id) → q ≡ finish_job i p → WorkerStep p q

-- The steps of all goroutines, with `n` workers. One call of `Start` or `Stop` runs at a time.
pub data PoolStep (n : ℕ) (p q : WorkerPool) : Type 0 where
  starts : p.running ≡ false → q ≡ start_pool n p → PoolStep n p q
  stops : p.running ≡ true → p.graceful ≡ false → q ≡ begin_stop p → PoolStep n p q
  cancels : p.running ≡ true → q ≡ cancel_pool p → PoolStep n p q
  stopped : p.graceful ≡ true → All (λ w. w ≡ gone) p.workers → q ≡ finish_stop p → PoolStep n p q
  sends : (id : ℕ) → p.running ≡ true → length p.jobs < n → q ≡ send_job id p → PoolStep n p q
  drops : (id : ℕ) → p.running ≡ true → ends p ≡ true → q ≡ drop_job id p → PoolStep n p q
  works : p.running ≡ true → WorkerStep p q → PoolStep n p q

pub data Reach (n : ℕ) (p : WorkerPool) : WorkerPool → Type 0 where
  here : Reach n p p
  next : {q r : WorkerPool} → Reach n p q → PoolStep n q r → Reach n p r
