-- ===== src/Engine/Lifecycle/Workers.antt =====
-- Sums over the workers of the pool of backend/internal/engine/engine.go, when one of them changes.
use auto_seed_relay.Prelude.{
  some_inj, ℕ, zero, suc, ◌+◌, ◌*◌, ◌≤◌, ◌≡◌, refl, ap, List, [], ◌∷◌, none, some, arith,
  if◌then◌else◌, length, get_elem?, ◌==◌,
}
use auto_seed_relay.Engine.Lifecycle.Pool.{
  Worker, waits, holds, relays, gone, waiting_workers, set_worker,
}

abbrev pub sum_of : (Worker → ℕ) → List Worker → ℕ
sum_of f [] = 0
sum_of f (w ∷ ws) = f w + sum_of f ws

absurd_none {ℓ} : {A : Type ℓ} {P : Type 0} {a : A} → none ≡ some a → P
absurd_none h = absurd (cc)

pub sum_of-set_worker :
    (f : Worker → ℕ) (i : ℕ) (v w : Worker) (ws : List Worker)
    → get_elem? ws i ≡ some v
    → sum_of f (set_worker i w ws) + f v ≡ sum_of f ws + f w
sum_of-set_worker f i v w [] h = absurd_none h
sum_of-set_worker f zero v w (u ∷ ws) h = rw (some_inj h) (omega arith)
sum_of-set_worker f (suc i) v w (u ∷ ws) h = omega (arith, sum_of-set_worker f i v w ws h)

pub length-set_worker :
    (i : ℕ) (w : Worker) (ws : List Worker) → length (set_worker i w ws) ≡ length ws
length-set_worker i w [] = refl
length-set_worker zero w (u ∷ ws) = refl
length-set_worker (suc i) w (u ∷ ws) = ap suc (length-set_worker i w ws)

pub length-waiting_workers : (n : ℕ) → length (waiting_workers n) ≡ n
length-waiting_workers zero = refl
length-waiting_workers (suc n) = ap suc (length-waiting_workers n)

-- A worker that holds the job `id`.
abbrev pub held : ℕ → Worker → ℕ
held id waits = 0
held id (holds j) = if j == id then 1 else 0
held id (relays j) = 0
held id gone = 0

-- How many steps a worker can take until it has returned, once a drain has begun.
abbrev pub steps_left : Worker → ℕ
steps_left waits = 2
steps_left (holds j) = 1
steps_left (relays j) = 3
steps_left gone = 0

pub sum_of-waiting_workers : (id n : ℕ) → sum_of (held id) (waiting_workers n) ≡ 0
sum_of-waiting_workers id zero = refl
sum_of-waiting_workers id (suc n) = omega (arith, sum_of-waiting_workers id n)

steps_left_bound : (w : Worker) → steps_left w ≤ 3
steps_left_bound waits = omega arith
steps_left_bound (holds j) = omega arith
steps_left_bound (relays j) = omega arith
steps_left_bound gone = omega arith

pub sum_of_bound : (ws : List Worker) → sum_of steps_left ws ≤ 3 * length ws
sum_of_bound [] = omega arith
sum_of_bound (w ∷ ws) = omega (arith, sum_of_bound ws, steps_left_bound w)
