-- ===== src/Breaker/State.antt =====
-- The breaker's state and the two locked phases of `Do` (backend/internal/notifier/breaker.go).
-- Times and durations are nanoseconds. `now.Sub(openedAt) < openDuration` is written without
-- subtraction. `failures` never passes the threshold, so it is left unbounded; `skips` is the bit
-- pattern of an int64.
use auto_seed_relay.Prelude.{
  ℕ, ◌+◌, ◌*◌, ◌%◌, ◌^◌, Bool, true, false, Option, none, some, ltb, leb, if◌then◌else◌, String,
}

pub data BreakerState : Type 0 where
  closed open_circuit half_open : BreakerState

pub record Breaker : Type 0 where
  pub state : BreakerState
  pub failures : ℕ
  pub skips : ℕ
  pub opened_at : ℕ
  pub probing : Bool
  pub max_failures : ℕ
  pub open_duration : ℕ

abbrev pub minute : ℕ
minute = 60 * 1_000_000_000

abbrev pub default_max_failures : ℕ
default_max_failures = 5

abbrev pub default_open_duration : ℕ
default_open_duration = 10 * minute

-- `NewBreaker` with the threshold and the window that its options leave.
unfoldable pub new_with : ℕ → ℕ → Breaker
new_with max duration = record {
  state = closed;
  failures = 0;
  skips = 0;
  opened_at = 0;
  probing = false;
  max_failures = max;
  open_duration = duration;
}

unfoldable pub new : Breaker
unfolding new_with
new = new_with default_max_failures default_open_duration

-- The state that a running call started from, and the time at which it started.
pub record Call : Type 0 where
  pub run_state : BreakerState
  pub started : ℕ

abbrev pub skip : Breaker → Breaker × Option Call
skip b = (record b { skips = (b.skips + 1) % 2 ^ 64 }, none)

abbrev pub probe : ℕ → Breaker → Breaker × Option Call
probe now b = (
  record b { state = half_open; probing = true },
  some (record { run_state = half_open; started = now }),
)

begin_in : BreakerState → ℕ → Breaker → Breaker × Option Call
begin_in open_circuit now b =
    if ltb now (b.opened_at + b.open_duration) then skip b else probe now b
begin_in half_open now b = if b.probing then skip b else probe now b
begin_in closed now b = (b, some (record { run_state = closed; started = now }))

-- Phase 1 of `Do`: `none` is ErrBreakerOpen.
unfoldable pub begin : ℕ → Breaker → Breaker × Option Call
unfolding begin_in
begin now b = begin_in b.state now b

reopen : Call → Breaker → Breaker
reopen c b = record b { state = open_circuit; opened_at = c.started; probing = false }

count_failure : Call → Breaker → Breaker
count_failure c b =
    let b' = record b { failures = b.failures + 1 } in
    if leb b.max_failures (b.failures + 1)
    then record b' { state = open_circuit; opened_at = c.started }
    else b'

fail_in : BreakerState → BreakerState → Call → Breaker → Breaker
fail_in half_open s c b = reopen c b
fail_in _ closed c b = count_failure c b
fail_in _ _ c b = b

succeed_in : BreakerState → BreakerState → Breaker → Breaker
succeed_in half_open s b = record b { failures = 0; state = closed; probing = false }
succeed_in _ closed b = record b { failures = 0 }
succeed_in _ _ b = b

-- Phase 3 of `Do`: the second argument says whether the function returned an error.
unfoldable pub settle : Call → Bool → Breaker → Breaker
unfolding reopen count_failure fail_in succeed_in
settle c failed b =
    if failed then fail_in c.run_state b.state c b else succeed_in c.run_state b.state b

pub data Outcome : Type 0 where
  breaker_open : Outcome
  returned : Bool → Outcome

finish : Breaker × Option Call → Bool → Breaker × Outcome
finish (b, none) failed = (b, breaker_open)
finish (b, some c) failed = (settle c failed b, returned failed)

-- `Do` with no other call between its phases; `failed` is what the function would return.
unfoldable pub do_call : ℕ → Bool → Breaker → Breaker × Outcome
unfolding begin settle finish
do_call now failed b = finish (begin now b) failed

state_name_of : BreakerState → String
state_name_of open_circuit = "open"
state_name_of half_open = "half_open"
state_name_of closed = "closed"

-- `State`, as the dashboard prints it.
unfoldable pub state_name : Breaker → String
unfolding state_name_of
state_name b = state_name_of b.state
