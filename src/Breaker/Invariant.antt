-- ===== src/Breaker/Invariant.antt =====
-- Calls of `Breaker.Do` that overlap (backend/internal/notifier/breaker.go): the breaker with the
-- calls in flight, under every order of phases, and what holds of it between two phases.
use auto_seed_relay.Prelude.{
  ℕ, zero, suc, ◌+◌, ◌≤◌, ◌<◌, ◌≡◌, refl, Bool, true, false, Option, none, some, List, [], ◌∷◌,
  arith, get_elem?,
}
use auto_seed_relay.Breaker.State.{
  Breaker, BreakerState, Call, closed, half_open, begin, settle, new_with,
}

pub record Pool : Type 0 where
  pub breaker : Breaker
  pub calls : List Call

-- `arrive now`: a caller enters phase 1. `leave i failed`: the i-th call in flight enters phase 3.
pub data Event : Type 0 where
  arrive : ℕ → Event
  leave : ℕ → Bool → Event

unfoldable pub remove : ℕ → List Call → List Call
remove i [] = []
remove zero (c ∷ cs) = cs
remove (suc i) (c ∷ cs) = c ∷ remove i cs

enter : Breaker × Option Call → List Call → Pool
enter (b, none) cs = record { breaker = b; calls = cs }
enter (b, some c) cs = record { breaker = b; calls = c ∷ cs }

depart : Option Call → ℕ → Bool → Pool → Pool
depart none i failed p = p
depart (some c) i failed p = record {
  breaker = settle c failed p.breaker;
  calls = remove i p.calls;
}

unfoldable pub step : Event → Pool → Pool
unfolding enter depart
step (arrive now) p = enter (begin now p.breaker) p.calls
step (leave i failed) p = depart (get_elem? p.calls i) i failed p

unfoldable pub run : List Event → Pool → Pool
run [] p = p
run (e ∷ es) p = run es (step e p)

unfoldable pub start : ℕ → ℕ → Pool
start max duration = record { breaker = new_with max duration; calls = [] }

abbrev pub probes_of : BreakerState → ℕ
probes_of half_open = 1
probes_of _ = 0

abbrev pub is_half_open : BreakerState → Bool
is_half_open half_open = true
is_half_open _ = false

-- How many half-open probes are in flight.
abbrev pub probes : List Call → ℕ
probes [] = 0
probes (c ∷ cs) = probes_of c.run_state + probes cs

pub record Inv (p : Pool) : Type 0 where
  pub enabled : 0 < p.breaker.max_failures
  pub probing_iff : p.breaker.probing ≡ is_half_open p.breaker.state
  pub one_probe : probes p.calls ≡ probes_of p.breaker.state
  pub bounded : p.breaker.failures ≤ p.breaker.max_failures
  pub below : p.breaker.state ≡ closed → p.breaker.failures < p.breaker.max_failures

probes-remove :
    (i : ℕ) (cs : List Call) (c : Call)
    → get_elem? cs i ≡ some c
    → probes cs ≡ probes_of c.run_state + probes (remove i cs)
unfolding remove
probes-remove i [] c h = ground arith
probes-remove zero (d ∷ cs) c h = ground arith
probes-remove (suc i) (d ∷ cs) c h = omega (arith, probes-remove i cs c h)

arrive-Inv : (now : ℕ) (p : Pool) → Inv p → Inv (step (arrive now) p)
unfolding step begin
arrive-Inv now p h = ground arith

settle-Inv :
    (c : Call) (failed : Bool) (b : Breaker) (cs rest : List Call)
    → Inv (record { breaker = b; calls = cs })
    → probes cs ≡ probes_of c.run_state + probes rest
    → Inv (record { breaker = settle c failed b; calls = rest })
unfolding settle
settle-Inv c failed b cs rest h e = ground arith

depart-Inv :
    (o : Option Call) (i : ℕ) (failed : Bool) (p : Pool)
    → get_elem? p.calls i ≡ o
    → Inv p
    → Inv (depart o i failed p)
unfolding depart
depart-Inv none i failed p e h = h
depart-Inv (some c) i failed p e h =
    settle-Inv c failed p.breaker p.calls _ h (probes-remove i p.calls c e)

-- Every phase, at any time and with any result, keeps the invariant.
pub step-Inv : (e : Event) (p : Pool) → Inv p → Inv (step e p)
unfolding step
step-Inv (arrive now) p h = arrive-Inv now p h
step-Inv (leave i failed) p h = depart-Inv _ i failed p refl h

start-Inv : (max duration : ℕ) → 0 < max → Inv (start max duration)
unfolding start new_with
start-Inv max duration h = ground arith

run-Inv : (es : List Event) (p : Pool) → Inv p → Inv (run es p)
unfolding run
run-Inv [] p h = h
run-Inv (e ∷ es) p h = run-Inv es (step e p) (step-Inv e p h)

-- Under every interleaving of calls of `Do` on a new breaker with a positive threshold: at most one
-- half-open probe is in flight, and there is one exactly while the breaker is half open and its
-- probing flag is set; the failure count never passes the threshold, and it is below the threshold
-- while the breaker is closed.
pub single_probe :
    (max duration : ℕ) (es : List Event) → 0 < max → Inv (run es (start max duration))
single_probe max duration es h = run-Inv es _ (start-Inv max duration h)
