-- ===== src/Breaker/Window.antt =====
-- The open window, the threshold and the half-open probe of the breaker
-- (backend/internal/notifier/breaker.go).
use auto_seed_relay.Prelude.{
  ℕ, zero, suc, ◌+◌, ◌%◌, ◌^◌, ◌≤◌, ◌<◌, ◌≡◌, refl, Bool, true, false, some, List, [], ◌∷◌, ◌++◌,
  ap, ◌∙◌, subst, inl, inr, Option-cases, length, arith, get_elem?, if◌then◌else◌, All,
}
use auto_seed_relay.Breaker.State.{
  Breaker, Call, closed, open_circuit, begin, settle, do_call, returned,
}
use auto_seed_relay.Breaker.Invariant.{
  Pool, Event, arrive, leave, step, run, remove, Inv, probes, probes_of, step-Inv,
}

-- The arrivals of a schedule come before a deadline; its returns are free.
abbrev pub Before : ℕ → Event → Type 0
Before deadline (arrive now) = now < deadline
Before deadline (leave i failed) = Unit

abbrev pub arrivals : List Event → ℕ
arrivals [] = 0
arrivals (arrive now ∷ es) = suc (arrivals es)
arrivals (leave i failed ∷ es) = arrivals es

-- What the window keeps: the state, its start, its length and the threshold.
pub record SameWindow (b b' : Breaker) : Type 0 where
  pub open' : b'.state ≡ open_circuit
  pub opened_at' : b'.opened_at ≡ b.opened_at
  pub duration' : b'.open_duration ≡ b.open_duration

probes_zero :
    (i : ℕ) (cs : List Call) (c : Call)
    → get_elem? cs i ≡ some c
    → probes cs ≡ 0
    → probes_of c.run_state ≡ 0
probes_zero i [] c h z = ground arith
probes_zero zero (d ∷ cs) c h z = ground arith
probes_zero (suc i) (d ∷ cs) c h z = probes_zero i cs c h (omega arith)

settle_stale :
    (c : Call) (failed : Bool) (b : Breaker)
    → b.state ≡ open_circuit
    → probes_of c.run_state ≡ 0
    → settle c failed b ≡ b
unfolding settle
settle_stale c failed b o z = ground arith

arrive_in_window :
    (now : ℕ) (p : Pool)
    → p.breaker.state ≡ open_circuit
    → now < p.breaker.opened_at + p.breaker.open_duration
    → SameWindow p.breaker (step (arrive now) p).breaker
      × ((step (arrive now) p).calls ≡ p.calls)
      × ((step (arrive now) p).breaker.skips ≡ (p.breaker.skips + 1) % 2 ^ 64)
unfolding step begin
arrive_in_window now p o h = ground arith

-- What a stretch of phases inside the window leaves: the circuit open with its window, no call
-- started, and one skip for each arrival.
pub record Skipped (p : Pool) (n : ℕ) (q : Pool) : Type 0 where
  pub window : SameWindow p.breaker q.breaker
  pub no_start : length q.calls ≤ length p.calls
  pub counted : q.breaker.skips ≡ (p.breaker.skips + n) % 2 ^ 64

length-remove : (i : ℕ) (cs : List Call) → length (remove i cs) ≤ length cs
unfolding remove
length-remove i [] = omega arith
length-remove zero (c ∷ cs) = omega arith
length-remove (suc i) (c ∷ cs) = omega (arith, length-remove i cs)

leave_in_window :
    (i : ℕ) (failed : Bool) (p : Pool)
    → p.breaker.state ≡ open_circuit
    → probes p.calls ≡ 0
    → ((step (leave i failed) p).breaker ≡ p.breaker)
      × (length (step (leave i failed) p).calls ≤ length p.calls)
unfolding step
leave_in_window i failed p o z = elim (Option-cases (get_elem? p.calls i)) [
  | inl e ↦ rw e (refl, omega arith)
  | inr (c, e) ↦
      rw e
        (settle_stale c failed p.breaker o (probes_zero i p.calls c e z), length-remove i p.calls)
]

-- While the circuit is open and every arrival comes before the end of the window, no call is
-- started, every arrival is skipped and counted (modulo the width of the counter), and calls that
-- return late change neither the state nor the window.
pub window_skips :
    (es : List Event) (p : Pool)
    → Inv p
    → p.breaker.state ≡ open_circuit
    → p.breaker.skips < 2 ^ 64
    → All (Before (p.breaker.opened_at + p.breaker.open_duration)) es
    → Skipped p (arrivals es) (run es p)
unfolding run
window_skips [] p v o s h = ground arith
window_skips (arrive now ∷ es) p v o s h =
    let (w, same, skip) = arrive_in_window now p o h.0 in
    let rest =
      window_skips es (step (arrive now) p) (step-Inv (arrive now) p v) w.open' (omega arith)
        (rw (w.opened_at', w.duration') h.1) in
    record {
      window = record {
        open' = rest.window.open';
        opened_at' = rest.window.opened_at' ∙ w.opened_at';
        duration' = rest.window.duration' ∙ w.duration';
      };
      no_start = omega (arith, rest.no_start, ap length same);
      counted = omega (arith, rest.counted, skip);
    }
window_skips (leave i failed ∷ es) p v o s h =
    let (same, fewer) = leave_in_window i failed p o (ground arith) in
    let rest =
      window_skips es (step (leave i failed) p) (step-Inv (leave i failed) p v) (rw same o)
        (rw same s) (rw same h.1) in
    let skips : (step (leave i failed) p).breaker.skips ≡ p.breaker.skips =
      ap (λ (b : Breaker). b.skips) same in
    record {
      window =
          subst (λ b. SameWindow b (run es (step (leave i failed) p)).breaker) same rest.window;
      no_start = omega (arith, rest.no_start, fewer);
      counted = omega (arith, rest.counted, skips);
    }

-- One failing call after another, at the given times.
pub fail_all : List ℕ → Breaker → Breaker
fail_all [] b = b
fail_all (t ∷ ts) b = fail_all ts (do_call t true b).0

fail_once :
    (t : ℕ) (b : Breaker)
    → b.state ≡ closed
    → b.failures + 1 < b.max_failures
    → ((do_call t true b).0.state ≡ closed)
      × ((do_call t true b).0.failures ≡ b.failures + 1)
      × ((do_call t true b).0.max_failures ≡ b.max_failures)
unfolding do_call
fail_once t b c h = ground arith

fail_last :
    (t : ℕ) (b : Breaker)
    → b.state ≡ closed
    → b.failures + 1 ≡ b.max_failures
    → ((do_call t true b).0.state ≡ open_circuit) × ((do_call t true b).0.opened_at ≡ t)
unfolding do_call
fail_last t b c h = ground arith

-- A closed breaker opens at exactly the failure that brings the consecutive count to the threshold:
-- with fewer failures it is closed and has counted them, and with as many it is open since the time
-- of the last one.
trips_at_threshold :
    (ts : List ℕ) (t : ℕ) (b : Breaker)
    → b.state ≡ closed
    → b.failures + length ts + 1 ≡ b.max_failures
    → ((fail_all ts b).state ≡ closed)
      × ((fail_all ts b).failures ≡ b.failures + length ts)
      × ((fail_all (ts ++ t ∷ []) b).state ≡ open_circuit)
      × ((fail_all (ts ++ t ∷ []) b).opened_at ≡ t)
unfolding fail_all
trips_at_threshold [] t b c h =
    let (opened, since) = fail_last t b c (omega arith) in (c, omega arith, opened, since)
trips_at_threshold (s ∷ ts) t b c h =
    let (still, count, max) = fail_once s b c (omega arith) in
    let (shut, n, opened, since) =
      trips_at_threshold ts t (do_call s true b).0 still (omega arith) in
    (shut, omega arith, opened, since)

-- Once the window has passed, the next call runs as the probe: a success closes the circuit and
-- clears the count, and a failure opens a new window that starts at the time of that call.
probe_decides :
    (now : ℕ) (failed : Bool) (b : Breaker)
    → b.state ≡ open_circuit
    → b.opened_at + b.open_duration ≤ now
    → do_call now failed b ≡ (
        if failed
        then (record b { state = open_circuit; opened_at = now; probing = false }, returned true)
        else (record b { state = closed; failures = 0; probing = false }, returned false))
unfolding do_call
probe_decides now failed b o h = ground arith
