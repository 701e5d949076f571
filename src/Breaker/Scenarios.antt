-- ===== src/Breaker/Scenarios.antt =====
-- Runs of the breaker of backend/internal/notifier/breaker.go on concrete calls.
use auto_seed_relay.Prelude.{
  ℕ, ◌+◌, ◌^◌, ◌<◌, ◌≡◌, refl, true, false, List, [], ◌∷◌, arith, All, length,
}
use auto_seed_relay.Breaker.State.{Breaker, closed, open_circuit, begin, settle, new_with}
use auto_seed_relay.Breaker.Invariant.{
  Pool, Event, arrive, leave, step, run, start, remove, Inv, single_probe,
}
use auto_seed_relay.Breaker.Window.{Before, Skipped, arrivals, window_skips}

-- Two overlapping calls fail, a call is skipped, a probe is let through and another call is skipped.
abbrev overlapping : List Event
overlapping =
    arrive 0 ∷ arrive 1 ∷ leave 0 true ∷ leave 0 true ∷ arrive 5 ∷ arrive 20 ∷ arrive 21 ∷ []

single_probe_example : Inv (run overlapping (start 2 10))
single_probe_example = single_probe 2 10 overlapping (omega arith)

-- Open since time 3, for 10.
abbrev tripped : Pool
tripped = run (arrive 3 ∷ leave 0 true ∷ []) (start 1 10)

tripped_is : tripped ≡ record {
  breaker = record (new_with 1 10) { state = open_circuit; failures = 1; opened_at = 3 };
  calls = [];
}
unfolding run step start new_with begin settle remove
tripped_is = refl

abbrev during : List Event
during = arrive 5 ∷ leave 0 false ∷ arrive 12 ∷ []

tripped_open : tripped.breaker.state ≡ open_circuit
tripped_open = rw tripped_is refl

tripped_skips : tripped.breaker.skips < 2 ^ 64
unfolding new_with
tripped_skips = rw tripped_is (omega arith)

during-Before : All (Before (tripped.breaker.opened_at + tripped.breaker.open_duration)) during
unfolding new_with
during-Before = rw tripped_is (omega arith, (tt, (omega arith, tt)))

window_skips_example : Skipped tripped (arrivals during) (run during tripped)
window_skips_example =
    window_skips during tripped (single_probe 1 10 (arrive 3 ∷ leave 0 true ∷ []) (omega arith))
      tripped_open tripped_skips during-Before

abbrev fresh : Breaker
fresh = new_with 3 10

fresh_closed : fresh.state ≡ closed
unfolding new_with
fresh_closed = refl

abbrev two_times : List ℕ
two_times = 1 ∷ 2 ∷ []

fresh_max : fresh.failures + length two_times + 1 ≡ fresh.max_failures
unfolding new_with
fresh_max = refl
