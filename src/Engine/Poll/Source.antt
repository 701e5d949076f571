-- ===== src/Engine/Poll/Source.antt =====
-- `pollSource` and `sourceFailed` of backend/internal/engine/poller.go, up to the items. Whether the
-- fetch succeeds and whether the statement that pauses a source does is an argument of each poll; the
-- count of failures that is kept for the dashboard is left out.
use auto_seed_relay.Prelude.{
  ℕ, ◌+◌, ◌-◌, Bool, List, [], ◌∷◌, ◌++◌, Option, none, some, if◌then◌else◌, ltb, leb, lookup,
  insert, erase, nat_eq,
}
use auto_seed_relay.Engine.Submit.Job.{Notice, critical}

abbrev pub max_source_failures : ℕ
max_source_failures = 3

-- The zero time is 0.
pub record SourceState : Type 0 where
  pub fails : ℕ
  pub next_allowed : ℕ

pub record Watch : Type 0 where
  pub poll_state : List (ℕ × SourceState)
  pub paused : List ℕ
  pub alerts : List Notice

-- `sourceState`, without the entry that it makes on first use.
unfoldable pub state_or_new : Option SourceState → SourceState
state_or_new none = record { fails = 0; next_allowed = 0 }
state_or_new (some st) = st

abbrev pub set_state : ℕ → SourceState → Watch → Watch
set_state id st w = record w { poll_state = insert id st w.poll_state }

-- What follows the counting in `sourceFailed`: at the threshold the source is paused, with a critical
-- notice, and its state is forgotten; below it the next poll has to wait.
unfoldable pub source_failed : (ℕ → ℕ) → ℕ → Bool → ℕ → SourceState → Watch → Watch
source_failed backoff now pause_ok id st w =
    if leb max_source_failures (st.fails + 1)
    then record {
      poll_state = erase id w.poll_state;
      paused = if pause_ok then w.paused ++ id ∷ [] else w.paused;
      alerts = w.alerts ++ record { level = critical; event = "source_pause" } ∷ [];
    }
    else set_state id
        (record { fails = st.fails + 1; next_allowed = now + backoff (st.fails + 1 - 1) }) w

unfoldable pub fetch_source : (ℕ → ℕ) → ℕ → Bool → Bool → ℕ → SourceState → Watch → Watch
fetch_source backoff now fetched pause_ok id st w =
    if ltb now st.next_allowed
    then set_state id st w
    else if fetched
    then set_state id (record { fails = 0; next_allowed = 0 }) w
    else source_failed backoff now pause_ok id st w

-- `pollSource`
unfoldable pub poll_source : (ℕ → ℕ) → ℕ → Bool → Bool → ℕ → Watch → Watch
poll_source backoff now fetched pause_ok id w =
    fetch_source backoff now fetched pause_ok id (state_or_new (lookup id w.poll_state)) w
