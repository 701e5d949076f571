-- ===== src/Qb/Since.antt =====
-- How long a torrent has been slow (backend/internal/qb/client.go).
use text.Mathlib.Text.{◌==◌ as str_eq}
use auto_seed_relay.Prelude.{
  ℕ, ◌+◌, ◌≤◌, Bool, false, List, [], ◌∷◌, Option, none, some, String, if◌then◌else◌, ltb, leb,
  string_eq,
}
use auto_seed_relay.Qb.Slow.{slow_entry_idle, Tracker, Speed, unknown, fast, slow, is_slow}

-- A call of `IsSlow`.
pub record Check : Type 0 where
  pub hash : String
  pub time : ℕ
  pub speed : Speed
  pub duration : ℕ

-- The tracker after some calls, the last one first.
unfoldable pub tracker_after : List Check → Tracker
tracker_after [] = []
tracker_after (c ∷ cs) = (is_slow c.time c.duration c.hash c.speed (tracker_after cs)).0

abbrev pub latest : List Check → ℕ
latest [] = 0
latest (c ∷ cs) = c.time

-- The clock does not go back.
abbrev pub InOrder : List Check → Type 0
InOrder [] = Unit
InOrder (c ∷ cs) = (latest cs ≤ c.time) × InOrder cs

-- The specification, from the calls for one hash alone: when the stretch of slow checks began that goes
-- on, and when its last check was. A check that finds out nothing does not count; a pause of more than
-- the idle time ends the stretch.
abbrev pub extended : ℕ → Option (ℕ × ℕ) → ℕ × ℕ
extended t none = (t, t)
extended t (some (start, last)) = if ltb (last + slow_entry_idle) t then (t, t) else (start, t)

abbrev pub stretch_next : Speed → ℕ → Option (ℕ × ℕ) → Option (ℕ × ℕ)
stretch_next unknown t o = o
stretch_next fast t o = none
stretch_next slow t o = some (extended t o)

unfoldable pub stretch : String → List Check → Option (ℕ × ℕ)
stretch hash [] = none
stretch hash (c ∷ cs) =
    let rest = stretch hash cs in
    if str_eq c.hash hash then stretch_next c.speed c.time rest else rest

abbrev pub lasted : ℕ → ℕ → Option (ℕ × ℕ) → Bool
lasted t duration none = false
lasted t duration (some (start, last)) =
    if ltb (last + slow_entry_idle) t then false else leb (start + duration) t

unfoldable pub slow_answer : Speed → ℕ → ℕ → Option (ℕ × ℕ) → Bool
slow_answer unknown t duration o = false
slow_answer fast t duration o = false
slow_answer slow t duration o = lasted t duration o
