-- ===== src/Qb/Slow.antt =====
-- `IsSlow` and its tracker, of backend/internal/qb/client.go. Times are nanoseconds; the clock is an
-- argument, and an unset `belowStart` is none. Whether a state is "downloading" or "stalledDL" but for
-- case is an argument.
use auto_seed_relay.Prelude.{
  ℕ, ◌+◌, ◌*◌, Bool, false, List, [], ◌∷◌, Option, none, some, String, if◌then◌else◌, ltb, leb,
  lookup, insert, erase, string_eq,
}

-- `slowEntryIdle`
abbrev pub slow_entry_idle : ℕ
slow_entry_idle = 10 * 60 * 1_000_000_000

pub record SlowEntry : Type 0 where
  pub below_start : Option ℕ
  pub last_seen : ℕ

abbrev pub Tracker : Type 0
Tracker = List (String × SlowEntry)

-- What a call finds out about the torrent: nothing, that it is fast enough or not downloading, or that
-- it is slow.
pub data Speed : Type 0 where
  unknown fast slow : Speed

-- The state and the speed of the torrent, if qBittorrent has answered and knows it.
unfoldable pub speed_of : (String → Bool) → ℕ → Option (String × ℕ) → Speed
speed_of downloading threshold_kbps none = unknown
speed_of downloading threshold_kbps (some (state, dlspeed)) =
    if downloading state then if leb (threshold_kbps * 1024) dlspeed then fast else slow else fast

abbrev pub is_idle : ℕ → SlowEntry → Bool
is_idle now e = ltb (e.last_seen + slow_entry_idle) now

-- `pruneSlowTrackerLocked`
unfoldable pub prune : ℕ → Tracker → Tracker
prune now [] = []
prune now ((h, e) ∷ m) =
    let rest = prune now m in if is_idle now e then erase h rest else (h, e) ∷ rest

abbrev pub reset_entry : ℕ → String → Option SlowEntry → Tracker → Tracker
reset_entry now hash none m = m
reset_entry now hash (some e) m = insert hash (record { below_start = none; last_seen = now }) m

-- `resetSlowTimer`
unfoldable pub reset_slow_timer : ℕ → String → Tracker → Tracker
reset_slow_timer now hash m = reset_entry now hash (lookup hash m) m

abbrev pub entry_at : ℕ → ℕ → SlowEntry
entry_at start now = record { below_start = some start; last_seen = now }

abbrev pub start_or : ℕ → Option ℕ → ℕ
start_or now none = now
start_or now (some start) = start

abbrev pub elapsed : ℕ → ℕ → Option ℕ → Bool
elapsed duration now none = false
elapsed duration now (some start) = leb (start + duration) now

unfoldable pub touch : ℕ → ℕ → String → Option SlowEntry → Tracker → Tracker × Bool
touch now duration hash none m = (insert hash (entry_at now now) m, false)
touch now duration hash (some e) m =
    (insert hash (entry_at (start_or now e.below_start) now) m, elapsed duration now e.below_start)

-- `IsSlow`
unfoldable pub is_slow : ℕ → ℕ → String → Speed → Tracker → Tracker × Bool
is_slow now duration hash unknown m = (m, false)
is_slow now duration hash fast m = (reset_slow_timer now hash m, false)
is_slow now duration hash slow m =
    let pruned = prune now m in touch now duration hash (lookup hash pruned) pruned
