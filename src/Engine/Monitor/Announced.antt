-- ===== src/Engine/Monitor/Announced.antt =====
-- The critical notices of the monitor over its rounds (backend/internal/engine/monitor.go).
use text.Mathlib.Text.{◌==◌ as str_eq}
use auto_seed_relay.Prelude.{
  ℕ, ◌+◌, ◌≡◌, Bool, true, false, not, List, [], ◌∷◌, ◌++◌, Option, none, some, String, arith,
  if◌then◌else◌, ◌&&◌, string_eq,
}
use auto_seed_relay.Engine.Strategy.{Strategy}
use auto_seed_relay.Engine.Submit.Job.{Level, Notice, info, warning, critical}
use auto_seed_relay.Engine.Monitor.Watch.{Monitor, observe_health, disk_level, monitor_disk}
use auto_seed_relay.Qb.Manager.{Status}

abbrev is_critical : Level → Bool
is_critical info = false
is_critical warning = false
is_critical critical = true

-- How many critical notices of an event were sent.
abbrev pub alarms : String → List Notice → ℕ
alarms event [] = 0
alarms event (n ∷ notices) =
    (if is_critical n.level && str_eq n.event event then 1 else 0) + alarms event notices

pub alarms-append :
    (event : String) (xs ys : List Notice)
    → alarms event (xs ++ ys) ≡ alarms event xs + alarms event ys
alarms-append event [] ys = omega arith
alarms-append event (n ∷ xs) ys = omega (arith, alarms-append event xs ys)

-- What the monitor looks at: the health of the instances, or the disk of one of them.
pub data Look : Type 0 where
  health : List Status → Look
  disk : Strategy → String → Option ℕ → Look

unfoldable pub look : Look → Monitor → Monitor
look (health statuses) m = observe_health statuses m
look (disk st name free) m = monitor_disk st name free m

unfoldable pub looks : List Look → Monitor → Monitor
looks [] m = m
looks (l ∷ ls) m = looks ls (look l m)

-- The specification. Whether no instance is online:
abbrev pub none_online : List Status → Bool
none_online [] = true
none_online (s ∷ statuses) = if s.online then false else none_online statuses

-- how often an outage of all instances begins,
unfoldable pub outages : Bool → List Look → ℕ
outages down [] = 0
outages down (disk st name free ∷ ls) = outages down ls
outages down (health [] ∷ ls) = outages down ls
outages down (health (s ∷ statuses) ∷ ls) =
    let now_down = none_online (s ∷ statuses) in
    (if now_down && not down then 1 else 0) + outages now_down ls

abbrev pub set_level : String → String → (String → String) → String → String
set_level name level f n = if str_eq name n then level else f n

-- and how often the disk of an instance becomes critically full.
unfoldable pub fillings : (String → String) → List Look → ℕ
fillings f [] = 0
fillings f (health statuses ∷ ls) = fillings f ls
fillings f (disk st name none ∷ ls) = fillings f ls
fillings f (disk st name (some free) ∷ ls) =
    let level = disk_level st free in
    (if str_eq level "critical" && not (str_eq (f name) "critical") then 1 else 0)
    + fillings (set_level name level f) ls
