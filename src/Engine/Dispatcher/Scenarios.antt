-- ===== src/Engine/Dispatcher/Scenarios.antt =====
-- Selections among concrete instances (backend/internal/engine/dispatcher.go).
use text.Mathlib.Text.{◌==◌ as str_eq}
use text.Mathlib.TextEquality.{eq_iff}
use auto_seed_relay.Prelude.{
  ◌≢◌, Bool, true, List, [], ◌∷◌, none, some, String, All, arith, if◌then◌else◌,
}
use auto_seed_relay.Engine.Dispatcher.Select.{
  QbInstance, free_of, count_of, more, fewer, most_free_disk, least_jobs,
}
use auto_seed_relay.Engine.Dispatcher.Best.{Picks, strategies_pick_best}

-- The manager has "a" and "b".
abbrev manager_has : String → Bool
manager_has name = if str_eq name "a" then true else str_eq name "b"

abbrev instances : List QbInstance
instances =
    record { name = "c"; free_on_disk = some 90; torrents = some 0 }
    ∷ record { name = "a"; free_on_disk = some 10; torrents = none }
    ∷ record { name = "b"; free_on_disk = some 30; torrents = some 4 }
    ∷ []

real_names : All (λ q. q.name ≢ "") instances
real_names = (
  ground (arith, eq_iff "c" ""),
  (ground (arith, eq_iff "a" ""), (ground (arith, eq_iff "b" ""), tt)),
)

strategies_pick_best_example :
    Picks manager_has more free_of instances (most_free_disk manager_has instances)
    × Picks manager_has fewer count_of instances (least_jobs manager_has instances)
strategies_pick_best_example = strategies_pick_best manager_has instances real_names
