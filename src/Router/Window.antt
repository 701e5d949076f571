-- ===== src/Router/Window.antt =====
-- The aggregation windows of backend/internal/notifier/router.go. A message is its event; the lines of an
-- aggregate are their number. `handed` lists the aggregates and critical messages that were given to
-- `send`, behind which each instance has its breaker. The maps are lists; a key of `pending` is the
-- instance, the level and the event, which the program joins by "|".
use text.Mathlib.Text.{◌==◌ as str_eq}
use auto_seed_relay.Prelude.{
  ℕ, ◌+◌, Bool, true, false, List, [], ◌∷◌, ◌++◌, String, if◌then◌else◌, ltb, ◌&&◌, any,
}
use auto_seed_relay.Engine.Submit.Job.{Level, info, warning, critical}

abbrev pub same_level : Level → Level → Bool
same_level info info = true
same_level warning warning = true
same_level critical critical = true
same_level _ _ = false

-- `routedInstance`, with the levels that it subscribes to.
pub record RoutedInstance : Type 0 where
  pub name : String
  pub tiers : List Level

pub record Aggregate : Type 0 where
  pub instance_name : String
  pub tier : Level
  pub topic : String
  pub lines : ℕ
  pub deadline : ℕ

pub record Router : Type 0 where
  pub instances : List RoutedInstance
  pub window : ℕ
  pub pending : List Aggregate
  pub handed : List Aggregate

unfoldable pub subscribes : Level → RoutedInstance → Bool
subscribes level i = any (same_level level) i.tiers

unfoldable pub has_slot : String → Level → String → Aggregate → Bool
has_slot name level event a =
    str_eq a.instance_name name && same_level a.tier level && str_eq a.topic event

-- The aggregate of a key takes one more line, and is made if it is not there.
unfoldable pub add_line : String → Level → String → ℕ → List Aggregate → List Aggregate
add_line name level event deadline [] =
    record { instance_name = name; tier = level; topic = event; lines = 1; deadline = deadline }
    ∷ []
add_line name level event deadline (a ∷ pending) =
    if has_slot name level event a
    then record a { lines = a.lines + 1 } ∷ pending
    else a ∷ add_line name level event deadline pending

-- The loop of `buffer` over the instances.
unfoldable pub buffer_all :
    Level → String → ℕ → List RoutedInstance → List Aggregate → List Aggregate
buffer_all level event deadline [] pending = pending
buffer_all level event deadline (i ∷ instances) pending =
    let with_line =
      buffer_all level event deadline instances (add_line i.name level event deadline pending) in
    let without = buffer_all level event deadline instances pending in
    if subscribes level i then with_line else without

unfoldable pub is_known : String → List RoutedInstance → Bool
is_known name instances = any (λ i. str_eq i.name name) instances

abbrev pub is_due : ℕ → Aggregate → Bool
is_due now a = if ltb now a.deadline then false else true

-- The aggregates that are due and whose instance is known, in the order of the list.
unfoldable pub due_known : ℕ → List RoutedInstance → List Aggregate → List Aggregate
due_known now instances [] = []
due_known now instances (a ∷ pending) =
    let rest = due_known now instances pending in
    if is_due now a then if is_known a.instance_name instances then a ∷ rest else rest else rest

unfoldable pub not_due : ℕ → List Aggregate → List Aggregate
not_due now [] = []
not_due now (a ∷ pending) =
    let rest = not_due now pending in if is_due now a then rest else a ∷ rest

-- `flushExpired`
unfoldable pub flush_expired : ℕ → Router → Router
flush_expired now r = record r {
  pending = not_due now r.pending;
  handed = r.handed ++ due_known now r.instances r.pending;
}

-- `buffer`, at one reading of the clock.
unfoldable pub buffer : ℕ → Level → String → Router → Router
buffer now level event r =
    flush_expired now
      (record r { pending = buffer_all level event (now + r.window) r.instances r.pending })

-- `dispatch`: one message to each instance that subscribes.
unfoldable pub dispatch_all : ℕ → Level → String → List RoutedInstance → List Aggregate
dispatch_all now level event [] = []
dispatch_all now level event (i ∷ instances) =
    let rest = dispatch_all now level event instances in
    if subscribes level i
    then record { instance_name = i.name; tier = level; topic = event; lines = 1; deadline = now }
      ∷ rest
    else rest

-- `Notify`
unfoldable pub notify_level : ℕ → Level → String → Router → Router
notify_level now critical event r = record r {
  handed = r.handed ++ dispatch_all now critical event r.instances;
}
notify_level now info event r = buffer now info event r
notify_level now warning event r = buffer now warning event r
