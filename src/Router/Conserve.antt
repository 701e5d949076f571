-- ===== src/Router/Conserve.antt =====
-- Counting the lines of notices (backend/internal/notifier/router.go).
use text.Mathlib.Text.{◌==◌ as str_eq}
use auto_seed_relay.Prelude.{
  ℕ, ◌+◌, ◌<◌, ◌≡◌, ◌≢◌, refl, false, List, [], ◌∷◌, String, arith, if◌then◌else◌, ltb, All,
  Bool-cases, inl, inr,
}
use auto_seed_relay.Engine.Submit.Job.{Level, info, warning, critical}
use auto_seed_relay.Router.Window.{
  RoutedInstance, Aggregate, Router, subscribes, is_known, not_due, flush_expired, buffer,
  notify_level,
}

-- The lines that are for an instance.
abbrev pub lines_for : String → List Aggregate → ℕ
lines_for name [] = 0
lines_for name (a ∷ rest) =
    (if str_eq a.instance_name name then a.lines else 0) + lines_for name rest

-- How many of the instances have the name and subscribe to the level.
abbrev pub subscribers : String → Level → List RoutedInstance → ℕ
subscribers name level [] = 0
subscribers name level (i ∷ is) =
    (if subscribes level i then if str_eq i.name name then 1 else 0 else 0)
    + subscribers name level is

-- A subscriber is known.
subscribers-known :
    (x : String) (level : Level) (is : List RoutedInstance)
    → is_known x is ≡ false
    → subscribers x level is ≡ 0
unfolding is_known
subscribers-known x level [] h = refl
subscribers-known x level (i ∷ is) h = ground (arith, subscribers-known x level is)

-- Notices with their times.
unfoldable pub notify_all : List (ℕ × Level × String) → Router → Router
notify_all [] r = r
notify_all ((now, level, event) ∷ notices) r = notify_all notices (notify_level now level event r)

abbrev pub expected : String → List (ℕ × Level × String) → List RoutedInstance → ℕ
expected x [] is = 0
expected x ((now, level, event) ∷ notices) is = subscribers x level is + expected x notices is

abbrev pub held : String → Router → ℕ
held x r = lines_for x r.pending + lines_for x r.handed

not_due-later :
    (now : ℕ) (pending : List Aggregate) → All (λ a. now < a.deadline) (not_due now pending)
unfolding not_due
not_due-later now [] = tt
not_due-later now (a ∷ pending) = elim (Bool-cases (ltb now a.deadline)) [
  | inl later ↦ rw later (ground arith, not_due-later now pending)
  | inr due ↦ rw due (not_due-later now pending)
]

-- After a warning or an info no window is left whose deadline is not after the clock.
notify_flushes :
    (now : ℕ) (level : Level) (event : String) (r : Router)
    → level ≢ critical
    → All (λ a. now < a.deadline) (notify_level now level event r).pending
unfolding notify_level buffer flush_expired
notify_flushes now info event r h = not_due-later now _
notify_flushes now warning event r h = not_due-later now _
notify_flushes now critical event r h = absurd (h refl)
