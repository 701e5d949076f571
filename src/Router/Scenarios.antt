-- ===== src/Router/Scenarios.antt =====
-- Notices of two instances (backend/internal/notifier/router.go).
use auto_seed_relay.Prelude.{ℕ, List, [], ◌∷◌, String}
use auto_seed_relay.Engine.Submit.Job.{Level, info, warning, critical}
use auto_seed_relay.Router.Window.{Router}

abbrev router : Router
router = record {
  instances =
      record { name = "mail"; tiers = critical ∷ [] }
      ∷ record { name = "chat"; tiers = warning ∷ critical ∷ [] }
      ∷ [];
  window = 600;
  pending = [];
  handed = [];
}

abbrev notices : List (ℕ × Level × String)
notices =
    (0, warning, "disk")
    ∷ (5, critical, "failed")
    ∷ (700, warning, "disk")
    ∷ (710, info, "retire")
    ∷ []
