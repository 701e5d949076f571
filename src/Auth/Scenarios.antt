-- ===== src/Auth/Scenarios.antt =====
-- Login attempts and a session (backend/internal/auth).
use text.Mathlib.Text.{starts_with}
use auto_seed_relay.Prelude.{
  ℕ, ◌+◌, ◌≤◌, ◌<◌, ◌≡◌, Bool, true, false, not, ◌||◌, ltb, List, [], ◌∷◌, some, String, All, arith,
}
use auto_seed_relay.Auth.RateLimit.{RateLimiter, new_rate_limiter}
use auto_seed_relay.Auth.Session.{
  session_ttl, session_cookie, authenticated, csrf_valid, WebRequest, passes, is_auth_exempt,
  changes_state, middleware,
}
use auto_seed_relay.Auth.Accepted.{Signed, session_gate}
use auto_seed_relay.Auth.Unary.{unary_codec}
use auto_seed_relay.Auth.Bound.{allowed, stretch_bounded}

abbrev limiter : RateLimiter
limiter = record { limit = 2; window = 60; windows = ("eve", record { start = 0; count = 1 }) ∷ [] }

abbrev attempts : List (ℕ × String)
attempts = (50, "eve") ∷ (55, "bob") ∷ (70, "eve") ∷ (75, "eve") ∷ (80, "eve") ∷ []

attempts_near : All (λ a. (50 ≤ a.0) × (a.0 < 50 + limiter.window)) attempts
attempts_near = ground arith

stretch_bounded_example :
    (allowed "eve" attempts (new_rate_limiter limiter.limit limiter.window) ≤ limiter.limit)
    × (allowed "eve" attempts limiter ≤ limiter.limit + limiter.limit)
stretch_bounded_example = stretch_bounded "eve" 50 attempts limiter attempts_near

session_gate_example :
    (authenticated unary_codec 90_000 (some (session_cookie unary_codec 5_000))
      ≡ ltb 90_000 (5_000 + session_ttl))
    × ((initialized : Bool) (r : WebRequest)
        → (not (starts_with r.path "/api/v2/") || is_auth_exempt r.path) ≡ false
        → middleware unary_codec initialized 90_000 r ≡ passes
        → (initialized ≡ true)
          × ((value : String) × (r.session ≡ some value)
              × ((exp : ℕ) × Signed unary_codec value exp × (90_000 < exp)))
          × (changes_state r.method ≡ true → csrf_valid r.csrf_header r.csrf_cookie ≡ true))
session_gate_example = session_gate unary_codec 5_000 90_000 (omega arith)
