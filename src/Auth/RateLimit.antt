-- ===== src/Auth/RateLimit.antt =====
-- The fixed-window limiter of backend/internal/auth/ratelimit.go. Times and durations are nanoseconds;
-- `now.Sub(w.start) >= r.window` is written without subtraction.
use auto_seed_relay.Prelude.{
  ℕ, ◌+◌, ◌-◌, ◌*◌, Bool, true, false, List, [], Option, none, some, String, if◌then◌else◌, leb,
  lookup, insert, string_eq,
}

abbrev pub login_limit_per_minute : ℕ
login_limit_per_minute = 5

abbrev pub login_window : ℕ
login_window = 60 * 1_000_000_000

pub record RateWindow : Type 0 where
  pub start : ℕ
  pub count : ℕ

pub record RateLimiter : Type 0 where
  pub limit : ℕ
  pub window : ℕ
  pub windows : List (String × RateWindow)

unfoldable pub new_rate_limiter : ℕ → ℕ → RateLimiter
new_rate_limiter limit window = record { limit = limit; window = window; windows = [] }

-- The window that counts at a time: the one there is, or a new one.
unfoldable pub current : ℕ → ℕ → Option RateWindow → RateWindow
current now window none = record { start = now; count = 0 }
current now window (some w) =
    if leb (w.start + window) now then record { start = now; count = 0 } else w

-- The window after an attempt, whether that is allowed, and the time until the window ends if not.
unfoldable pub decide : ℕ → ℕ → ℕ → RateWindow → RateWindow × Bool × ℕ
decide limit window now w =
    if leb limit w.count
    then (w, false, w.start + window - now)
    else (record w { count = w.count + 1 }, true, 0)

-- `allow`
unfoldable pub allow : ℕ → String → RateLimiter → RateLimiter × Bool × ℕ
allow now key r =
    let (w, ok, wait) = decide r.limit r.window now (current now r.window (lookup key r.windows)) in
    (record r { windows = insert key w r.windows }, ok, wait)
