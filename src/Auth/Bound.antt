-- ===== src/Auth/Bound.antt =====
-- How many attempts the limiter of backend/internal/auth/ratelimit.go lets through.
use auto_seed_relay.Prelude.{
  ℕ, suc, ◌+◌, ◌-◌, ◌≤◌, ◌<◌, ◌≡◌, refl, subst, ◌∙◌, Bool, true, false, List, [], ◌∷◌, Option, none,
  some, String, arith, if◌then◌else◌, leb, lookup, insert, lookup-insert, lookup-empty, string_eq,
  ◌=?◌, All, Bool-cases, inl, inr,
}
use auto_seed_relay.Auth.RateLimit.{
  RateWindow, RateLimiter, current, decide, allow, new_rate_limiter,
}

-- How many of the attempts of a key are allowed; an attempt is a time and a key.
unfoldable pub allowed : String → List (ℕ × String) → RateLimiter → ℕ
allowed key [] r = 0
allowed key ((now, k) ∷ attempts) r =
    let (r', ok, wait) = allow now k r in
    let rest = allowed key attempts r' in if k =? key then (if ok then suc rest else rest) else rest

-- What a key may still use: the rest of its window, and a new window unless it has begun in the stretch.
abbrev budget : ℕ → ℕ → Option RateWindow → ℕ
budget limit t none = limit
budget limit t (some w) = if leb t w.start then limit - w.count else (limit - w.count) + limit

-- One attempt at a time in the stretch uses up the budget by one, if it is allowed.
budget_step :
    (limit window t now : ℕ) (o : Option RateWindow)
    → t ≤ now
    → now < t + window
    → let d = decide limit window now (current now window o) in
      budget limit t (some d.0) + (if d.1 then 1 else 0) ≤ budget limit t o
unfolding decide current
budget_step limit window t now none h k = ground arith
budget_step limit window t now (some w) h k = ground arith

-- An allowed attempt and what comes after it fit into the budget before it.
fits :
    (ok : Bool) (rest before after : ℕ)
    → rest ≤ after
    → after + (if ok then 1 else 0) ≤ before
    → (if ok then suc rest else rest) ≤ before
fits true rest before after h k = omega arith
fits false rest before after h k = omega arith

allowed-le :
    (key : String) (t : ℕ) (attempts : List (ℕ × String)) (r : RateLimiter)
    → All (λ a. (t ≤ a.0) × (a.0 < t + r.window)) attempts
    → allowed key attempts r ≤ budget r.limit t (lookup key r.windows)
unfolding allowed allow
allowed-le key t [] r h = omega arith
allowed-le key t ((now, k) ∷ attempts) r h =
    let d = decide r.limit r.window now (current now r.window (lookup k r.windows)) in
    let r' = record r { windows = insert k d.0 r.windows } in
    let rest = allowed-le key t attempts r' h.1 in
    let step = budget_step r.limit r.window t now (lookup k r.windows) h.0.0 h.0.1 in
    let after = lookup-insert k key d.0 r.windows in
    elim (Bool-cases (k =? key)) [
      | inr other ↦
          let same : lookup key r'.windows ≡ lookup key r.windows = after ∙ rw other refl in
          rw other (subst (λ o. allowed key attempts r' ≤ budget r.limit t o) same rest)
      | inl mine ↦
          let same : lookup key r'.windows ≡ some d.0 = after ∙ rw mine refl in
          rw mine (
            fits d.1 (allowed key attempts r') _ (budget r.limit t (some d.0))
              (subst (λ o. allowed key attempts r' ≤ budget r.limit t o) same rest)
              (subst
                (λ x.
                  budget r.limit t (some d.0) + (if d.1 then 1 else 0)
                  ≤ budget r.limit t (lookup x r.windows))
                ((string_eq.beq_iff k key).0 mine) step))
    ]

budget-le : (limit t : ℕ) (o : Option RateWindow) → budget limit t o ≤ limit + limit
budget-le limit t none = omega arith
budget-le limit t (some w) = ground arith

-- In a stretch of time no longer than the window, whatever other keys do: a new limiter lets at most
-- `limit` attempts of a key through, and a limiter in any state at most twice as many.
pub stretch_bounded :
    (key : String) (t : ℕ) (attempts : List (ℕ × String)) (r : RateLimiter)
    → All (λ a. (t ≤ a.0) × (a.0 < t + r.window)) attempts
    → (allowed key attempts (new_rate_limiter r.limit r.window) ≤ r.limit)
      × (allowed key attempts r ≤ r.limit + r.limit)
unfolding new_rate_limiter
stretch_bounded key t attempts r h =
    let le = allowed-le key t attempts r h in
    let bound = budget-le r.limit t (lookup key r.windows) in
    let start = record r { windows = [] } in
    (
      subst (λ o. allowed key attempts start ≤ budget r.limit t o)
          (lookup-empty key start.windows refl) (allowed-le key t attempts start h),
      omega arith,
    )
