-- ===== src/Engine/Monitor/Conditions.antt =====
-- When `shouldRetire` of backend/internal/engine/monitor.go says so.
use text.Mathlib.Text.{◌==◌ as str_eq}
use auto_seed_relay.Prelude.{
  ℕ, ◌+◌, ◌*◌, ◌≤◌, ◌<◌, ◌≡◌, ◌↔◌, Bool, true, false, [], ◌∷◌, String, arith, if◌then◌else◌, ◌&&◌,
  ◌||◌, ◌⊎◌,
}
use auto_seed_relay.Engine.Strategy.{Strategy}
use auto_seed_relay.Engine.Monitor.Retire.{
  TorrentInfo, nanos_per_second, seeders_ok, time_ok, ratio_ok, combine, should_retire,
}

combine-or :
    (mode : String) (met enabled a b : Bool)
    → str_eq mode "or" ≡ true
    → combine mode met (if enabled then a ∷ b ∷ [] else a ∷ []) ≡ (met || a || (enabled && b))
unfolding combine
combine-or mode met enabled a b h = ground arith

combine-and :
    (mode : String) (met enabled a b : Bool)
    → str_eq mode "or" ≡ false
    → combine mode met (if enabled then a ∷ b ∷ [] else a ∷ [])
      ≡ (met && a && (if enabled then b else true))
unfolding combine
combine-and mode met enabled a b h = ground arith

-- The torrent has been complete for longer than the strategy's minutes.
abbrev pub HasAged : TorrentInfo → Strategy → ℕ → Type 0
HasAged t st now =
    (0 < t.completion_on)
    × (st.retire_minutes * (60 * nanos_per_second) + t.completion_on * nanos_per_second < now)

time_ok_lem :
    (t : TorrentInfo) (st : Strategy) (now : ℕ) → (time_ok t st now ≡ true) ↔ HasAged t st now
time_ok_lem t st now = ground arith

or_lem :
    (a b c d : Bool)
    → ((a || b || (c && d)) ≡ true) ↔ ((a ≡ true) ⊎ (b ≡ true) ⊎ ((c ≡ true) × (d ≡ true)))
or_lem a b c d = ground arith

and_lem :
    (a b c d : Bool)
    → ((a && b && (if c then d else true)) ≡ true)
      ↔ ((a ≡ true) × (b ≡ true) × (c ≡ true → d ≡ true))
and_lem a b c d = ground arith

-- In the mode "or" a torrent is retired exactly if it has enough seeders, or is complete for long enough,
-- or the ratio is enabled and reached. In every other mode it is retired exactly if it has enough seeders,
-- is complete for long enough, and has reached the ratio if that is enabled.
pub should_retire_iff :
    (t : TorrentInfo) (st : Strategy) (now : ℕ)
    → (str_eq st.retire_mode "or" ≡ true
        → (should_retire t st now ≡ true) ↔ (
            (st.retire_seeders ≤ t.seeders)
            ⊎ HasAged t st now
            ⊎ ((st.retire_ratio_enabled ≡ true) × (st.retire_ratio ≤ t.ratio))))
      × (str_eq st.retire_mode "or" ≡ false
          → (should_retire t st now ≡ true) ↔ (
              (st.retire_seeders ≤ t.seeders)
              × HasAged t st now
              × (st.retire_ratio_enabled ≡ true → st.retire_ratio ≤ t.ratio)))
unfolding should_retire
should_retire_iff t st now = (
  (λ h.
      rw
        (combine-or st.retire_mode (seeders_ok t st) st.retire_ratio_enabled (time_ok t st now)
          (ratio_ok t st) h)
        (ground arith)),
  (λ h.
      rw
        (combine-and st.retire_mode (seeders_ok t st) st.retire_ratio_enabled (time_ok t st now)
          (ratio_ok t st) h)
        (ground arith)),
)
