-- ===== src/Engine/Strategy.antt =====
-- The strategy row that the engine reads (backend/internal/store/models.go), with its defaults
-- (backend/internal/engine/engine.go).
use auto_seed_relay.Prelude.{ℕ, Option, none, some, String, Bool, false}

-- The columns that the engine reads; `retire_ratio` is in hundredths and `RetireRatioEnabled != 0` is a
-- Boolean. `RetryMax` is an int64, of which 0 stands for every value that is not positive.
pub record Strategy : Type 0 where
  pub retire_seeders : ℕ
  pub retire_minutes : ℕ
  pub retire_ratio_enabled : Bool
  pub retire_ratio : ℕ
  pub retire_mode : String
  pub dispatch_mode : String
  pub retry_max : ℕ
  pub disk_low_gb : ℕ
  pub disk_critical_gb : ℕ

unfoldable pub default_strategy : Strategy
default_strategy = record {
  retire_seeders = 10;
  retire_minutes = 60;
  retire_ratio_enabled = false;
  retire_ratio = 0;
  retire_mode = "and";
  dispatch_mode = "priority";
  retry_max = 3;
  disk_low_gb = 50;
  disk_critical_gb = 20;
}

-- `Engine.strategy`: the row, or the defaults on any error.
unfoldable pub strategy_or_default : Option Strategy → Strategy
strategy_or_default none = default_strategy
strategy_or_default (some st) = st
