-- ===== src/Backoff/Presets.antt =====
-- The builder and the presets of `ExponentialBackoff`: include/kraken/connection/backoff.hpp.
use kraken_sdk.Common.{ℕ}
use kraken_sdk.Backoff.{ExponentialBackoff}

-- The constants of type `double`, and `std::clamp(x, 0.0, 1.0)`.
pub record Factors (D : Type 0) : Type 0 where
  pub one_tenth : D
  pub one_fifth : D
  pub three_tenths : D
  pub one_half_more : D  -- 1.5
  pub two : D
  pub clamp : D → D

pub record Builder (D : Type 0) : Type 0 where
  pub initial_delay : ℕ
  pub max_delay : ℕ
  pub multiplier : D
  pub jitter_factor : D
  pub max_attempts : ℕ

module _ {D : Type 0} (f : Factors D) where
  unfoldable pub builder : Builder D
  builder = record {
    initial_delay = 1000;
    max_delay = 60000;
    multiplier = f.two;
    jitter_factor = f.three_tenths;
    max_attempts = 10;
  }

  -- The calls of the setters in the order in which all users make them.
  unfoldable pub set_all : ℕ → ℕ → D → D → ℕ → Builder D → Builder D
  set_all initial_delay max_delay multiplier jitter max_attempts b = record {
    initial_delay = initial_delay;
    max_delay = max_delay;
    multiplier = multiplier;
    jitter_factor = f.clamp jitter;
    max_attempts = max_attempts;
  }

  unfoldable pub build_backoff : Builder D → ExponentialBackoff D
  build_backoff b = record {
    initial_delay = b.initial_delay;
    max_delay = b.max_delay;
    multiplier = b.multiplier;
    jitter_factor = b.jitter_factor;
    max_attempts = b.max_attempts;
    attempt = 0;
  }

  unfoldable pub aggressive : ExponentialBackoff D
  aggressive = build_backoff (set_all 100 5000 f.one_half_more f.one_tenth 20 builder)

  unfoldable pub conservative : ExponentialBackoff D
  conservative = build_backoff (set_all 1000 120000 f.two f.three_tenths 10 builder)

  unfoldable pub infinite : ExponentialBackoff D
  infinite = build_backoff (set_all 1000 300000 f.two f.three_tenths 0 builder)
