-- ===== src/Backoff.antt =====
-- Retry delays: include/kraken/connection/backoff.hpp.
--
-- The three subclasses of BackoffStrategy are the constructors of a data type; a virtual method is a
-- function by clauses. Delays are in milliseconds. `max_attempts` is an `int` of which only the test
-- `> 0` and the comparison with the count are used: one that is not positive stands here as 0. The
-- arithmetic on doubles of `ExponentialBackoff` is the record `Arithmetic`; the number that the
-- random generator draws is an argument.
pub mod Attempts
pub mod Delays
pub mod Presets
pub mod Tests
use kraken_sdk.Common.{ℕ, suc, ◌+◌, ◌≤◌, ◌≡◌, Bool, true, false, ◌&&◌, ltb, leb, if◌then◌else◌}

-- Operations on `double`.
pub record Arithmetic (D : Type 0) : Type 0 where
  pub of_ms : ℕ → D  -- static_cast<double>
  pub to_ms : D → ℕ  -- static_cast<int64_t>, of a number that is not negative
  pub zero : D  -- 0.0
  pub is_positive : D → Bool  -- `> 0.0`
  pub times : D → D → D
  pub power : D → ℕ → D  -- std::pow
  pub lower : D → D → D  -- std::min
  pub upper : D → D → D  -- std::max
  pub spread : D → D → D  -- `base * (1.0 + x)`

pub record FixedBackoff : Type 0 where
  pub delay : ℕ
  pub max_attempts : ℕ
  pub attempt : ℕ

pub record NoBackoff : Type 0 where
  pub max_attempts : ℕ
  pub attempt : ℕ

pub record ExponentialBackoff (D : Type 0) : Type 0 where
  pub initial_delay : ℕ
  pub max_delay : ℕ
  pub multiplier : D
  pub jitter_factor : D
  pub max_attempts : ℕ
  pub attempt : ℕ

pub data BackoffStrategy (D : Type 0) : Type 0 where
  fixed : FixedBackoff → BackoffStrategy D
  immediate : NoBackoff → BackoffStrategy D
  exponential : ExponentialBackoff D → BackoffStrategy D

module _ {D : Type 0} where
  -- The private fields `attempt_` and `max_attempts_` of each class.
  abbrev pub attempt_of : BackoffStrategy D → ℕ
  attempt_of (fixed b) = b.attempt
  attempt_of (immediate b) = b.attempt
  attempt_of (exponential b) = b.attempt

  abbrev pub max_attempts : BackoffStrategy D → ℕ
  max_attempts (fixed b) = b.max_attempts
  max_attempts (immediate b) = b.max_attempts
  max_attempts (exponential b) = b.max_attempts

  abbrev pub with_attempt : BackoffStrategy D → ℕ → BackoffStrategy D
  with_attempt (fixed b) n = fixed (record b { attempt = n })
  with_attempt (immediate b) n = immediate (record b { attempt = n })
  with_attempt (exponential b) n = exponential (record b { attempt = n })

  unfoldable pub should_stop : BackoffStrategy D → Bool
  should_stop b = ltb 0 (max_attempts b) && leb (max_attempts b) (attempt_of b)

  unfoldable pub current_attempt : BackoffStrategy D → ℕ
  current_attempt b = attempt_of b + 1

  unfoldable pub reset : BackoffStrategy D → BackoffStrategy D
  reset b = with_attempt b 0

  -- The constructors of the copies, and the copied fields, leave the count at 0.
  unfoldable pub clone : BackoffStrategy D → BackoffStrategy D
  clone (fixed b) = fixed (record { delay = b.delay; max_attempts = b.max_attempts; attempt = 0 })
  clone (immediate b) = immediate (record { max_attempts = b.max_attempts; attempt = 0 })
  clone (exponential b) = exponential (record {
    initial_delay = b.initial_delay;
    max_delay = b.max_delay;
    multiplier = b.multiplier;
    jitter_factor = b.jitter_factor;
    max_attempts = b.max_attempts;
    attempt = 0;
  })

module _ {D : Type 0} (a : Arithmetic D) where
  -- The delay of `ExponentialBackoff::next_delay` before it is cut to whole milliseconds.
  unfoldable pub jittered_ms : ExponentialBackoff D → D → D
  jittered_ms b sample =
      let base =
        a.lower (a.times (a.of_ms b.initial_delay) (a.power b.multiplier b.attempt))
          (a.of_ms b.max_delay) in
      a.upper a.zero (if a.is_positive b.jitter_factor then a.spread base sample else base)

  exponential_delay : ExponentialBackoff D → D → BackoffStrategy D × ℕ
  exponential_delay b sample =
      if ltb 0 b.max_attempts && leb b.max_attempts b.attempt
      then (exponential b, b.max_delay)
      else (exponential (record b { attempt = suc b.attempt }), a.to_ms (jittered_ms b sample))

  unfoldable pub next_delay : BackoffStrategy D → D → BackoffStrategy D × ℕ
  unfolding exponential_delay
  next_delay (fixed b) sample = (fixed (record b { attempt = suc b.attempt }), b.delay)
  next_delay (immediate b) sample = (immediate (record b { attempt = suc b.attempt }), 0)
  next_delay (exponential b) sample = exponential_delay b sample
