-- ===== src/Backoff/Tests.antt =====
-- The theorems about retry delays at concrete inputs, over whole numbers in place of doubles.
use kraken_sdk.Common.{
  ℕ, ◌+◌, ◌*◌, ◌^◌, ◌≤◌, ◌≡◌, refl, ltb, leb, if◌then◌else◌, List, [], ◌∷◌, arith,
}
use kraken_sdk.Backoff.{
  Arithmetic, ExponentialBackoff, BackoffStrategy, exponential, max_attempts, should_stop, reset,
  clone, next_delay,
}
use kraken_sdk.Backoff.Delays.{IsOrdered}

abbrev pub whole : Arithmetic ℕ
whole = record {
  of_ms = λ n. n;
  to_ms = λ n. n;
  zero = 0;
  is_positive = λ n. ltb 0 n;
  times = λ x y. x * y;
  power = λ x n. x ^ n;
  lower = λ x y. if leb x y then x else y;
  upper = λ x y. if leb x y then y else x;
  spread = λ base x. base + x;
}

whole-IsOrdered : IsOrdered whole (λ x y. x ≤ y)
whole-IsOrdered = record {
  trans = λ x y z h k. omega arith;
  lower_le = λ x y. ground arith;
  upper_le = λ x y z h k. ground arith;
  zero_le = λ n. omega arith;
  refl_le = λ x. omega arith;
  cut_le = λ x y h. h;
  cut_of_ms = λ n. refl;
  spread_le = λ x y s j h k. omega arith;
  spread_zero = λ n j h. omega arith;
}

abbrev pub doubling : ExponentialBackoff ℕ
doubling = record {
  initial_delay = 100;
  max_delay = 1000;
  multiplier = 2;
  jitter_factor = 30;
  max_attempts = 3;
  attempt = 2;
}

-- The third delay doubles the first twice, and the fourth call finds the attempts used up.
third_delay : (next_delay whole (exponential doubling) 7).1 ≡ 407
unfolding next_delay kraken_sdk.Backoff.jittered_ms
third_delay = refl

fourth_delay : (next_delay whole (exponential (record doubling { attempt = 3 })) 7).1 ≡ 1000
unfolding next_delay
fourth_delay = refl

abbrev three_draws : List ℕ
three_draws = 1 ∷ 2 ∷ 3 ∷ []
