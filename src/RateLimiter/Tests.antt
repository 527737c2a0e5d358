-- ===== src/RateLimiter/Tests.antt =====
-- The theorems about the rate limiter at concrete inputs; thousandths of a token stand for doubles.
use kraken_sdk.Common.{
  ℕ, ◌+◌, ◌-◌, ◌*◌, ◌/◌, ◌≤◌, ◌≡◌, ◌≢◌, refl, true, ltb, leb, if◌then◌else◌, none, some, [], ◌∷◌,
  arith, min, inl, inr,
}
use kraken_sdk.RateLimiter.{TokenArithmetic, RateLimiter, Round, rate_limiter, acquire_blocking}
use kraken_sdk.RateLimiter.Counts.{
  acquires, blocks, resets, IsOrdered, IsCounted, IsFull, open_calls, run, run-IsCounted,
  run-rate_limiter-IsFull,
}
use kraken_sdk.RateLimiter.Burst.{IsMeasured, burst, burst-whole}
use kraken_sdk.RateLimiter.Blocking.{GainsNothing, acquire_blocking_returns}

abbrev thousandths : TokenArithmetic ℕ
thousandths = record {
  of_size = λ n. n * 1000;
  zero = 0;
  has_token = λ x. leb 1000 x;
  is_positive = λ x. ltb 0 x;
  plus = λ x y. x + y;
  less_one = λ x. x - 1000;
  lower = λ x y. if leb x y then x else y;
  gained = λ rate ms. rate * ms / 1000;
  wait_ms = λ tokens rate. (1000 - tokens) * 1000 / rate;
}

thousandths-IsOrdered : IsOrdered thousandths (λ x y. x ≤ y)
thousandths-IsOrdered = record {
  trans = λ x y z h k. omega arith;
  refl_le = λ x. omega arith;
  lower_left = λ x y. ground arith;
  lower_right = λ x y. ground arith;
  less_one_le = λ x. omega arith;
  zero_le = λ n. omega arith;
}

thousandths-IsMeasured : IsMeasured thousandths (λ x. x / 1000)
thousandths-IsMeasured = record {
  has_token_lem = λ x. ground arith;
  less_one_lem = λ x h. ground arith;
}

-- Two requests a second, and a burst of three.
abbrev two_a_second : RateLimiter ℕ
two_a_second = record {
  tokens = 3000;
  refill_rate = 2000;
  max_tokens = 3;
  enabled = true;
  last_refill = 0;
  total_requests = 0;
  allowed_requests = 0;
  rate_limited = 0;
}

abbrev empty : RateLimiter ℕ
empty = record two_a_second { tokens = 0 }

abbrev stopped : RateLimiter ℕ
stopped = record empty { refill_rate = 0 }

abbrev round_at : ℕ → Round
round_at now = record { refill_now = now; check_now = now; wait_now = now }

-- The first round sleeps, and in the second there is a token.
waits_for_token :
    (acquire_blocking thousandths empty 1000 0
      (round_at 400000000 ∷ round_at 500000000 ∷ [])).result
    ≡ some true
unfolding acquire_blocking kraken_sdk.RateLimiter.block kraken_sdk.RateLimiter.refill_tokens
    kraken_sdk.RateLimiter.wait_time
waits_for_token = refl

run-IsCounted_example :
    IsCounted thousandths
      (run thousandths two_a_second (acquires 5 ∷ blocks 0 5 [] ∷ acquires 9 ∷ []))
      (0 + open_calls thousandths two_a_second (acquires 5 ∷ blocks 0 5 [] ∷ acquires 9 ∷ []))
run-IsCounted_example =
    run-IsCounted thousandths two_a_second (acquires 5 ∷ blocks 0 5 [] ∷ acquires 9 ∷ []) 0 refl

run-rate_limiter-IsFull_example :
    IsFull thousandths thousandths-IsOrdered
      (run thousandths (rate_limiter thousandths 2000 3 true 0) (acquires 5 ∷ resets 7 ∷ []))
run-rate_limiter-IsFull_example =
    run-rate_limiter-IsFull thousandths thousandths-IsOrdered 2000 3 true 0
      (acquires 5 ∷ resets 7 ∷ [])

burst-whole_example :
    ((burst thousandths two_a_second 9 5).1 ≡ min 5 (3000 / 1000))
    × ((burst thousandths two_a_second 9 5).0.tokens / 1000 ≡ 3000 / 1000 - 5)
burst-whole_example =
    burst-whole thousandths thousandths-IsMeasured two_a_second 9 5
      (record { enabled = refl; refilling = refl; refilled = refl })

acquire_blocking_returns_example :
    (acquire_blocking thousandths empty 10 0 (round_at 1000000 ∷ round_at 20000000 ∷ [])).result
    ≢ none
acquire_blocking_returns_example =
    acquire_blocking_returns thousandths empty 10 0 (round_at 1000000 ∷ round_at 20000000 ∷ [])
      (omega arith) (inr (inl (omega arith)))

gains_nothing : GainsNothing thousandths
gains_nothing x y rate ms h k =
    let still : rate ≡ 0 = ground arith in ground (arith, no_gain rate ms still)
  where
    no_gain : (rate ms : ℕ) → rate ≡ 0 → rate * ms / 1000 ≡ 0
    no_gain rate ms z = rw z (omega arith)
