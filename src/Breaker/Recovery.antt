-- ===== src/Breaker/Recovery.antt =====
-- How an open breaker closes again, and what a failure on the way does.
use kraken_sdk.Common.{
  ℕ, ◌+◌, ◌-◌, ◌^◌, ◌≤◌, ◌<◌, ◌≡◌, refl, true, false, List, [], ◌∷◌, ◌++◌, arith, length,
}
use kraken_sdk.Breaker.{
  closed, open_state, half_open, CircuitBreaker, can_attempt, record_success, record_failure,
}

-- Successes in a row, with the readings of the clock.
unfoldable pub succeed_all : CircuitBreaker → List ℕ → CircuitBreaker
succeed_all b [] = b
succeed_all b (t ∷ ts) = succeed_all (record_success b t) ts

counted_success :
    (b : CircuitBreaker) (t : ℕ)
    → b.state ≡ half_open
    → b.success_count + 1 < 2 ^ 32
    → b.success_count + 1 < b.success_threshold
    → record_success b t ≡ record b { success_count = b.success_count + 1 }
unfolding record_success
counted_success b t h small below = ground arith

closing_success :
    (b : CircuitBreaker) (t : ℕ)
    → b.state ≡ half_open
    → b.success_count + 1 < 2 ^ 32
    → b.success_threshold ≤ b.success_count + 1
    → ((record_success b t).state ≡ closed)
      × ((record_success b t).failure_count ≡ 0)
      × ((record_success b t).window_start_time ≡ t)
unfolding record_success
closing_success b t h small below = ground arith

-- A half-open breaker closes, with no failure counted and a window that begins then, on the
-- success that makes the count reach the threshold.
pub succeed_all-closes :
    (b : CircuitBreaker) (ts : List ℕ) (last : ℕ)
    → b.state ≡ half_open
    → b.success_threshold < 2 ^ 32
    → b.success_count + length ts + 1 ≡ b.success_threshold
    → let after = succeed_all b (ts ++ last ∷ []) in
      (after.state ≡ closed) × (after.failure_count ≡ 0) × (after.window_start_time ≡ last)
unfolding succeed_all
succeed_all-closes b [] last h t e = closing_success b last h (omega arith) (omega arith)
succeed_all-closes b (x ∷ ts) last h t e =
    rw (counted_success b x h (omega arith) (omega arith), succeed_all)
      (succeed_all-closes (record b { success_count = b.success_count + 1 }) ts last h t
        (omega arith))

passing_attempt :
    (b : CircuitBreaker) (now : ℕ)
    → b.state ≡ open_state
    → b.min_open_time_ms ≤ now - b.open_time
    → can_attempt b now ≡ (record b { state = half_open; success_count = 0 }, true)
unfolding can_attempt
passing_attempt b now o h = ground arith

-- An open breaker recovers: after `min_open_time_ms` a request passes, and `success_threshold`
-- successes in a row, the threshold being positive, close it with no failure counted.
pub recovers :
    (b : CircuitBreaker) (now : ℕ) (ts : List ℕ) (last : ℕ)
    → b.state ≡ open_state
    → b.min_open_time_ms ≤ now - b.open_time
    → b.success_threshold < 2 ^ 32
    → length ts + 1 ≡ b.success_threshold
    → let tried = can_attempt b now in
      let after = succeed_all tried.0 (ts ++ last ∷ []) in
      (tried.1 ≡ true) × (after.state ≡ closed) × (after.failure_count ≡ 0)
recovers b now ts last o h t e =
    let tried = passing_attempt b now o h in
    let half = record b { state = half_open; success_count = 0 } in
    let ends = succeed_all-closes half ts last refl t (omega arith) in
    rw tried (refl, ends.0, ends.1)

-- One failure in the half-open state opens the breaker again, whatever its counts are, and
-- requests are refused until `min_open_time_ms` have passed since.
pub half_open-record_failure :
    (b : CircuitBreaker) (t_failure t_window t_open now : ℕ)
    → b.state ≡ half_open
    → now - t_open < b.min_open_time_ms
    → let after = record_failure b t_failure t_window t_open in
      (after.state ≡ open_state) × (after.success_count ≡ 0) × ((can_attempt after now).1 ≡ false)
unfolding record_failure can_attempt
half_open-record_failure b t_failure t_window t_open now h e = ground arith

-- The setting `timeout_ms` has no part in it: no call lets a request pass or changes the state or
-- the counts of the breaker differently when `timeout_ms` is another.
pub timeout_ms-unused :
    (b : CircuitBreaker) (other now t_failure t_window t_open : ℕ)
    → let b' = record b { config = record b.config { timeout_ms = other } } in
      ((can_attempt b' now).1 ≡ (can_attempt b now).1)
      × ((can_attempt b' now).0.state ≡ (can_attempt b now).0.state)
      × ((record_success b' now).state ≡ (record_success b now).state)
      × ((record_failure b' t_failure t_window t_open).state
          ≡ (record_failure b t_failure t_window t_open).state)
unfolding can_attempt record_success record_failure
timeout_ms-unused b other now t_failure t_window t_open = ground arith
