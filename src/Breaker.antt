-- ===== src/Breaker.antt =====
-- The circuit breaker: include/kraken/connection/circuit_breaker.hpp and
-- src/connection/circuit_breaker.cpp.
--
-- A method that changes the breaker returns the new record. Each reading that the code takes of the
-- steady clock is an argument, in the order of the calls, in milliseconds from an arbitrary origin.
-- The counters are `uint32_t`: an increment wraps. A method runs as one step: the mutex and the
-- atomics are not modelled.
pub mod Invariant
pub mod Opening
pub mod Recovery
mod Tests
use kraken_sdk.Common.{
  ℕ, ◌+◌, ◌-◌, ◌%◌, ◌^◌, Bool, true, false, ltb, leb, if◌then◌else◌, List, [], ◌∷◌, arith,
}

pub data CircuitState : Type 0 where
  closed open_state half_open : CircuitState

-- Durations are in milliseconds.
pub record CircuitBreakerConfig : Type 0 where
  pub failure_threshold : ℕ
  pub success_threshold : ℕ
  pub timeout_ms : ℕ
  pub failure_window_ms : ℕ
  pub min_open_time_ms : ℕ

abbrev pub default_config : CircuitBreakerConfig
default_config = record {
  failure_threshold = 5;
  success_threshold = 2;
  timeout_ms = 30000;
  failure_window_ms = 60000;
  min_open_time_ms = 10000;
}

pub record CircuitBreaker : Type 0 where
  pub config : CircuitBreakerConfig
  pub open config use *
  pub state : CircuitState
  pub failure_count : ℕ  -- uint32_t
  pub success_count : ℕ  -- uint32_t
  pub last_failure_time : ℕ
  pub open_time : ℕ
  pub window_start_time : ℕ

abbrev pub u32 : ℕ → ℕ
u32 n = n % 2 ^ 32

-- The constructor.
unfoldable pub circuit_breaker : CircuitBreakerConfig → ℕ → ℕ → ℕ → CircuitBreaker
circuit_breaker c t_failure t_open t_window = record {
  config = c;
  state = closed;
  failure_count = 0;
  success_count = 0;
  last_failure_time = t_failure;
  open_time = t_open;
  window_start_time = t_window;
}

unfoldable pub transition_to_open : CircuitBreaker → ℕ → CircuitBreaker
transition_to_open b now = record b { state = open_state; open_time = now; success_count = 0 }

unfoldable pub transition_to_half_open : CircuitBreaker → CircuitBreaker
transition_to_half_open b = record b { state = half_open; success_count = 0 }

unfoldable pub transition_to_closed : CircuitBreaker → ℕ → CircuitBreaker
transition_to_closed b now = record b {
  state = closed;
  failure_count = 0;
  success_count = 0;
  window_start_time = now;
}

-- `now - open_time_` is not negative, since the clock is steady: `-` on ℕ is exact.
can_attempt_in : CircuitState → CircuitBreaker → ℕ → CircuitBreaker × Bool
unfolding transition_to_half_open
can_attempt_in closed b now = (b, true)
can_attempt_in open_state b now =
    if leb b.min_open_time_ms (now - b.open_time)
    then (transition_to_half_open b, true)
    else (b, false)
can_attempt_in half_open b now = (b, true)

-- The method is `const`, and opens the way to the half-open state all the same.
unfoldable pub can_attempt : CircuitBreaker → ℕ → CircuitBreaker × Bool
unfolding can_attempt_in
can_attempt b now = can_attempt_in b.state b now

count_success : CircuitBreaker → ℕ → CircuitBreaker
unfolding transition_to_closed
count_success b now =
    let counted = record b { success_count = u32 (b.success_count + 1) } in
    if leb b.success_threshold counted.success_count
    then transition_to_closed counted now
    else counted

record_success_in : CircuitState → CircuitBreaker → ℕ → CircuitBreaker
unfolding count_success
record_success_in half_open b now = count_success b now
record_success_in closed b now = record b { window_start_time = now; failure_count = 0 }
record_success_in open_state b now = b

-- At most one of the two readings of the clock in the code is taken: `now`.
unfoldable pub record_success : CircuitBreaker → ℕ → CircuitBreaker
unfolding record_success_in
record_success b now = record_success_in b.state b now

-- The window restarts when more than `failure_window_ms` have passed since it began.
expire_window : CircuitBreaker → ℕ → CircuitBreaker
expire_window b t_window =
    if ltb b.failure_window_ms (t_window - b.window_start_time)
    then record b { window_start_time = t_window; failure_count = 0 }
    else b

count_failure : CircuitBreaker → ℕ → ℕ → CircuitBreaker
unfolding expire_window transition_to_open
count_failure b t_window t_open =
    let w = expire_window b t_window in
    let counted = record w { failure_count = u32 (w.failure_count + 1) } in
    if leb b.failure_threshold counted.failure_count
    then transition_to_open counted t_open
    else counted

record_failure_in : CircuitState → CircuitBreaker → ℕ → ℕ → CircuitBreaker
unfolding count_failure transition_to_open
record_failure_in half_open b t_window t_open = transition_to_open b t_open
record_failure_in closed b t_window t_open = count_failure b t_window t_open
record_failure_in open_state b t_window t_open = b

unfoldable pub record_failure : CircuitBreaker → ℕ → ℕ → ℕ → CircuitBreaker
unfolding record_failure_in
record_failure b t_failure t_window t_open =
    record_failure_in b.state (record b { last_failure_time = t_failure }) t_window t_open

unfoldable pub reset : CircuitBreaker → ℕ → ℕ → ℕ → CircuitBreaker
reset b t_window t_failure t_open = record b {
  state = closed;
  failure_count = 0;
  success_count = 0;
  last_failure_time = t_failure;
  open_time = t_open;
  window_start_time = t_window;
}

unfoldable pub set_config : CircuitBreaker → CircuitBreakerConfig → CircuitBreaker
set_config b c = record b { config = c }

-- The calls that a client can make, with the readings of the clock that they take.
pub data Call : Type 0 where
  attempt : ℕ → Call
  success : ℕ → Call
  failure : ℕ → ℕ → ℕ → Call
  resets : ℕ → ℕ → ℕ → Call

unfoldable pub step : CircuitBreaker → Call → CircuitBreaker
step b (attempt now) = (can_attempt b now).0
step b (success now) = record_success b now
step b (failure t_failure t_window t_open) = record_failure b t_failure t_window t_open
step b (resets t_window t_failure t_open) = reset b t_window t_failure t_open

unfoldable pub run : CircuitBreaker → List Call → CircuitBreaker
run b [] = b
run b (c ∷ cs) = run (step b c) cs
