-- ===== src/Breaker/Invariant.antt =====
-- What holds of a circuit breaker after any calls.
use kraken_sdk.Common.{ℕ, ◌<◌, ◌≡◌, ◌⊎◌, List, [], ◌∷◌, arith}
use kraken_sdk.Breaker.{
  closed, half_open, CircuitBreakerConfig, CircuitBreaker, circuit_breaker, can_attempt,
  record_success, record_failure, reset, Call, attempt, success, failure, resets, step, run,
}

-- A count is 0 or below the threshold, where it counts; so the counters never wrap.
pub record IsValid (b : CircuitBreaker) : Type 0 where
  pub failures_below :
      b.state ≡ closed → (b.failure_count ≡ 0) ⊎ (b.failure_count < b.failure_threshold)
  pub successes_below :
      b.state ≡ half_open → (b.success_count ≡ 0) ⊎ (b.success_count < b.success_threshold)
  pub successes_idle : (b.state ≡ half_open) ⊎ (b.success_count ≡ 0)

pub circuit_breaker-IsValid :
    (c : CircuitBreakerConfig) (t_failure t_open t_window : ℕ)
    → IsValid (circuit_breaker c t_failure t_open t_window)
unfolding circuit_breaker
circuit_breaker-IsValid c t_failure t_open t_window = ground arith

pub step-IsValid : (b : CircuitBreaker) (c : Call) → IsValid b → IsValid (step b c)
unfolding step can_attempt record_success record_failure reset
step-IsValid b (attempt now) v = ground arith
step-IsValid b (success now) v = ground arith
step-IsValid b (failure t_failure t_window t_open) v = ground arith
step-IsValid b (resets t_window t_failure t_open) v = ground arith

pub run-IsValid : (b : CircuitBreaker) (cs : List Call) → IsValid b → IsValid (run b cs)
unfolding run
run-IsValid b [] v = v
run-IsValid b (c ∷ cs) v = run-IsValid (step b c) cs (step-IsValid b c v)

-- Whatever calls a new breaker has seen: while it is closed its failure count is 0 or below the
-- failure threshold, while it is half-open its success count is 0 or below the success threshold,
-- and in any other state the success count is 0.
pub run-circuit_breaker-IsValid :
    (c : CircuitBreakerConfig) (t_failure t_open t_window : ℕ) (cs : List Call)
    → IsValid (run (circuit_breaker c t_failure t_open t_window) cs)
run-circuit_breaker-IsValid c t_failure t_open t_window cs =
    run-IsValid _ cs (circuit_breaker-IsValid c t_failure t_open t_window)
