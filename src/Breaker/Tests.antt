-- ===== src/Breaker/Tests.antt =====
-- The theorems about the circuit breaker at concrete inputs, and runs of the model.
use kraken_sdk.Common.{ℕ, ◌≡◌, refl, true, List, [], ◌∷◌, ◌++◌, arith}
use kraken_sdk.Breaker.{
  closed, open_state, half_open, default_config, CircuitBreaker, circuit_breaker, can_attempt,
  record_success, record_failure, Call, attempt, success, failure, resets, run,
}
use kraken_sdk.Breaker.Opening.{Failing, fail_all, fail_all-opens}
use kraken_sdk.Breaker.Recovery.{succeed_all, recovers}

abbrev fresh : CircuitBreaker
fresh = record {
  config = default_config;
  state = closed;
  failure_count = 0;
  success_count = 0;
  last_failure_time = 0;
  open_time = 0;
  window_start_time = 0;
}

abbrev opened : CircuitBreaker
opened = record fresh { state = open_state; failure_count = 5; open_time = 100 }

abbrev trying : CircuitBreaker
trying = record opened { state = half_open }

abbrev failing_at : ℕ → Failing
failing_at t = record { at = t; window = t; opens = t }

abbrev four : List Failing
four = failing_at 10 ∷ failing_at 20 ∷ failing_at 30 ∷ failing_at 40 ∷ []

-- A breaker that fails five times, is tried too early and then in time, and succeeds twice.
scenario :
    (run (circuit_breaker default_config 0 0 0) (
      failure 1 1 1
      ∷ failure 2 2 2
      ∷ failure 3 3 3
      ∷ failure 4 4 4
      ∷ failure 5 5 5
      ∷ attempt 9
      ∷ attempt 10005
      ∷ success 10006
      ∷ success 10007
      ∷ [])).state
    ≡ closed
unfolding run circuit_breaker can_attempt record_success record_failure kraken_sdk.Breaker.step
scenario = refl

fail_all-opens_example :
    ((fail_all fresh (four ++ failing_at 50 ∷ [])).state ≡ open_state)
    × ((fail_all fresh (four ++ failing_at 50 ∷ [])).open_time ≡ 50)
fail_all-opens_example =
    fail_all-opens fresh four (failing_at 50) refl (omega arith) (omega arith) (omega arith)
      (omega arith)

recovers_example :
    let tried = can_attempt opened 20000 in
    let after = succeed_all tried.0 (20001 ∷ [] ++ 20002 ∷ []) in
    (tried.1 ≡ true) × (after.state ≡ closed) × (after.failure_count ≡ 0)
recovers_example =
    recovers opened 20000 (20001 ∷ []) 20002 refl (omega arith) (omega arith) (omega arith)

abbrev other_timeout : CircuitBreaker
other_timeout = record opened { config = record default_config { timeout_ms = 1 } }
