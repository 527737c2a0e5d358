-- ===== src/Breaker/Opening.antt =====
-- When the breaker opens, and when it lets a request pass.
use kraken_sdk.Common.{
  ℕ, ◌+◌, ◌-◌, ◌^◌, ◌≤◌, ◌<◌, ◌≡◌, ◌↔◌, false, List, [], ◌∷◌, arith, length, All, ◌++◌,
}
use kraken_sdk.Breaker.{
  closed, open_state, CircuitBreaker, can_attempt, record_success, record_failure,
}

-- A request is refused exactly when the breaker is open and fewer than `min_open_time_ms` have
-- passed since it opened; a refusal changes nothing.
pub can_attempt-refuses :
    (b : CircuitBreaker) (now : ℕ)
    → (((can_attempt b now).1 ≡ false)
        ↔ ((b.state ≡ open_state) × (now - b.open_time < b.min_open_time_ms)))
      × ((can_attempt b now).1 ≡ false → (can_attempt b now).0 ≡ b)
unfolding can_attempt
can_attempt-refuses b now = ground arith

-- A run of failures, each with the readings of its clock.
pub record Failing : Type 0 where
  pub at : ℕ
  pub window : ℕ
  pub opens : ℕ

unfoldable pub fail_all : CircuitBreaker → List Failing → CircuitBreaker
fail_all b [] = b
fail_all b (f ∷ fs) = fail_all (record_failure b f.at f.window f.opens) fs

-- All of the failures fall in the window that began at `start`.
abbrev pub InWindow : CircuitBreaker → List Failing → Type 0
InWindow b fs = All (λ f. f.window - b.window_start_time ≤ b.failure_window_ms) fs

counted_failure :
    (b : CircuitBreaker) (f : Failing)
    → b.state ≡ closed
    → f.window - b.window_start_time ≤ b.failure_window_ms
    → b.failure_count + 1 < 2 ^ 32
    → b.failure_count + 1 < b.failure_threshold
    → record_failure b f.at f.window f.opens
      ≡ record b { last_failure_time = f.at; failure_count = b.failure_count + 1 }
unfolding record_failure
counted_failure b f c w small below = ground arith

opening_failure :
    (b : CircuitBreaker) (f : Failing)
    → b.state ≡ closed
    → f.window - b.window_start_time ≤ b.failure_window_ms
    → b.failure_count + 1 < 2 ^ 32
    → b.failure_threshold ≤ b.failure_count + 1
    → ((record_failure b f.at f.window f.opens).state ≡ open_state)
      × ((record_failure b f.at f.window f.opens).open_time ≡ f.opens)
unfolding record_failure
opening_failure b f c w small below = ground arith

-- Failures inside one window leave a closed breaker closed while they are too few, and are counted.
pub fail_all-counts :
    (b : CircuitBreaker) (fs : List Failing)
    → b.state ≡ closed
    → InWindow b fs
    → b.failure_threshold < 2 ^ 32
    → b.failure_count + length fs < b.failure_threshold
    → ((fail_all b fs).state ≡ closed)
      × ((fail_all b fs).failure_count ≡ b.failure_count + length fs)
unfolding fail_all
fail_all-counts b [] c w t h = (c, omega arith)
fail_all-counts b (f ∷ fs) c w t h =
    let next = record b { last_failure_time = f.at; failure_count = b.failure_count + 1 } in
    let ih = fail_all-counts next fs c w.1 t (omega arith) in
    rw (counted_failure b f c w.0 (omega arith) (omega arith), fail_all) (ih.0, omega arith)

-- A closed breaker that is given, inside one window, just as many failures as its count lacks to
-- the failure threshold, is open after the last of them, from the time of that failure on.
pub fail_all-opens :
    (b : CircuitBreaker) (fs : List Failing) (last : Failing)
    → b.state ≡ closed
    → InWindow b fs
    → last.window - b.window_start_time ≤ b.failure_window_ms
    → b.failure_threshold < 2 ^ 32
    → b.failure_count + length fs + 1 ≡ b.failure_threshold
    → let after = fail_all b (fs ++ last ∷ []) in
      (after.state ≡ open_state) × (after.open_time ≡ last.opens)
unfolding fail_all
fail_all-opens b [] last c w lw t h = opening_failure b last c lw (omega arith) (omega arith)
fail_all-opens b (f ∷ fs) last c w lw t h =
    let next = record b { last_failure_time = f.at; failure_count = b.failure_count + 1 } in
    rw (counted_failure b f c w.0 (omega arith) (omega arith), fail_all)
      (fail_all-opens next fs last c w.1 lw t (omega arith))

open_failure :
    (b : CircuitBreaker) (f : Failing)
    → b.state ≡ open_state
    → record_failure b f.at f.window f.opens ≡ record b { last_failure_time = f.at }
unfolding record_failure
open_failure b f o = ground arith

-- Once open, a breaker refuses every request until `min_open_time_ms` have passed, whatever
-- failures and successes are recorded meanwhile.
pub open_refuses :
    (b : CircuitBreaker) (fs : List Failing) (t_success now : ℕ)
    → b.state ≡ open_state
    → now - b.open_time < b.min_open_time_ms
    → ((can_attempt (fail_all b fs) now).1 ≡ false)
      × ((can_attempt (record_success (fail_all b fs) t_success) now).1 ≡ false)
unfolding fail_all can_attempt record_success record_failure
open_refuses b [] t_success now o h = ground arith
open_refuses b (f ∷ fs) t_success now o h =
    rw (open_failure b f o, fail_all)
      (open_refuses (record b { last_failure_time = f.at }) fs t_success now o h)
