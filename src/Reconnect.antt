-- ===== src/Reconnect.antt =====
-- Reconnection: `KrakenClient::Impl::handle_reconnect` of src/client/reconnect.cpp.
--
-- One iteration of the `while` loop is `round`; it takes from its environment a record `Round`: the
-- readings of `stop_requested_`, of the clock and of the random generator, and whether `connect()`
-- succeeds or throws. The loop is a recursion over the rounds at hand, and says when they run out.
-- What the client does to the outside is a list of events, oldest first. The callbacks' exceptions
-- are swallowed by the code; telemetry is left out.
pub mod Attempts
pub mod Outcome
pub mod Termination
mod Tests
use kraken_sdk.Common.{
  ℕ, suc, ◌+◌, ◌≡◌, Bool, true, false, not, ◌&&◌, ltb, if◌then◌else◌, Option, none, some, List, [],
  ◌∷◌, ◌++◌,
}
use kraken_sdk.Breaker.{CircuitBreaker}
use kraken_sdk.Breaker as Breaker
use kraken_sdk.Gap.{SequenceTracker}
use kraken_sdk.Gap as Gap
use kraken_sdk.Backoff.{
  Arithmetic, BackoffStrategy, should_stop, next_delay, current_attempt, max_attempts,
}
use kraken_sdk.Backoff as Backoff
use kraken_sdk.Subscription.{Request}
use kraken_sdk.Subscription.Client.{Client, send_pending_subscriptions}

pub data ConnectionState : Type 0 where
  disconnected connecting connected reconnecting : ConnectionState

pub data ErrorReport : Type 0 where
  circuit_open : ErrorReport
  attempt_failed : ℕ → ErrorReport
  gave_up : ErrorReport

pub data Event : Type 0 where
  state_set : ConnectionState → Event
  error_reported : ErrorReport → Event
  reconnect_notified : ℕ → ℕ → ℕ → Event  -- attempt, max_attempts, delay
  slept : ℕ → Event
  connect_tried : Event
  request_sent : Request → Event

-- What `handle_reconnect` uses of the client; `notifies`: `config_.on_reconnect()` is set.
pub record Link (D : Type 0) : Type 0 where
  pub state : ConnectionState
  pub backoff : Option (BackoffStrategy D)
  pub breaker : Option CircuitBreaker
  pub tracker : SequenceTracker
  pub client : Client
  pub notifies : Bool

pub record Round (D : Type 0) : Type 0 where
  pub stop_at_top : Bool
  pub now : ℕ
  pub sample : D
  pub stop_after_wait : Bool
  pub connects : Bool
  pub success_time : ℕ
  pub failure_time : ℕ
  pub window_time : ℕ
  pub open_time : ℕ

-- What one iteration comes to: another one, `break`, the end of the loop's condition, or `return`.
pub data Step (D : Type 0) : Type 0 where
  again : Link D → List Event → Step D
  breaks : Link D → List Event → Step D
  returns : Link D → List Event → Step D

abbrev pub sends : List Request → List Event
sends [] = []
sends (r ∷ rs) = request_sent r ∷ sends rs

abbrev pub map_breaker :
    (CircuitBreaker → CircuitBreaker) → Option CircuitBreaker → Option CircuitBreaker
map_breaker f none = none
map_breaker f (some b) = some (f b)

module _ {D : Type 0} where
  abbrev pub reset_backoff : Option (BackoffStrategy D) → Option (BackoffStrategy D)
  reset_backoff none = none
  reset_backoff (some b) = some (Backoff.reset b)

  -- `connect()` returned.
  unfoldable pub succeed : Link D → Round D → Step D
  succeed l r =
      returns
        (record l {
          state = connected;
          breaker = map_breaker (λ b. Breaker.record_success b r.success_time) l.breaker;
          backoff = reset_backoff l.backoff;
          tracker = Gap.reset_all l.tracker;
        })
        (connect_tried ∷ state_set connected ∷ sends (send_pending_subscriptions l.client))

  -- `connect()` threw.
  unfoldable pub fail : Link D → Round D → ℕ → Step D
  fail l r attempt =
      again
        (record l {
          breaker =
              map_breaker (λ b. Breaker.record_failure b r.failure_time r.window_time r.open_time)
                l.breaker;
        })
        (connect_tried ∷ error_reported (attempt_failed attempt) ∷ [])

  abbrev pub prepend : List Event → Step D → Step D
  prepend es (again l more) = again l (es ++ more)
  prepend es (breaks l more) = breaks l (es ++ more)
  prepend es (returns l more) = returns l (es ++ more)

  -- From the delay on: the notification, the sleep, and the attempt.
  unfoldable pub try_connect : Link D → Round D → ℕ → ℕ → ℕ → Step D
  try_connect l r attempt limit delay =
      prepend
        ((if l.notifies then reconnect_notified attempt limit delay ∷ [] else [])
          ++ (if ltb 0 delay then slept delay ∷ [] else []))
        (if r.stop_after_wait
          then breaks l []
          else if r.connects
          then succeed l r
          else fail l r attempt)

  -- What follows an iteration: the next ones, or the code behind the loop.
  unfoldable pub finish :
      Step D → (Link D → Bool × Link D × List Event) → Bool × Link D × List Event
  finish (again l es) rest = let (done, l', more) = rest l in (done, l', es ++ more)
  finish (breaks l es) rest = (
    true,
    record l { state = disconnected },
    es ++ state_set disconnected ∷ error_reported gave_up ∷ [],
  )
  finish (returns l es) rest = (true, l, es)

  module _ (a : Arithmetic D) where
    -- The part of the body behind the circuit breaker.
    unfoldable pub attempt_with : Option (BackoffStrategy D) → Link D → Round D → Step D
    attempt_with none l r = try_connect l r 1 10 1000
    attempt_with (some b) l r =
        let (b', delay) = next_delay a b r.sample in
        if should_stop b
        then breaks l []
        else try_connect (record l { backoff = some b' }) r (current_attempt b') (max_attempts b')
            delay

    unfoldable pub guarded : Option CircuitBreaker → Link D → Round D → Step D
    guarded none l r = attempt_with l.backoff l r
    guarded (some c) l r =
        let (c', allowed) = Breaker.can_attempt c r.now in
        let l' = record l { breaker = some c' } in
        if allowed
        then attempt_with l.backoff l' r
        else again l' (error_reported circuit_open ∷ slept c'.timeout_ms ∷ [])

    unfoldable pub round : Link D → Round D → Step D
    round l r = if r.stop_at_top then breaks l [] else guarded l.breaker l r

    -- Whether the call has returned, the client after it, and all events.
    unfoldable pub loop : Link D → List (Round D) → Bool × Link D × List Event
    loop l [] = (false, l, [])
    loop l (r ∷ rs) = finish (round l r) (λ l'. loop l' rs)

    -- `stop_requested`: the reading at the start of the call.
    unfoldable pub handle_reconnect : Bool → Link D → List (Round D) → Bool × Link D × List Event
    handle_reconnect stop_requested l rs =
        let start = record l { state = reconnecting; backoff = reset_backoff l.backoff } in
        let (done, l', es) = loop start rs in
        if stop_requested then (true, l, []) else (done, l', state_set reconnecting ∷ es)
