-- ===== src/Reconnect/Tests.antt =====
-- The theorems about reconnection at a concrete client.
use kraken_sdk.Common.{ℕ, ◌≤◌, ◌≡◌, refl, true, false, none, some, List, [], ◌∷◌, arith}
use kraken_sdk.Gap.{sequence_tracker, default_config}
use kraken_sdk.Backoff.{Arithmetic, BackoffStrategy, fixed}
use kraken_sdk.Backoff.Tests.{whole}
use kraken_sdk.Subscription.Client.{Client}
use kraken_sdk.Reconnect.{
  Link, Round, disconnected, reconnecting, state_set, reconnect_notified, slept, connect_tried,
  error_reported, attempt_failed, gave_up, handle_reconnect,
}
use kraken_sdk.Reconnect.Attempts.{tries, tries-handle_reconnect}
use kraken_sdk.Reconnect.Outcome.{Settled, handle_reconnect-Settled}
use kraken_sdk.Reconnect.Termination.{handle_reconnect_returns}

abbrev two_tries : BackoffStrategy ℕ
two_tries = fixed (record { delay = 50; max_attempts = 2; attempt = 1 })

abbrev no_subscriptions : Client
no_subscriptions = record { authenticated = false; next_sub_id = 1; subscriptions = [] }

abbrev lost : Link ℕ
lost = record {
  state = disconnected;
  backoff = some two_tries;
  breaker = none;
  tracker = sequence_tracker default_config;
  client = no_subscriptions;
  notifies = true;
}

abbrev refused : Round ℕ
refused = record {
  stop_at_top = false;
  now = 1;
  sample = 0;
  stop_after_wait = false;
  connects = false;
  success_time = 2;
  failure_time = 2;
  window_time = 2;
  open_time = 2;
}

abbrev three_rounds : List (Round ℕ)
three_rounds = refused ∷ refused ∷ refused ∷ []

-- Two refused attempts; the notifications count them as 2 and 3.
refused_twice :
    (handle_reconnect whole false lost three_rounds).2
    ≡ state_set reconnecting
      ∷ reconnect_notified 2 2 50
      ∷ slept 50
      ∷ connect_tried
      ∷ error_reported (attempt_failed 2)
      ∷ reconnect_notified 3 2 50
      ∷ slept 50
      ∷ connect_tried
      ∷ error_reported (attempt_failed 3)
      ∷ state_set disconnected
      ∷ error_reported gave_up
      ∷ []
unfolding handle_reconnect kraken_sdk.Reconnect.loop kraken_sdk.Reconnect.round
    kraken_sdk.Reconnect.guarded kraken_sdk.Reconnect.attempt_with kraken_sdk.Reconnect.try_connect
    kraken_sdk.Reconnect.fail kraken_sdk.Reconnect.finish kraken_sdk.Backoff.next_delay
    kraken_sdk.Backoff.should_stop kraken_sdk.Backoff.current_attempt kraken_sdk.Backoff.reset
refused_twice = refl

tries-handle_reconnect_example : tries (handle_reconnect whole false lost three_rounds).2 ≤ 2
tries-handle_reconnect_example =
    tries-handle_reconnect whole lost two_tries false three_rounds refl (ground arith)

handle_reconnect-Settled_example : Settled (handle_reconnect whole false lost three_rounds)
handle_reconnect-Settled_example = handle_reconnect-Settled whole lost three_rounds

handle_reconnect_returns_example : (handle_reconnect whole false lost three_rounds).0 ≡ true
handle_reconnect_returns_example =
    handle_reconnect_returns whole lost two_tries false three_rounds refl (ground arith) refl
      (ground arith)
