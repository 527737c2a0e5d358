-- ===== src/Lifecycle/Tests.antt =====
-- The life of concrete clients.
use kraken_sdk.Common.{◌≡◌, ◌≢◌, ◌⊎◌, refl, true, false, some, none, List, [], ◌∷◌, All}
use kraken_sdk.Subscription.{subscription_impl, ticker}
use kraken_sdk.Subscription.Client.{Client}
use kraken_sdk.Reconnect.{connected, reconnecting}
use kraken_sdk.Lifecycle.{
  opened, not_opened, not_made, Settings, Life, Left, returned, threw, terminated, client_life,
  connect, run, run_async, stop, is_connected, prepare, launch,
}
use kraken_sdk.Lifecycle.Threads.{
  Call, connects, runs, runs_async, stops, reconnects, outcomes, outcomes-client_life,
}
use kraken_sdk.Lifecycle.Restart.{Started, Failed, run_async-outcome}

abbrev online : Settings
online = record { offline_mode = false; use_queue = true }

abbrev no_subscriptions : Client
no_subscriptions = record { authenticated = false; next_sub_id = 1; subscriptions = [] }

-- One subscription, to the tickers of a pair.
abbrev one_subscription : Client
one_subscription = record {
  authenticated = false;
  next_sub_id = 2;
  subscriptions = (1, subscription_impl 1 ticker ("BTC/USD" ∷ []) false) ∷ [];
}

abbrev up : Life
up = record {
  state = connected;
  connection = some true;
  running = true;
  stop_requested = false;
  io_thread = true;
  dispatcher_thread = true;
}

abbrev lost : Left
lost = record { state = reconnecting; connection = none }

abbrev calls : List Call
calls =
    connects not_made
    ∷ runs_async no_subscriptions opened
    ∷ reconnects lost
    ∷ stops
    ∷ runs no_subscriptions opened lost
    ∷ runs_async no_subscriptions not_opened
    ∷ []

starts_connected : (run_async online no_subscriptions client_life opened).life ≡ up
unfolding run_async prepare launch connect client_life is_connected
starts_connected = refl

outcomes_of_calls :
    outcomes online client_life calls
    ≡ threw ∷ returned ∷ returned ∷ returned ∷ returned ∷ threw ∷ []
unfolding outcomes run run_async prepare launch connect stop client_life is_connected
outcomes_of_calls = refl

outcomes-client_life_example :
    All (λ outcome. outcome ≢ terminated) (outcomes online client_life calls)
outcomes-client_life_example = outcomes-client_life online calls

run_async-outcome_example :
    Started online (run_async online no_subscriptions client_life not_opened)
    ⊎ Failed online not_opened (run_async online no_subscriptions client_life not_opened)
unfolding client_life
run_async-outcome_example =
    run_async-outcome online no_subscriptions client_life not_opened refl
      ((λ h. (refl, refl)), (λ h. refl))
