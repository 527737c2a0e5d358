-- ===== src/Dispatch/Tests.antt =====
-- The theorems about message dispatch at concrete schedules, with a queue of two places and one
-- strategy that never fires.
use kraken_sdk.Common.{
  ℕ, ◌+◌, ◌/◌, ◌≡◌, refl, Bool, true, false, ltb, if◌then◌else◌, Option, none, some, List, [], ◌∷◌,
  ◌++◌, length, arith, string_key, nat_key,
}
use kraken_sdk.Gap.{sequence_tracker, default_config}
use kraken_sdk.Market.{
  Ticker, MessageType, ticker_type, heartbeat_type, subscribed_type, MessageData, of_ticker,
  of_heartbeat, of_subscribed, Message, Middle, queue_overflow,
}
use kraken_sdk.Strategy.{AlertStrategy}
use kraken_sdk.Subscription.{SubscriptionImpl, ticker}
use kraken_sdk.Subscription.Client.{pending}
use kraken_sdk.Dispatch.{
  MessageQueue, Received, Callbacks, Readings, Pipeline, called, error_called, latest_ticker,
  latest_book, dispatch,
}
use kraken_sdk.Dispatch.Steps.{Step, receives, dispatches, run}
use kraken_sdk.Dispatch.Fifo.{IsFifo, head?, tail, waiting, all_entered, all_left, run-in_order}
use kraken_sdk.Dispatch.Balance.{IsBalanced, injections, answers, run-IsBalanced}
use kraken_sdk.Dispatch.Snapshots.{ticker_after, book_after, latest-dispatch}

module _ {T : Type 0} where
  abbrev push_bounded : List T → T → Option (List T)
  push_bounded xs x = if ltb (length xs) 2 then some (xs ++ x ∷ []) else none

  abbrev two_places : MessageQueue (List T) T
  two_places = record { try_push = push_bounded; front = head?; pop = tail; size = length }

  two_places_push : (c c' : List T) (t : T) → push_bounded c t ≡ some c' → c' ≡ c ++ t ∷ []
  two_places_push c c' t h = ground arith

  two_places-IsFifo : IsFifo two_places (λ (xs : List T). xs)
  two_places-IsFifo = record {
    push_last = two_places_push;
    front_first = λ c. refl;
    pop_first = λ c. refl;
  }

abbrev silent : AlertStrategy ℕ Bool
silent = record {
  check = λ u s. (false, s);
  name = λ s. "";
  symbols = λ s. [];
  get_alert_message = λ s t. "";
  needs_orderbook = λ s. false;
  needs_trades = λ s. false;
  needs_ohlc = λ s. false;
  is_enabled = λ s. s;
  enable = λ s. true;
  disable = λ s. false;
}

abbrev halves : Middle ℕ
halves = record { zero = 0; middle = λ x y. (x + y) / 2 }

abbrev unsure : SubscriptionImpl
unsure = record {
  id = 1;
  channel = ticker;
  symbols = "BTC/USD" ∷ [];
  depth = 10;
  active = true;
  paused = false;
  confirmed = false;
  whole_channel = false;
}

abbrev start : Pipeline (List (Received ℕ)) ℕ Bool
start = record {
  queue = some [];
  tracker = sequence_tracker default_config;
  subscriptions = (1, unsure) ∷ [];
  latest_tickers = [];
  latest_books = [];
  engine = record { strategies = []; next_id = 1 };
  objects = λ p. true;
  callbacks = record {
    ticker_callback = true;
    trade_callback = false;
    book_callback = false;
    ohlc_callback = false;
    order_callback = false;
    own_trade_callback = false;
    balance_callback = false;
    error_callback = true;
    subscribed_callback = false;
  };
  msg_received = 0;
  msg_processed = 0;
  msg_dropped = 0;
  heartbeats_received = 0;
  last_heartbeat_time = 0;
  latency_max_us = 0;
}

abbrev ticker_at : ℕ → Ticker ℕ
ticker_at price = record {
  symbol = "BTC/USD";
  bid = price;
  ask = price;
  last = price;
  volume_24h = 0;
  high_24h = price;
  low_24h = price;
  timestamp = "";
}

abbrev message_of : MessageType → MessageData ℕ → Message ℕ
message_of type content = record {
  type = type;
  content = content;
  channel = "ticker";
  symbol = "BTC/USD";
  sequence = 0;
  has_sequence = false;
}

abbrev tick : ℕ → Message ℕ
tick price = message_of ticker_type (of_ticker (ticker_at price))

abbrev clock : Readings
clock = record { gap_time = 5; alert_time = λ i. i; done_time = 9 }

abbrev never : Message ℕ → Bool
never msg = false

abbrev received : Message ℕ → Step ℕ
received msg = receives (record { message = msg; receive_time = 2 }) clock

-- A heartbeat, three tickers of which the queue takes two, an answer, and one message dispatched.
abbrev schedule : List (Step ℕ)
schedule =
    received (message_of heartbeat_type of_heartbeat)
    ∷ received (tick 1)
    ∷ received (tick 2)
    ∷ received (tick 3)
    ∷ received
        (message_of subscribed_type (of_subscribed (record { channel = "ticker"; symbols = [] })))
    ∷ dispatches clock
    ∷ []

events_of_schedule :
    (run never halves silent two_places start schedule).1
    ≡ error_called queue_overflow ∷ called (tick 1) ∷ []
unfolding run kraken_sdk.Dispatch.io_receive kraken_sdk.Dispatch.sort_message
    kraken_sdk.Dispatch.dispatcher_step kraken_sdk.Dispatch.process kraken_sdk.Dispatch.dispatch
    kraken_sdk.Dispatch.deliver kraken_sdk.Dispatch.evaluate_all kraken_sdk.Dispatch.evaluate_two
    kraken_sdk.Dispatch.evaluate_one kraken_sdk.Dispatch.check_gap
    kraken_sdk.Dispatch.count_processed kraken_sdk.Strategy.evaluate kraken_sdk.Common.insert
    kraken_sdk.Common.lookup
events_of_schedule = refl

run-in_order_example :
    waiting (λ xs. xs) start.queue
      ++ all_entered never halves silent two_places two_places-IsFifo start schedule
    ≡ all_left never halves silent two_places two_places-IsFifo start schedule
      ++ waiting (λ xs. xs) (run never halves silent two_places start schedule).0.queue
run-in_order_example = run-in_order never halves silent two_places two_places-IsFifo start schedule

run-IsBalanced_example :
    IsBalanced never halves silent two_places two_places-IsFifo
      (run never halves silent two_places start schedule).0
      (0 + injections schedule)
      (0 + answers schedule)
run-IsBalanced_example =
    run-IsBalanced never halves silent two_places two_places-IsFifo start schedule 0 0 refl

latest-dispatch_example :
    let p' = (dispatch never halves silent start (tick 4) clock).0 in
    (latest_ticker p' "BTC/USD"
      ≡ ticker_after ticker_type
          (of_ticker (ticker_at 4))
          "BTC/USD"
          (latest_ticker start "BTC/USD"))
    × (latest_book p' "BTC/USD"
        ≡ book_after ticker_type (of_ticker (ticker_at 4)) "BTC/USD" (latest_book start "BTC/USD"))
    × (pending p'.subscriptions ≡ pending start.subscriptions)
latest-dispatch_example = latest-dispatch never halves silent start (tick 4) clock "BTC/USD"
