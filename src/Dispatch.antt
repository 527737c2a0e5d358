-- ===== src/Dispatch.antt =====
-- Messages on their way through the client: src/client/dispatch.cpp with the queue interface of
-- include/kraken/queue.hpp, src/client/snapshots.cpp and src/client/metrics.cpp.
--
-- The loops are step functions: `io_receive` is one message read by the I/O thread, `dispatcher_step`
-- one iteration of the dispatcher thread, `inject_internal` one call of the replay engine; a schedule
-- of the threads is a list of steps. A connection that is lost goes to Reconnect. The queue is an
-- argument, since the client may be given any `MessageQueue`. What the user sees is a list of events,
-- oldest first. `throws` says which messages make their callback throw; strategies and their callbacks
-- are taken not to throw. Telemetry is left out. Counters are `uint64_t`.
pub mod Steps
pub mod Fifo
pub mod Balance
pub mod Snapshots
mod Tests
use kraken_sdk.Common.{
  ℕ, suc, ◌+◌, ◌-◌, ◌/◌, ◌≡◌, String, Bool, true, false, not, ◌&&◌, ltb, if◌then◌else◌, Option,
  none, some, List, [], ◌∷◌, ◌++◌, string_key, nat_key, ◌==◌, lookup, insert, map,
}
use kraken_sdk.Gap.{ChannelSymbolKey, SequenceTracker, GapInfo, check, u64}
use kraken_sdk.Book.{OrderBook}
use kraken_sdk.Market.{
  Ticker, Trade, Ohlc, ErrorCode, queue_overflow, callback_error, MessageType, ticker_type,
  trade_type, book_type, ohlc_type, order_type, own_trade_type, balance_type, error_type,
  subscribed_type, unsubscribed_type, heartbeat_type, Acknowledgement, MessageData, of_ticker,
  of_trade, of_book, of_ohlc, of_order, of_own_trade, of_balances, of_error, of_subscribed,
  of_unsubscribed, of_heartbeat, Message, Middle,
}
use kraken_sdk.Subscription.{SubscriptionImpl, channel_name}
use kraken_sdk.Strategy.{
  AlertStrategy, StrategyEngine, Update, on_ticker, on_book, on_trade, on_both, on_ohlc, Fired,
  evaluate,
}

-- class MessageQueue; `none` of `try_push` is the result false.
pub record MessageQueue (Q T : Type 0) : Type 0 where
  pub try_push : Q → T → Option Q
  pub front : Q → Option T
  pub pop : Q → Q
  pub size : Q → ℕ

-- A message with its `receive_time`.
pub record Received (F : Type 0) : Type 0 where
  pub message : Message F
  pub receive_time : ℕ

-- The callbacks that are set.
pub record Callbacks : Type 0 where
  pub ticker_callback : Bool
  pub trade_callback : Bool
  pub book_callback : Bool
  pub ohlc_callback : Bool
  pub order_callback : Bool
  pub own_trade_callback : Bool
  pub balance_callback : Bool
  pub error_callback : Bool
  pub subscribed_callback : Bool

pub data Event (F : Type 0) : Type 0 where
  called : Message F → Event F  -- the callback for messages of its type
  error_called : ErrorCode → Event F
  alerted : Fired F → Event F
  gap_reported : GapInfo → Event F

-- The readings of the clock while one message is processed.
pub record Readings : Type 0 where
  pub gap_time : ℕ
  pub alert_time : ℕ → ℕ
  pub done_time : ℕ

pub record Pipeline (Q F S : Type 0) : Type 0 where
  pub queue : Option Q
  pub tracker : SequenceTracker
  pub subscriptions : List (ℕ × SubscriptionImpl)
  pub latest_tickers : List (String × Ticker F)
  pub latest_books : List (String × OrderBook F)
  pub engine : StrategyEngine
  pub objects : ℕ → S
  pub callbacks : Callbacks
  pub msg_received : ℕ
  pub msg_processed : ℕ
  pub msg_dropped : ℕ
  pub heartbeats_received : ℕ
  pub last_heartbeat_time : ℕ
  pub latency_max_us : ℕ

-- The loops over `subscriptions_`, which end with the first subscription that fits.
unfoldable pub confirm_first : String → List (ℕ × SubscriptionImpl) → List (ℕ × SubscriptionImpl)
confirm_first channel [] = []
confirm_first channel ((id, s) ∷ subs) =
    let rest = confirm_first channel subs in
    if s.active && (not s.confirmed && (channel_name s.channel == channel))
    then (id, record s { confirmed = true }) ∷ subs
    else (id, s) ∷ rest

unfoldable pub unconfirm_first : String → List (ℕ × SubscriptionImpl) → List (ℕ × SubscriptionImpl)
unconfirm_first channel [] = []
unconfirm_first channel ((id, s) ∷ subs) =
    let rest = unconfirm_first channel subs in
    if s.confirmed && (channel_name s.channel == channel)
    then (id, record s { confirmed = false }) ∷ subs
    else (id, s) ∷ rest

-- The second evaluation of a ticker, or of a book, where the other is known.
abbrev pub with_book : {F : Type 0} → Ticker F → Option (OrderBook F) → Option (Update F)
with_book t none = none
with_book t (some b) = some (on_both t b)

abbrev pub with_ticker : {F : Type 0} → Option (Ticker F) → OrderBook F → Option (Update F)
with_ticker none b = none
with_ticker (some t) b = some (on_both t b)

pub record Metrics : Type 0 where
  pub messages_received : ℕ
  pub messages_processed : ℕ
  pub messages_dropped : ℕ
  pub queue_depth : ℕ
  pub latency_max_us : ℕ
  pub heartbeats_received : ℕ
  pub last_heartbeat_age : Option ℕ

abbrev pub depth_of : {Q : Type 0} → (Q → ℕ) → Option Q → ℕ
depth_of size none = 0
depth_of size (some c) = size c

module _ {Q F S : Type 0} where
  unfoldable pub latest_ticker : Pipeline Q F S → String → Option (Ticker F)
  latest_ticker p symbol = lookup symbol p.latest_tickers

  unfoldable pub latest_book : Pipeline Q F S → String → Option (OrderBook F)
  latest_book p symbol = lookup symbol p.latest_books

  -- `get_metrics` without telemetry; `connection_state` and `start_time` are kept elsewhere.
  unfoldable pub get_metrics : (Q → ℕ) → Pipeline Q F S → ℕ → Metrics
  get_metrics size p now_nanos = record {
    messages_received = p.msg_received;
    messages_processed = p.msg_processed;
    messages_dropped = p.msg_dropped;
    queue_depth = depth_of size p.queue;
    latency_max_us = p.latency_max_us;
    heartbeats_received = p.heartbeats_received;
    last_heartbeat_age =
        if ltb 0 p.last_heartbeat_time
        then some ((now_nanos - p.last_heartbeat_time) / 1000000)
        else none;
  }

  -- `safe_invoke_error_callback`.
  abbrev pub error_events : Pipeline Q F S → ErrorCode → List (Event F)
  error_events p code = if p.callbacks.error_callback then error_called code ∷ [] else []

  -- `msg_processed_` and the loop that raises `latency_max_us_`; the clock reads nanoseconds.
  unfoldable pub count_processed : Pipeline Q F S → Received F → Readings → Pipeline Q F S
  count_processed p r t =
      let latency = (t.done_time - r.receive_time) / 1000 in
      record p {
        msg_processed = u64 (p.msg_processed + 1);
        latency_max_us = if ltb p.latency_max_us latency then latency else p.latency_max_us;
      }

  unfoldable pub check_gap : Pipeline Q F S → Message F → ℕ → Pipeline Q F S × List (Event F)
  check_gap p msg now =
      let c =
        check p.tracker (record { channel = msg.channel; symbol = msg.symbol }) msg.sequence now in
      if msg.has_sequence
      then (record p { tracker = c.tracker }, map gap_reported c.reported)
      else (p, [])

  module _ (throws : Message F → Bool) where
    -- A callback that is set, by `safe_invoke_callback`.
    abbrev pub invoke : Bool → Pipeline Q F S → Message F → List (Event F)
    invoke is_set p msg =
        if is_set
        then called msg ∷ (if throws msg then error_events p callback_error else [])
        else []

    -- The `switch` of `dispatch`.
    unfoldable pub deliver :
        Pipeline Q F S → Message F → MessageType → MessageData F → Pipeline Q F S × List (Event F)
    deliver p msg ticker_type (of_ticker t) = (
      record p { latest_tickers = insert t.symbol t p.latest_tickers },
      invoke p.callbacks.ticker_callback p msg,
    )
    deliver p msg trade_type (of_trade t) = (p, invoke p.callbacks.trade_callback p msg)
    deliver p msg book_type (of_book b) = (
      record p { latest_books = insert b.symbol b p.latest_books },
      invoke p.callbacks.book_callback p msg,
    )
    deliver p msg ohlc_type (of_ohlc o) = (p, invoke p.callbacks.ohlc_callback p msg)
    deliver p msg order_type (of_order o) = (p, invoke p.callbacks.order_callback p msg)
    deliver p msg own_trade_type (of_own_trade t) = (p, invoke p.callbacks.own_trade_callback p msg)
    deliver p msg balance_type (of_balances b) = (p, invoke p.callbacks.balance_callback p msg)
    deliver p msg error_type (of_error e) =
        (p, if p.callbacks.error_callback then called msg ∷ [] else [])
    deliver p msg subscribed_type (of_subscribed a) = (
      record p { subscriptions = confirm_first a.channel p.subscriptions },
      invoke p.callbacks.subscribed_callback p msg,
    )
    deliver p msg unsubscribed_type (of_unsubscribed a) =
        (record p { subscriptions = unconfirm_first a.channel p.subscriptions }, [])
    deliver p msg _ _ = (p, [])

    module _ (m : Middle F) (v : AlertStrategy F S) where
      unfoldable pub evaluate_one :
          Pipeline Q F S → Update F → Readings → Pipeline Q F S × List (Event F)
      evaluate_one p u t =
          let (objects, fired) = evaluate m v u t.alert_time p.engine.strategies p.objects in
          (record p { objects = objects }, map alerted fired)

      unfoldable pub evaluate_two :
          Pipeline Q F S → Update F → Option (Update F) → Readings → Pipeline Q F S × List (Event F)
      evaluate_two p u none t = evaluate_one p u t
      evaluate_two p u (some both) t =
          let (p', es) = evaluate_one p u t in
          let (p'', more) = evaluate_one p' both t in (p'', es ++ more)

      -- The evaluation of the strategies, behind the `switch`.
      unfoldable pub evaluate_all :
          Pipeline Q F S → MessageType → MessageData F → Readings → Pipeline Q F S × List (Event F)
      evaluate_all p ticker_type (of_ticker t) r =
          evaluate_two p (on_ticker t) (with_book t (lookup t.symbol p.latest_books)) r
      evaluate_all p book_type (of_book b) r =
          evaluate_two p (on_book b) (with_ticker (lookup b.symbol p.latest_tickers) b) r
      evaluate_all p trade_type (of_trade t) r = evaluate_one p (on_trade t) r
      evaluate_all p ohlc_type (of_ohlc o) r = evaluate_one p (on_ohlc o) r
      evaluate_all p _ _ r = (p, [])

      unfoldable pub dispatch :
          Pipeline Q F S → Message F → Readings → Pipeline Q F S × List (Event F)
      dispatch p msg t =
          let (p', es) = deliver p msg msg.type msg.content in
          let (p'', more) = evaluate_all p' msg.type msg.content t in (p'', es ++ more)

      -- The gap check, the dispatch and the counters: direct mode, and the dispatcher thread.
      unfoldable pub process :
          Pipeline Q F S → Received F → Readings → Pipeline Q F S × List (Event F)
      process p r t =
          let (p', es) = check_gap p r.message t.gap_time in
          let (p'', more) = dispatch p' r.message t in (count_processed p'' r t, es ++ more)

      module _ (q : MessageQueue Q (Received F)) where
        abbrev pub enqueue : Pipeline Q F S → Option Q → Pipeline Q F S × List (Event F)
        enqueue p (some c) = (record p { queue = some c }, [])
        enqueue p none =
            (record p { msg_dropped = u64 (p.msg_dropped + 1) }, error_events p queue_overflow)

        abbrev pub hand_over :
            Pipeline Q F S → Option Q → Received F → Readings → Pipeline Q F S × List (Event F)
        hand_over p none r t = process p r t
        hand_over p (some c) r t = enqueue p (q.try_push c r)

        -- By the type of the message: heartbeats and answers never enter the queue.
        unfoldable pub sort_message :
            Pipeline Q F S → Received F → Readings → MessageType → Pipeline Q F S × List (Event F)
        sort_message p r t heartbeat_type = (
          record p {
            heartbeats_received = u64 (p.heartbeats_received + 1);
            last_heartbeat_time = r.receive_time;
          },
          [],
        )
        sort_message p r t subscribed_type = dispatch p r.message t
        sort_message p r t unsubscribed_type = dispatch p r.message t
        sort_message p r t _ = hand_over p p.queue r t

        unfoldable pub io_receive :
            Pipeline Q F S → Received F → Readings → Pipeline Q F S × List (Event F)
        io_receive p r t =
            sort_message (record p { msg_received = u64 (p.msg_received + 1) }) r t r.message.type

        -- The message is dispatched while it is still at the front.
        abbrev pub take_front :
            Pipeline Q F S → Q → Option (Received F) → Readings → Pipeline Q F S × List (Event F)
        take_front p c none t = (p, [])
        take_front p c (some r) t =
            let (p', es) = process p r t in (record p' { queue = some (q.pop c) }, es)

        abbrev pub dispatch_front :
            Pipeline Q F S → Option Q → Readings → Pipeline Q F S × List (Event F)
        dispatch_front p none t = (p, [])
        dispatch_front p (some c) t = take_front p c (q.front c) t

        -- One iteration; with an empty queue the thread waits.
        unfoldable pub dispatcher_step : Pipeline Q F S → Readings → Pipeline Q F S × List (Event F)
        dispatcher_step p t = dispatch_front p p.queue t

        abbrev pub inject_into :
            Pipeline Q F S → Option Q → Received F → Readings → Pipeline Q F S × List (Event F)
        inject_into p none r t =
            let (p', es) = dispatch p r.message t in
            (record p' { msg_processed = u64 (p'.msg_processed + 1) }, es)
        inject_into p (some c) r t = enqueue p (q.try_push c r)

        unfoldable pub inject_internal :
            Pipeline Q F S
            → MessageType
            → MessageData F
            → String
            → String
            → ℕ
            → Readings
            → Pipeline Q F S × List (Event F)
        inject_internal p type content channel symbol now t =
            inject_into p p.queue
              (record {
                message = record {
                  type = type;
                  content = content;
                  channel = channel;
                  symbol = symbol;
                  sequence = 0;
                  has_sequence = false;
                };
                receive_time = now;
              })
              t

        unfoldable pub inject_ticker :
            Pipeline Q F S → Ticker F → ℕ → Readings → Pipeline Q F S × List (Event F)
        inject_ticker p t now r =
            inject_internal p ticker_type (of_ticker t) "ticker" t.symbol now r

        unfoldable pub inject_trade :
            Pipeline Q F S → Trade F → ℕ → Readings → Pipeline Q F S × List (Event F)
        inject_trade p t now r = inject_internal p trade_type (of_trade t) "trade" t.symbol now r

        unfoldable pub inject_book :
            Pipeline Q F S → OrderBook F → ℕ → Readings → Pipeline Q F S × List (Event F)
        inject_book p b now r = inject_internal p book_type (of_book b) "book" b.symbol now r
