-- ===== src/Dispatch/Snapshots.antt =====
-- What dispatching a message does to the snapshots and the subscriptions.
use kraken_sdk.Common.{
  ℕ, ◌≡◌, refl, ap, ◌∙◌, String, Bool, Option, none, some, List, [], ◌∷◌, if◌then◌else◌, string_key,
  ◌==◌, lookup-insert, lookup, arith,
}
use kraken_sdk.Book.{OrderBook}
use kraken_sdk.Market.{
  Ticker, MessageType, ticker_type, trade_type, book_type, ohlc_type, order_type, own_trade_type,
  balance_type, error_type, subscribed_type, unsubscribed_type, MessageData, of_ticker, of_trade,
  of_book, of_ohlc, of_order, of_own_trade, of_balances, of_error, of_subscribed, of_unsubscribed,
  Message, Middle,
}
use kraken_sdk.Strategy.{AlertStrategy, Update}
use kraken_sdk.Subscription.{SubscriptionImpl}
use kraken_sdk.Subscription.Client.{pending}
use kraken_sdk.Dispatch.{
  Readings, Pipeline, confirm_first, unconfirm_first, latest_ticker, latest_book, deliver,
  evaluate_one, evaluate_two, evaluate_all, dispatch,
}

-- The snapshot of a symbol after a message, given the one before.
abbrev pub ticker_after :
    {F : Type 0} → MessageType → MessageData F → String → Option (Ticker F) → Option (Ticker F)
ticker_after ticker_type (of_ticker t) symbol old = if t.symbol == symbol then some t else old
ticker_after _ _ symbol old = old

abbrev pub book_after :
    {F : Type 0}
    → MessageType
    → MessageData F
    → String
    → Option (OrderBook F)
    → Option (OrderBook F)
book_after book_type (of_book b) symbol old = if b.symbol == symbol then some b else old
book_after _ _ symbol old = old

pending-confirm_first :
    (channel : String) (subs : List (ℕ × SubscriptionImpl))
    → pending (confirm_first channel subs) ≡ pending subs
unfolding pending confirm_first
pending-confirm_first channel [] = refl
pending-confirm_first channel ((id, s) ∷ subs) = ground (arith, pending-confirm_first channel subs)

pending-unconfirm_first :
    (channel : String) (subs : List (ℕ × SubscriptionImpl))
    → pending (unconfirm_first channel subs) ≡ pending subs
unfolding pending unconfirm_first
pending-unconfirm_first channel [] = refl
pending-unconfirm_first channel ((id, s) ∷ subs) =
    ground (arith, pending-unconfirm_first channel subs)

module _ {Q F S : Type 0} (throws : Message F → Bool) where
  -- The three equations of a message.
  abbrev Effect : Pipeline Q F S → MessageType → MessageData F → String → Pipeline Q F S → Type 0
  Effect p ty c symbol p' =
      (latest_ticker p' symbol ≡ ticker_after ty c symbol (latest_ticker p symbol))
      × (latest_book p' symbol ≡ book_after ty c symbol (latest_book p symbol))
      × (pending p'.subscriptions ≡ pending p.subscriptions)

  deliver-Effect :
      (p : Pipeline Q F S) (msg : Message F) (ty : MessageType) (c : MessageData F)
      (symbol : String)
      → Effect p ty c symbol (deliver throws p msg ty c).0
  unfolding latest_ticker latest_book deliver
  deliver-Effect p msg ticker_type (of_ticker t) symbol =
      (lookup-insert t.symbol symbol t p.latest_tickers, refl, refl)
  deliver-Effect p msg book_type (of_book b) symbol =
      (refl, lookup-insert b.symbol symbol b p.latest_books, refl)
  deliver-Effect p msg subscribed_type (of_subscribed a) symbol =
      (refl, refl, pending-confirm_first a.channel p.subscriptions)
  deliver-Effect p msg unsubscribed_type (of_unsubscribed a) symbol =
      (refl, refl, pending-unconfirm_first a.channel p.subscriptions)
  deliver-Effect p msg trade_type (of_trade t) symbol = (refl, refl, refl)
  deliver-Effect p msg ohlc_type (of_ohlc o) symbol = (refl, refl, refl)
  deliver-Effect p msg order_type (of_order o) symbol = (refl, refl, refl)
  deliver-Effect p msg own_trade_type (of_own_trade t) symbol = (refl, refl, refl)
  deliver-Effect p msg balance_type (of_balances b) symbol = (refl, refl, refl)
  deliver-Effect p msg error_type (of_error e) symbol = (refl, refl, refl)
  deliver-Effect p msg _ _ symbol = (refl, refl, refl)

  module _ (m : Middle F) (v : AlertStrategy F S) where
    -- The strategies change neither snapshots nor subscriptions.
    abbrev Shown : Pipeline Q F S → Pipeline Q F S → Type 0
    Shown p p' =
        (p'.latest_tickers ≡ p.latest_tickers)
        × (p'.latest_books ≡ p.latest_books)
        × (p'.subscriptions ≡ p.subscriptions)

    evaluate_two-Shown :
        (p : Pipeline Q F S) (u : Update F) (both : Option (Update F)) (t : Readings)
        → Shown p (evaluate_two throws m v p u both t).0
    unfolding evaluate_two evaluate_one
    evaluate_two-Shown p u none t = (refl, refl, refl)
    evaluate_two-Shown p u (some w) t = (refl, refl, refl)

    evaluate_all-Shown :
        (p : Pipeline Q F S) (ty : MessageType) (c : MessageData F) (t : Readings)
        → Shown p (evaluate_all throws m v p ty c t).0
    unfolding evaluate_all evaluate_one
    evaluate_all-Shown p ticker_type (of_ticker t) r = evaluate_two-Shown p _ _ r
    evaluate_all-Shown p book_type (of_book b) r = evaluate_two-Shown p _ _ r
    evaluate_all-Shown p trade_type (of_trade t) r = (refl, refl, refl)
    evaluate_all-Shown p ohlc_type (of_ohlc o) r = (refl, refl, refl)
    evaluate_all-Shown p _ _ r = (refl, refl, refl)

    -- Dispatching a ticker makes it the latest of its symbol, and a book the latest of its symbol; all
    -- other messages, and all other symbols, keep the snapshots. No message, an answer of the server
    -- included, changes what would be subscribed again after a reconnection.
    pub latest-dispatch :
        (p : Pipeline Q F S) (msg : Message F) (t : Readings) (symbol : String)
        → let p' = (dispatch throws m v p msg t).0 in
          (latest_ticker p' symbol
            ≡ ticker_after msg.type msg.content symbol (latest_ticker p symbol))
          × (latest_book p' symbol ≡ book_after msg.type msg.content symbol (latest_book p symbol))
          × (pending p'.subscriptions ≡ pending p.subscriptions)
    unfolding dispatch latest_ticker latest_book
    latest-dispatch p msg t symbol =
        let p' = (deliver throws p msg msg.type msg.content).0 in
        let k = evaluate_all-Shown p' msg.type msg.content t in
        let d = deliver-Effect p msg msg.type msg.content symbol in
        (ap (lookup symbol) k.0 ∙ d.0, ap (lookup symbol) k.1 ∙ d.1, ap pending k.2 ∙ d.2)
