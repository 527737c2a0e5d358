-- ===== src/Dispatch/Steps.antt =====
-- Schedules of the threads, and what the processing of a message leaves alone.
use kraken_sdk.Common.{
  ℕ, ◌≡◌, refl, ◌∙◌, String, Bool, Option, none, some, List, [], ◌∷◌, ◌++◌, arith,
}
use kraken_sdk.Market.{
  MessageType, ticker_type, trade_type, book_type, ohlc_type, order_type, own_trade_type,
  balance_type, error_type, subscribed_type, unsubscribed_type, MessageData, of_ticker, of_trade,
  of_book, of_ohlc, of_order, of_own_trade, of_balances, of_error, of_subscribed, of_unsubscribed,
  Message, Middle,
}
use kraken_sdk.Strategy.{AlertStrategy, Update}
use kraken_sdk.Dispatch.{
  MessageQueue, Received, Event, Readings, Pipeline, deliver, evaluate_one, evaluate_two,
  evaluate_all, dispatch, check_gap, io_receive, dispatcher_step, inject_internal,
}

-- A step of one of the threads, or a call of the replay engine.
pub data Step (F : Type 0) : Type 0 where
  receives : Received F → Readings → Step F
  dispatches : Readings → Step F
  injects : MessageType → MessageData F → String → String → ℕ → Readings → Step F

module _ {Q F S : Type 0} where
  -- What processing a message leaves alone: the queue, and the other counters.
  abbrev pub Kept : Pipeline Q F S → Pipeline Q F S → Type 0
  Kept p p' =
      (p'.queue ≡ p.queue)
      × (p'.msg_received ≡ p.msg_received)
      × (p'.msg_processed ≡ p.msg_processed)
      × (p'.msg_dropped ≡ p.msg_dropped)
      × (p'.heartbeats_received ≡ p.heartbeats_received)

  Kept-trans : (p p' p'' : Pipeline Q F S) → Kept p p' → Kept p' p'' → Kept p p''
  Kept-trans p p' p'' h k = (k.0 ∙ h.0, k.1 ∙ h.1, k.2 ∙ h.2, k.3 ∙ h.3, k.4 ∙ h.4)

  pub check_gap-Kept :
      (p : Pipeline Q F S) (msg : Message F) (now : ℕ) → Kept p (check_gap p msg now).0
  unfolding check_gap
  check_gap-Kept p msg now = ground arith

  module _ (throws : Message F → Bool) where
    deliver-Kept :
        (p : Pipeline Q F S) (msg : Message F) (ty : MessageType) (c : MessageData F)
        → Kept p (deliver throws p msg ty c).0
    unfolding deliver
    deliver-Kept p msg ticker_type (of_ticker t) = (refl, refl, refl, refl, refl)
    deliver-Kept p msg trade_type (of_trade t) = (refl, refl, refl, refl, refl)
    deliver-Kept p msg book_type (of_book b) = (refl, refl, refl, refl, refl)
    deliver-Kept p msg ohlc_type (of_ohlc o) = (refl, refl, refl, refl, refl)
    deliver-Kept p msg order_type (of_order o) = (refl, refl, refl, refl, refl)
    deliver-Kept p msg own_trade_type (of_own_trade t) = (refl, refl, refl, refl, refl)
    deliver-Kept p msg balance_type (of_balances b) = (refl, refl, refl, refl, refl)
    deliver-Kept p msg error_type (of_error e) = (refl, refl, refl, refl, refl)
    deliver-Kept p msg subscribed_type (of_subscribed a) = (refl, refl, refl, refl, refl)
    deliver-Kept p msg unsubscribed_type (of_unsubscribed a) = (refl, refl, refl, refl, refl)
    deliver-Kept p msg _ _ = (refl, refl, refl, refl, refl)

    module _ (m : Middle F) (v : AlertStrategy F S) where
      evaluate_two-Kept :
          (p : Pipeline Q F S) (u : Update F) (both : Option (Update F)) (t : Readings)
          → Kept p (evaluate_two throws m v p u both t).0
      unfolding evaluate_two evaluate_one
      evaluate_two-Kept p u none t = (refl, refl, refl, refl, refl)
      evaluate_two-Kept p u (some w) t = (refl, refl, refl, refl, refl)

      evaluate_all-Kept :
          (p : Pipeline Q F S) (ty : MessageType) (c : MessageData F) (t : Readings)
          → Kept p (evaluate_all throws m v p ty c t).0
      unfolding evaluate_all evaluate_one
      evaluate_all-Kept p ticker_type (of_ticker t) r = evaluate_two-Kept p _ _ r
      evaluate_all-Kept p book_type (of_book b) r = evaluate_two-Kept p _ _ r
      evaluate_all-Kept p trade_type (of_trade t) r = (refl, refl, refl, refl, refl)
      evaluate_all-Kept p ohlc_type (of_ohlc o) r = (refl, refl, refl, refl, refl)
      evaluate_all-Kept p _ _ r = (refl, refl, refl, refl, refl)

      pub dispatch-Kept :
          (p : Pipeline Q F S) (msg : Message F) (t : Readings)
          → Kept p (dispatch throws m v p msg t).0
      unfolding dispatch
      dispatch-Kept p msg t =
          let p' = (deliver throws p msg msg.type msg.content).0 in
          Kept-trans p p' (dispatch throws m v p msg t).0 (deliver-Kept p msg msg.type msg.content)
            (evaluate_all-Kept p' msg.type msg.content t)

      -- The state between the dispatch of a message and the count of it.
      abbrev pub dispatched : Pipeline Q F S → Received F → Readings → Pipeline Q F S
      dispatched p r t = (dispatch throws m v (check_gap p r.message t.gap_time).0 r.message t).0

      pub dispatched-Kept :
          (p : Pipeline Q F S) (r : Received F) (t : Readings) → Kept p (dispatched p r t)
      dispatched-Kept p r t =
          let p' = (check_gap p r.message t.gap_time).0 in
          Kept-trans p p' (dispatched p r t) (check_gap-Kept p r.message t.gap_time)
            (dispatch-Kept p' r.message t)

      module _ (q : MessageQueue Q (Received F)) where
        abbrev pub step : Pipeline Q F S → Step F → Pipeline Q F S × List (Event F)
        step p (receives r t) = io_receive throws m v q p r t
        step p (dispatches t) = dispatcher_step throws m v q p t
        step p (injects ty c channel symbol now t) =
            inject_internal throws m v q p ty c channel symbol now t

        unfoldable pub run : Pipeline Q F S → List (Step F) → Pipeline Q F S × List (Event F)
        run p [] = (p, [])
        run p (s ∷ ss) = let (p', es) = step p s in let (p'', more) = run p' ss in (p'', es ++ more)
