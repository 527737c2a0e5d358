-- ===== src/Dispatch/Fifo.antt =====
-- The queue: no message is lost, doubled or overtaken between the threads.
use kraken_sdk.Common.{
  ℕ, ◌≡◌, refl, ap, sym, ◌∙◌, String, Bool, true, false, Option, none, some, List, [], ◌∷◌, ◌++◌,
  append_assoc, append-nil, if◌then◌else◌, arith, Option-cases, inl, inr,
}
use kraken_sdk.Market.{
  MessageType, subscribed_type, unsubscribed_type, heartbeat_type, MessageData, Message, Middle,
}
use kraken_sdk.Strategy.{AlertStrategy}
use kraken_sdk.Dispatch.{
  MessageQueue, Received, Readings, Pipeline, dispatch, count_processed, process, enqueue,
  hand_over, sort_message, io_receive, dispatch_front, dispatcher_step, inject_into,
  inject_internal,
}
use kraken_sdk.Dispatch.Steps.{
  Step, receives, dispatches, injects, dispatch-Kept, dispatched-Kept, step, run,
}

abbrev pub head? : {A : Type 0} → List A → Option A
head? [] = none
head? (x ∷ xs) = some x

abbrev pub tail : {A : Type 0} → List A → List A
tail [] = []
tail (x ∷ xs) = xs

-- What is used of a queue that holds `items q`, oldest first.
pub record IsFifo {Q T : Type 0} (q : MessageQueue Q T) (items : Q → List T) : Type 0 where
  pub push_last : (c c' : Q) (t : T) → q.try_push c t ≡ some c' → items c' ≡ items c ++ t ∷ []
  pub front_first : (c : Q) → q.front c ≡ head? (items c)
  pub pop_first : (c : Q) → items (q.pop c) ≡ tail (items c)

pub head?-tail : {A : Type 0} (xs : List A) (x : A) → head? xs ≡ some x → xs ≡ x ∷ tail xs
head?-tail [] x h = absurd (ground arith)
head?-tail (y ∷ ys) x h = ground arith

-- Heartbeats and answers to requests are not for the queue.
abbrev pub is_queued : MessageType → Bool
is_queued heartbeat_type = false
is_queued subscribed_type = false
is_queued unsubscribed_type = false
is_queued _ = true

abbrev pub injected : {F : Type 0} → MessageType → MessageData F → String → String → ℕ → Received F
injected ty c channel symbol now = record {
  message = record {
    type = ty;
    content = c;
    channel = channel;
    symbol = symbol;
    sequence = 0;
    has_sequence = false;
  };
  receive_time = now;
}

abbrev pub at_front : {T : Type 0} → Option T → List T
at_front none = []
at_front (some r) = r ∷ []

abbrev pub pushed : {Q T : Type 0} → Option Q → T → List T
pushed none r = []
pushed (some c) r = r ∷ []

abbrev pub waiting : {Q T : Type 0} → (Q → List T) → Option Q → List T
waiting items none = []
waiting items (some c) = items c

-- What a step puts into the queue, and what it takes out of it.
module _ {Q F : Type 0} (q : MessageQueue Q (Received F)) where
  abbrev pub offered : Option Q → Received F → List (Received F)
  offered none r = []
  offered (some c) r = pushed (q.try_push c r) r

  abbrev pub front_of : Option Q → List (Received F)
  front_of none = []
  front_of (some c) = at_front (q.front c)

  abbrev pub entered : Option Q → Step F → List (Received F)
  entered c (receives r t) = if is_queued r.message.type then offered c r else []
  entered c (dispatches t) = []
  entered c (injects ty d channel symbol now t) = offered c (injected ty d channel symbol now)

  abbrev pub left : Option Q → Step F → List (Received F)
  left c (receives r t) = []
  left c (dispatches t) = front_of c
  left c (injects ty d channel symbol now t) = []

module _ {Q F S : Type 0} (throws : Message F → Bool) (m : Middle F) (v : AlertStrategy F S)
    (q : MessageQueue Q (Received F)) {items : Q → List (Received F)} (f : IsFifo q items) where
  enqueue-waiting :
      (p : Pipeline Q F S) (c : Q) (r : Received F)
      → p.queue ≡ some c
      → waiting items (enqueue throws m v q p (q.try_push c r)).0.queue
        ≡ items c ++ pushed (q.try_push c r) r
  enqueue-waiting p c r h = elim (Option-cases (q.try_push c r)) [
    | inl full ↦ rw full (ap (waiting items) h ∙ sym (append-nil (items c)))
    | inr (c', room) ↦ rw room (f.push_last c c' r room)
  ]

  -- A message that is handed over waits behind the others.
  hand_over-waiting :
      (p : Pipeline Q F S) (o : Option Q) (r : Received F) (t : Readings)
      → p.queue ≡ o
      → waiting items (hand_over throws m v q p o r t).0.queue ≡ waiting items o ++ offered q o r
  unfolding process count_processed
  hand_over-waiting p none r t h = ap (waiting items) ((dispatched-Kept throws m v p r t).0 ∙ h)
  hand_over-waiting p (some c) r t h = enqueue-waiting p c r h

  inject_into-waiting :
      (p : Pipeline Q F S) (o : Option Q) (r : Received F) (t : Readings)
      → p.queue ≡ o
      → waiting items (inject_into throws m v q p o r t).0.queue ≡ waiting items o ++ offered q o r
  inject_into-waiting p none r t h =
      ap (waiting items) ((dispatch-Kept throws m v p r.message t).0 ∙ h)
  inject_into-waiting p (some c) r t h = enqueue-waiting p c r h

  dispatch-waiting :
      (p : Pipeline Q F S) (r : Received F) (t : Readings)
      → waiting items (dispatch throws m v p r.message t).0.queue ≡ waiting items p.queue ++ []
  dispatch-waiting p r t =
      ap (waiting items) (dispatch-Kept throws m v p r.message t).0
      ∙ sym (append-nil (waiting items p.queue))

  sort_message-waiting :
      (p : Pipeline Q F S) (r : Received F) (t : Readings) (ty : MessageType)
      → waiting items (sort_message throws m v q p r t ty).0.queue
        ≡ waiting items p.queue ++ (if is_queued ty then offered q p.queue r else [])
  unfolding sort_message
  sort_message-waiting p r t heartbeat_type = sym (append-nil (waiting items p.queue))
  sort_message-waiting p r t subscribed_type = dispatch-waiting p r t
  sort_message-waiting p r t unsubscribed_type = dispatch-waiting p r t
  sort_message-waiting p r t _ = hand_over-waiting p p.queue r t refl

  -- The message at the front leaves, and the others wait on.
  dispatch_front-waiting :
      (p : Pipeline Q F S) (o : Option Q) (t : Readings)
      → p.queue ≡ o
      → waiting items o ≡ front_of q o ++ waiting items (dispatch_front throws m v q p o t).0.queue
  dispatch_front-waiting p none t h = sym (ap (waiting items) h)
  dispatch_front-waiting p (some c) t h = elim (Option-cases (q.front c)) [
    | inl empty ↦ rw empty (ground (arith, h))
    | inr (r, first) ↦
        let split = head?-tail (items c) r (sym (f.front_first c) ∙ first) in
        rw first (split ∙ ap (◌∷◌ r) (sym (f.pop_first c)))
  ]

  step-waiting :
      (p : Pipeline Q F S) (s : Step F)
      → waiting items p.queue ++ entered q p.queue s
        ≡ left q p.queue s ++ waiting items (step throws m v q p s).0.queue
  unfolding io_receive dispatcher_step inject_internal
  step-waiting p (receives r t) =
      sym (sort_message-waiting (record p { msg_received = _ }) r t r.message.type)
  step-waiting p (dispatches t) =
      append-nil (waiting items p.queue) ∙ dispatch_front-waiting p p.queue t refl
  step-waiting p (injects ty d channel symbol now t) =
      sym (inject_into-waiting p p.queue (injected ty d channel symbol now) t refl)

  -- Of a whole schedule.
  abbrev pub all_entered : Pipeline Q F S → List (Step F) → List (Received F)
  all_entered p [] = []
  all_entered p (s ∷ ss) = entered q p.queue s ++ all_entered (step throws m v q p s).0 ss

  abbrev pub all_left : Pipeline Q F S → List (Step F) → List (Received F)
  all_left p [] = []
  all_left p (s ∷ ss) = left q p.queue s ++ all_left (step throws m v q p s).0 ss

  -- With a queue that is first in, first out, and whatever the schedule of the threads, the messages
  -- that wait, and behind them those that the queue accepts, are those that the dispatcher takes, and
  -- behind them those that still wait: none is lost, doubled or overtaken.
  pub run-in_order :
      (p : Pipeline Q F S) (ss : List (Step F))
      → waiting items p.queue ++ all_entered p ss
        ≡ all_left p ss ++ waiting items (run throws m v q p ss).0.queue
  unfolding run
  run-in_order p [] = append-nil (waiting items p.queue)
  run-in_order p (s ∷ ss) =
      let p' = (step throws m v q p s).0 in
      sym (append_assoc (waiting items p.queue) (entered q p.queue s) (all_entered p' ss))
      ∙ ap (λ xs. xs ++ all_entered p' ss) (step-waiting p s)
      ∙ append_assoc (left q p.queue s) (waiting items p'.queue) (all_entered p' ss)
      ∙ ap (◌++◌ (left q p.queue s)) (run-in_order p' ss)
      ∙ sym (
          append_assoc (left q p.queue s) (all_left p' ss)
            (waiting items (run throws m v q p' ss).0.queue))
