-- ===== src/Dispatch/Balance.antt =====
-- The counters of the client: every message is accounted for.
use kraken_sdk.Common.{
  ℕ, suc, ◌+◌, ◌≡◌, refl, ap, sym, ◌∙◌, Bool, Option, none, some, List, [], ◌∷◌, length,
  length-append, arith, Option-cases, inl, inr,
}
use kraken_sdk.Gap.{u64}
use kraken_sdk.Market.{
  MessageType, subscribed_type, unsubscribed_type, heartbeat_type, Message, Middle,
}
use kraken_sdk.Strategy.{AlertStrategy}
use kraken_sdk.Dispatch.{
  MessageQueue, Received, Readings, Pipeline, dispatch, process, count_processed, enqueue,
  hand_over, sort_message, io_receive, take_front, dispatch_front, dispatcher_step, inject_into,
  inject_internal,
}
use kraken_sdk.Dispatch.Steps.{
  Step, receives, dispatches, injects, dispatch-Kept, dispatched-Kept, step, run,
}
use kraken_sdk.Dispatch.Fifo.{IsFifo, waiting, head?-tail, injected}

-- The answers to requests among the messages received, and the messages injected.
abbrev pub answer : MessageType → ℕ
answer subscribed_type = 1
answer unsubscribed_type = 1
answer _ = 0

abbrev pub answers : {F : Type 0} → List (Step F) → ℕ
answers [] = 0
answers (receives r t ∷ ss) = answer r.message.type + answers ss
answers (dispatches t ∷ ss) = answers ss
answers (injects ty d channel symbol now t ∷ ss) = answers ss

abbrev pub injections : {F : Type 0} → List (Step F) → ℕ
injections [] = 0
injections (receives r t ∷ ss) = injections ss
injections (dispatches t ∷ ss) = injections ss
injections (injects ty d channel symbol now t ∷ ss) = suc (injections ss)

answers-cons :
    {F : Type 0} (s : Step F) (ss : List (Step F))
    → answers (s ∷ ss) ≡ answers (s ∷ []) + answers ss
answers-cons (receives r t) ss = omega arith
answers-cons (dispatches t) ss = omega arith
answers-cons (injects ty d channel symbol now t) ss = omega arith

injections-cons :
    {F : Type 0} (s : Step F) (ss : List (Step F))
    → injections (s ∷ ss) ≡ injections (s ∷ []) + injections ss
injections-cons (receives r t) ss = omega arith
injections-cons (dispatches t) ss = omega arith
injections-cons (injects ty d channel symbol now t) ss = omega arith

module _ {Q F S : Type 0} (throws : Message F → Bool) (m : Middle F) (v : AlertStrategy F S)
    (q : MessageQueue Q (Received F)) {items : Q → List (Received F)} (f : IsFifo q items) where
  -- The heartbeats, and the messages processed, dropped, and waiting.
  abbrev pub accounted : Pipeline Q F S → ℕ
  accounted p =
      p.heartbeats_received + p.msg_processed + p.msg_dropped + length (waiting items p.queue)

  -- One message more is accounted for, and none is received.
  abbrev Accounts : ℕ → Pipeline Q F S → Pipeline Q F S → Type 0
  Accounts n p p' =
      (u64 (accounted p') ≡ u64 (accounted p + n)) × (p'.msg_received ≡ p.msg_received)

  process-Accounts :
      (p : Pipeline Q F S) (r : Received F) (t : Readings)
      → Accounts 1 p (process throws m v p r t).0
  unfolding process count_processed
  process-Accounts p r t =
      let k = dispatched-Kept throws m v p r t in
      let waits = ap (λ o. length (waiting items o)) k.0 in
      (omega (arith, k.1, k.2, k.3, k.4, waits), k.1)

  enqueue-Accounts :
      (p : Pipeline Q F S) (c : Q) (r : Received F)
      → p.queue ≡ some c
      → Accounts 1 p (enqueue throws m v q p (q.try_push c r)).0
  enqueue-Accounts p c r h =
      let waits = ap (λ o. length (waiting items o)) h in
      elim (Option-cases (q.try_push c r)) [
        | inl full ↦ rw full (omega arith, refl)
        | inr (c', room) ↦
            let longer = ap length (f.push_last c c' r room) in
            rw room (omega (arith, waits, longer, length-append (items c) (r ∷ [])), refl)
      ]

  hand_over-Accounts :
      (p : Pipeline Q F S) (o : Option Q) (r : Received F) (t : Readings)
      → p.queue ≡ o
      → Accounts 1 p (hand_over throws m v q p o r t).0
  hand_over-Accounts p none r t h = process-Accounts p r t
  hand_over-Accounts p (some c) r t h = enqueue-Accounts p c r h

  dispatch-Accounts :
      (p : Pipeline Q F S) (msg : Message F) (t : Readings)
      → Accounts 0 p (dispatch throws m v p msg t).0
  dispatch-Accounts p msg t =
      let k = dispatch-Kept throws m v p msg t in
      let waits = ap (λ o. length (waiting items o)) k.0 in
      (omega (arith, k.1, k.2, k.3, k.4, waits), k.1)

  inject_into-Accounts :
      (p : Pipeline Q F S) (o : Option Q) (r : Received F) (t : Readings)
      → p.queue ≡ o
      → Accounts 1 p (inject_into throws m v q p o r t).0
  inject_into-Accounts p none r t h =
      let k = dispatch-Kept throws m v p r.message t in
      let waits = ap (λ o. length (waiting items o)) k.0 in
      (omega (arith, k.1, k.2, k.3, k.4, waits), k.1)
  inject_into-Accounts p (some c) r t h = enqueue-Accounts p c r h

  sort_message-Accounts :
      (p : Pipeline Q F S) (r : Received F) (t : Readings) (ty : MessageType)
      → (u64 (accounted (sort_message throws m v q p r t ty).0 + answer ty) ≡ u64 (accounted p + 1))
        × ((sort_message throws m v q p r t ty).0.msg_received ≡ p.msg_received)
  unfolding sort_message
  sort_message-Accounts p r t heartbeat_type = (omega arith, refl)
  sort_message-Accounts p r t subscribed_type =
      let k = dispatch-Accounts p r.message t in (omega (arith, k.0), k.1)
  sort_message-Accounts p r t unsubscribed_type =
      let k = dispatch-Accounts p r.message t in (omega (arith, k.0), k.1)
  sort_message-Accounts p r t _ =
      let k = hand_over-Accounts p p.queue r t refl in (omega (arith, k.0), k.1)

  take_front-Accounts :
      (p : Pipeline Q F S) (c : Q) (r : Received F) (t : Readings)
      → p.queue ≡ some c
      → q.front c ≡ some r
      → Accounts 0 p (take_front throws m v q p c (some r) t).0
  unfolding process count_processed
  take_front-Accounts p c r t h first =
      let k = dispatched-Kept throws m v p r t in
      let waits = ap (λ o. length (waiting items o)) h in
      let split = ap length (head?-tail (items c) r (sym (f.front_first c) ∙ first)) in
      let fewer = ap length (f.pop_first c) in
      (omega (arith, k.1, k.2, k.3, k.4, waits, split, fewer), k.1)

  dispatch_front-Accounts :
      (p : Pipeline Q F S) (o : Option Q) (t : Readings)
      → p.queue ≡ o
      → Accounts 0 p (dispatch_front throws m v q p o t).0
  dispatch_front-Accounts p none t h = (omega arith, refl)
  dispatch_front-Accounts p (some c) t h = elim (Option-cases (q.front c)) [
    | inl empty ↦ rw empty (omega arith, refl)
    | inr (r, first) ↦ rw first (take_front-Accounts p c r t h first)
  ]

  -- What is received or injected is accounted for, up to the wrap-around of the counters; `given` and
  -- `answered` count the injections and the answers so far.
  abbrev pub IsBalanced : Pipeline Q F S → ℕ → ℕ → Type 0
  IsBalanced p given answered = u64 (p.msg_received + given) ≡ u64 (accounted p + answered)

  step-IsBalanced :
      (p : Pipeline Q F S) (s : Step F) (given answered : ℕ)
      → IsBalanced p given answered
      → IsBalanced
          (step throws m v q p s).0
          (given + injections (s ∷ []))
          (answered + answers (s ∷ []))
  unfolding io_receive dispatcher_step inject_internal
  step-IsBalanced p (receives r t) given answered h =
      let k =
        sort_message-Accounts (record p { msg_received = u64 (p.msg_received + 1) }) r t
          r.message.type in
      omega (arith, h, k.0, k.1)
  step-IsBalanced p (dispatches t) given answered h =
      let k = dispatch_front-Accounts p p.queue t refl in omega (arith, h, k.0, k.1)
  step-IsBalanced p (injects ty d channel symbol now t) given answered h =
      let k = inject_into-Accounts p p.queue (injected ty d channel symbol now) t refl in
      omega (arith, h, k.0, k.1)

  -- With a queue that is first in, first out, and whatever the schedule of the threads: the messages received and injected are, up to the
  -- wrap-around of the counters, the heartbeats, the answers to requests, and the messages processed,
  -- dropped and still waiting; if that was so before.
  pub run-IsBalanced :
      (p : Pipeline Q F S) (ss : List (Step F)) (given answered : ℕ)
      → IsBalanced p given answered
      → IsBalanced (run throws m v q p ss).0 (given + injections ss) (answered + answers ss)
  unfolding run
  run-IsBalanced p [] given answered h = omega (arith, h)
  run-IsBalanced p (s ∷ ss) given answered h =
      let p' = (step throws m v q p s).0 in
      let first = step-IsBalanced p s given answered h in
      let rest =
        run-IsBalanced p' ss (given + injections (s ∷ [])) (answered + answers (s ∷ [])) first in
      omega (arith, rest, answers-cons s ss, injections-cons s ss)
