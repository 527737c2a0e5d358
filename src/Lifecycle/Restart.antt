-- ===== src/Lifecycle/Restart.antt =====
-- Starting a client, and starting it again after `stop`: src/client/lifecycle.cpp.
use kraken_sdk.Common.{
  ◌≡◌, ◌⊎◌, inl, inr, refl, ap, ◌∙◌, Bool, true, false, not, if◌then◌else◌, [], ◌∷◌, arith,
}
use kraken_sdk.Subscription.Client.{Client}
use kraken_sdk.Reconnect.{disconnected, connecting, connected}
use kraken_sdk.Lifecycle.{
  Attempt, is_opened, Settings, Life, Outcome, returned, threw, terminated, Done, returning,
  connect, prepare, launch, launch_after, run_async, stop, is_connected, is_open,
  is_connected_state,
}
use kraken_sdk.Lifecycle.Threads.{IsJoined, Idle, prepare-Idle, launch-threads}

module _ (s : Settings) where
  abbrev pub Started : Done → Type 0
  Started d =
      (d.outcome ≡ returned)
      × (d.life.running ≡ true)
      × (d.life.stop_requested ≡ false)
      × (d.life.io_thread ≡ not s.offline_mode)
      × (d.life.dispatcher_thread ≡ s.use_queue)

  abbrev pub Failed : Attempt → Done → Type 0
  Failed ok d =
      (d.outcome ≡ threw)
      × (is_opened ok ≡ false)
      × (s.offline_mode ≡ false)
      × (d.life.running ≡ false)
      × (d.life.state ≡ disconnected)
      × (d.life.io_thread ≡ false)
      × (d.life.dispatcher_thread ≡ false)
      × (d.states ≡ connecting ∷ disconnected ∷ [])
      × (d.requests ≡ [])

  prepare-outcome :
      (c : Client) (l : Life) (ok : Attempt)
      → let d = prepare s c l ok in
        (d.outcome ≡ returned)
        ⊎ ((d.outcome ≡ threw)
            × (is_opened ok ≡ false)
            × (s.offline_mode ≡ false)
            × (d.life.state ≡ disconnected)
            × (d.states ≡ connecting ∷ disconnected ∷ []))
  unfolding prepare connect
  prepare-outcome c l ok = ground arith

  launched :
      (running : Bool) (o : Outcome) (l : Life) (ok : Attempt) (d : Done)
      → running ≡ false
      → d.outcome ≡ o
      → Idle s d.life
      → ((o ≡ returned)
          ⊎ ((o ≡ threw)
              × (is_opened ok ≡ false)
              × (s.offline_mode ≡ false)
              × (d.life.state ≡ disconnected)
              × (d.states ≡ connecting ∷ disconnected ∷ [])))
      → let e = if running then returning l else launch_after s true o d in Started e ⊎ Failed ok e
  unfolding Idle
  launched true o l ok d r e h k = ground arith
  launched false returned l ok d r e h k =
      let k' = launch-threads s true d h.1 h.2 in inl (ground arith)
  launched false threw l ok d r e h k = inr (ground arith)
  launched false terminated l ok d r e h k = ground arith

  -- A call of `run_async` on a client that is not running, with no threads left, either returns with the
  -- client running, the I/O thread started unless the client is offline, and the dispatcher thread
  -- when there is a queue; or it throws, which it does only when the client is not offline and its
  -- connection fails, and then the client is disconnected, without threads, not running, and no
  -- request has been sent.
  pub run_async-outcome :
      (c : Client) (l : Life) (ok : Attempt)
      → l.running ≡ false
      → IsJoined s l
      → Started (run_async s c l ok) ⊎ Failed ok (run_async s c l ok)
  unfolding run_async
  run_async-outcome c l ok stopped h =
      let d = prepare s c l ok in
      launched l.running d.outcome l ok d stopped refl (prepare-Idle s c l ok h stopped)
        (prepare-outcome c l ok)

  stop-facts :
      (l : Life)
      → l.running ≡ true
      → let stopped = (stop s l).life in
        (stopped.state ≡ l.state) × (stopped.running ≡ false) × (is_open stopped.connection ≡ false)
  unfolding stop
  stop-facts l running = ground arith

  prepare_up :
      (c : Client) (l : Life) (ok : Attempt)
      → l.state ≡ connected
      → is_open l.connection ≡ false
      → let d = prepare s c l ok in (d.outcome ≡ returned) × (d.states ≡ []) × (d.requests ≡ [])
  unfolding prepare is_connected
  prepare_up c l ok up shut = ground arith

  launch-output :
      (w : Bool) (d : Done)
      → ((launch s w d).states ≡ d.states) × ((launch s w d).requests ≡ d.requests)
  unfolding launch
  launch-output w d = ground arith

  quiet :
      (running : Bool) (o : Outcome) (l : Life) (d : Done)
      → running ≡ false
      → o ≡ returned
      → (d.states ≡ []) × (d.requests ≡ [])
      → let e = if running then returning l else launch_after s true o d in
        (e.states ≡ []) × (e.requests ≡ [])
  quiet true o l d r e h = ground arith
  quiet false returned l d r e (h, k) =
      let (states, requests) = launch-output true d in (states ∙ h, requests ∙ k)
  quiet false threw l d r e h = ground arith
  quiet false terminated l d r e h = ground arith

  run_async-quiet :
      (c : Client) (l : Life) (ok : Attempt)
      → l.running ≡ false
      → l.state ≡ connected
      → is_open l.connection ≡ false
      → let again = run_async s c l ok in (again.states ≡ []) × (again.requests ≡ [])
  unfolding run_async
  run_async-quiet c l ok stopped up shut =
      let d = prepare s c l ok in
      let (outcome, states, requests) = prepare_up c l ok up shut in
      quiet l.running d.outcome l d stopped outcome (states, requests)

  -- `stop` leaves a running client that is connected connected in name: its connection is closed, but
  -- `is_connected` still says true, so that the next `run_async` neither connects nor sends the
  -- requests of the subscriptions.
  pub run_async-stop :
      (c : Client) (l : Life) (ok : Attempt)
      → l.running ≡ true
      → l.state ≡ connected
      → let stopped = (stop s l).life in
        let again = run_async s c stopped ok in
        (is_connected stopped ≡ true)
        × (is_open stopped.connection ≡ false)
        × (again.states ≡ [])
        × (again.requests ≡ [])
  unfolding is_connected
  run_async-stop c l ok running up =
      let stopped = (stop s l).life in
      let (same, halted, shut) = stop-facts l running in
      let (states, requests) = run_async-quiet c stopped ok halted (same ∙ up) shut in
      (ap is_connected_state (same ∙ up), shut, states, requests)
