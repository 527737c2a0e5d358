-- ===== src/Lifecycle/Threads.antt =====
-- The threads of a client: src/client/lifecycle.cpp.
use kraken_sdk.Common.{
  ◌≡◌, ◌≢◌, refl, Bool, true, false, not, ◌&&◌, if◌then◌else◌, List, [], ◌∷◌, arith, All, ◌∙◌, sym,
}
use kraken_sdk.Subscription.Client.{Client}
use kraken_sdk.Lifecycle.{
  Attempt, Settings, Life, Left, Outcome, returned, threw, terminated, Done, client_life, returning,
  connect, disconnect, prepare, launch, launch_after, run_async, finish_run, run, stop,
}

pub data Call : Type 0 where
  connects : Attempt → Call
  disconnects : Call
  runs : Client → Attempt → Left → Call
  runs_async : Client → Attempt → Call
  stops : Call
  reconnects : Left → Call  -- what the I/O thread does to the connection

module _ (s : Settings) where
  abbrev pub step : Life → Call → Done
  step l (connects ok) = connect l ok
  step l disconnects = disconnect l
  step l (runs c ok left) = run s c l ok left
  step l (runs_async c ok) = run_async s c l ok
  step l stops = stop s l
  step l (reconnects left) =
      returning (record l { state = left.state; connection = left.connection })

  -- The outcomes of the calls, one after the other.
  unfoldable pub outcomes : Life → List Call → List Outcome
  outcomes l [] = []
  outcomes l (call ∷ calls) = let d = step l call in d.outcome ∷ outcomes d.life calls

  -- No thread is left to join when the client is not running, and none without its reason.
  abbrev pub IsJoined : Life → Type 0
  IsJoined l =
      (l.running ≡ false → (l.io_thread ≡ false) × (l.dispatcher_thread ≡ false))
      × (s.use_queue ≡ false → l.dispatcher_thread ≡ false)

  -- What a call keeps: a joined client stays joined, and the process goes on.
  abbrev pub Goes : Done → Type 0
  Goes d = (d.outcome ≢ terminated) × IsJoined d.life

  returned-terminated : returned ≢ terminated
  returned-terminated h = ground arith

  threw-terminated : threw ≢ terminated
  threw-terminated h = ground arith

  connect-Goes : (l : Life) (ok : Attempt) → IsJoined l → Goes (connect l ok)
  unfolding connect
  connect-Goes l ok h = ground arith

  -- What `prepare` leaves alone.
  pub prepare-threads :
      (c : Client) (l : Life) (ok : Attempt)
      → let d = prepare s c l ok in
        (d.life.running ≡ l.running)
        × (d.life.io_thread ≡ l.io_thread)
        × (d.life.dispatcher_thread ≡ l.dispatcher_thread)
        × (d.outcome ≢ terminated)
  unfolding prepare connect
  prepare-threads c l ok = ground arith

  returned-threw : returned ≢ threw
  returned-threw h = ground arith

  and-false : (b : Bool) → (b && false) ≡ false
  and-false b = ground arith

  -- The threads that are started when none is there.
  pub launch-threads :
      (w : Bool) (d : Done)
      → d.life.io_thread ≡ false
      → d.life.dispatcher_thread ≡ false
      → let e = launch s w d in
        (e.outcome ≡ d.outcome)
        × (e.life.running ≡ true)
        × (e.life.stop_requested ≡ false)
        × (e.life.io_thread ≡ not s.offline_mode)
        × (e.life.dispatcher_thread ≡ (s.use_queue && w))
        × (e.life.state ≡ d.life.state)
        × (e.life.connection ≡ d.life.connection)
  unfolding launch
  launch-threads w d io dispatcher = ground arith

  -- Without threads, and running only where it was before, as after an exception.
  unfoldable pub Idle : Life → Type 0
  Idle l = (l.running ≡ false) × (l.io_thread ≡ false) × (l.dispatcher_thread ≡ false)

  pub prepare-Idle :
      (c : Client) (l : Life) (ok : Attempt)
      → IsJoined l
      → l.running ≡ false
      → Idle (prepare s c l ok).life
  unfolding Idle
  prepare-Idle c l ok h stopped =
      let (running, io, dispatcher, k) = prepare-threads c l ok in
      (running ∙ stopped, io ∙ (h.0 stopped).0, dispatcher ∙ (h.0 stopped).1)

  launch_after-Goes :
      (w : Bool) (o : Outcome) (d : Done)
      → o ≢ terminated
      → d.outcome ≡ o
      → Idle d.life
      → Goes (launch_after s w o d)
  unfolding Idle
  launch_after-Goes w returned d n e h = let k = launch-threads w d h.1 h.2 in ground arith
  launch_after-Goes w threw d n e h = ground arith
  launch_after-Goes w terminated d n e h = absurd (n refl)

  unless-Goes :
      (running : Bool) (l : Life) (d : Done)
      → IsJoined l
      → (running ≡ false → Goes d)
      → Goes (if running then returning l else d)
  unless-Goes true l d h k = (returned-terminated, h)
  unless-Goes false l d h k = k refl

  run_async-Goes : (c : Client) (l : Life) (ok : Attempt) → IsJoined l → Goes (run_async s c l ok)
  unfolding run_async
  run_async-Goes c l ok h =
      let d = prepare s c l ok in
      unless-Goes l.running l (launch_after s true d.outcome d) h (λ stopped.
        launch_after-Goes true d.outcome d (prepare-threads c l ok).3 refl
          (prepare-Idle c l ok h stopped))

  finish_run-Goes :
      (left : Left) (o : Outcome) (d : Done)
      → o ≡ returned
      → d.outcome ≡ returned
      → d.life.dispatcher_thread ≡ false
      → Goes (finish_run s left o d)
  finish_run-Goes left returned d e f h = ground arith
  finish_run-Goes left threw d e f h = absurd (returned-threw (sym e))
  finish_run-Goes left terminated d e f h = absurd (returned-terminated (sym e))

  threw_ends :
      (left : Left) (o : Outcome) (d : Done)
      → o ≡ threw
      → d.outcome ≡ threw
      → Idle d.life
      → Goes (finish_run s left o (record d { requests = [] }))
  unfolding Idle
  threw_ends left returned d e f h = absurd (returned-threw e)
  threw_ends left threw d e f h = ground arith
  threw_ends left terminated d e f h = absurd (threw-terminated (sym e))

  ended-Goes :
      (left : Left) (o : Outcome) (d : Done)
      → o ≢ terminated
      → d.outcome ≡ o
      → Idle d.life
      → let launched = launch_after s false o d in
        Goes (finish_run s left launched.outcome launched)
  unfolding Idle
  ended-Goes left returned d n e h =
      let (k, running, stopped, io, dispatcher, state, k') = launch-threads false d h.1 h.2 in
      let launched = launch s false d in
      finish_run-Goes left launched.outcome launched (k ∙ e) (k ∙ e)
        (dispatcher ∙ and-false s.use_queue)
  ended-Goes left threw d n e h = threw_ends left d.outcome d e e h
  ended-Goes left terminated d n e h = absurd (n refl)

  run-Goes :
      (c : Client) (l : Life) (ok : Attempt) (left : Left) → IsJoined l → Goes (run s c l ok left)
  unfolding run
  run-Goes c l ok left h =
      let d = prepare s c l ok in
      let launched = launch_after s false d.outcome d in
      unless-Goes l.running l (finish_run s left launched.outcome launched) h (λ stopped.
        ended-Goes left d.outcome d (prepare-threads c l ok).3 refl (prepare-Idle c l ok h stopped))

  stop-Goes : (l : Life) → IsJoined l → Goes (stop s l)
  unfolding stop
  stop-Goes l h = ground arith

  step-Goes : (l : Life) (call : Call) → IsJoined l → Goes (step l call)
  unfolding disconnect
  step-Goes l (connects ok) h = connect-Goes l ok h
  step-Goes l disconnects h = (returned-terminated, h)
  step-Goes l (runs c ok left) h = run-Goes c l ok left h
  step-Goes l (runs_async c ok) h = run_async-Goes c l ok h
  step-Goes l stops h = stop-Goes l h
  step-Goes l (reconnects left) h = (returned-terminated, h)

  outcomes-All :
      (l : Life) (calls : List Call)
      → IsJoined l
      → All (λ outcome. outcome ≢ terminated) (outcomes l calls)
  unfolding outcomes
  outcomes-All l [] h = tt
  outcomes-All l (call ∷ calls) h =
      let (goes, joined) = step-Goes l call h in
      (goes, outcomes-All (step l call).life calls joined)

  -- Whatever calls a client gets, one after the other, and whatever its I/O thread does to the connection between them, no
  -- call overwrites a thread that has not been joined, so that the process is not terminated.
  pub outcomes-client_life :
      (calls : List Call) → All (λ outcome. outcome ≢ terminated) (outcomes client_life calls)
  unfolding client_life
  outcomes-client_life calls = outcomes-All client_life calls ((λ h. (refl, refl)), (λ h. refl))
