-- ===== src/Reconnect/Outcome.antt =====
-- How a call of `handle_reconnect` ends.
use kraken_sdk.Common.{
  ℕ, ◌≡◌, refl, Bool, true, false, if◌then◌else◌, Option, none, some, List, [], ◌∷◌, ◌++◌, inl, inr,
  ◌⊎◌, ap, sym, ◌∙◌, append_assoc,
}
use kraken_sdk.Breaker.{CircuitBreaker}
use kraken_sdk.Breaker as Breaker
use kraken_sdk.Gap as Gap
use kraken_sdk.Backoff.{
  Arithmetic, BackoffStrategy, should_stop, next_delay, current_attempt, max_attempts, attempt_of,
}
use kraken_sdk.Backoff as Backoff
use kraken_sdk.Subscription.Client.{send_pending_subscriptions}
use kraken_sdk.Reconnect.{
  Event, connect_tried, state_set, error_reported, gave_up, Link, Round, Step, again, breaks,
  returns, sends, prepend, succeed, fail, try_connect, attempt_with, guarded, round, loop, finish,
  handle_reconnect, reset_backoff, reconnecting, connected, disconnected,
}

-- The last events of a call: the connection and the subscriptions, or giving up.
abbrev pub EndsWith : List Event → List Event → Type 0
EndsWith es end = (front : List Event) × (es ≡ front ++ end)

module _ {D : Type 0} where
  -- The state after a call that connected.
  pub record IsFresh (l : Link D) : Type 0 where
    pub is_connected : l.state ≡ connected
    pub no_gaps : l.tracker.gap_count ≡ 0
    pub no_numbers : l.tracker.last_seq ≡ []
    pub first_attempt : l.backoff ≡ reset_backoff l.backoff

  abbrev pub Settled : Bool × Link D × List Event → Type 0
  Settled (false, l, es) = Unit
  Settled (true, l, es) =
      (IsFresh l
        × EndsWith es
            (connect_tried ∷ state_set connected ∷ sends (send_pending_subscriptions l.client)))
      ⊎ ((l.state ≡ disconnected)
          × EndsWith es (state_set disconnected ∷ error_reported gave_up ∷ []))

  -- A step that returns has connected.
  abbrev Good : Step D → Type 0
  Good (again l es) = Unit
  Good (breaks l es) = Unit
  Good (returns l es) =
      IsFresh l
      × EndsWith es
          (connect_tried ∷ state_set connected ∷ sends (send_pending_subscriptions l.client))

  if-Good : (b : Bool) (s t : Step D) → Good s → Good t → Good (if b then s else t)
  if-Good true s t hs ht = hs
  if-Good false s t hs ht = ht

  Good-prepend : (es : List Event) (s : Step D) → Good s → Good (prepend es s)
  Good-prepend es (again l more) h = tt
  Good-prepend es (breaks l more) h = tt
  Good-prepend es (returns l more) h =
      (h.0, (es ++ h.1.0, ap (◌++◌ es) h.1.1 ∙ sym (append_assoc es h.1.0 _)))

  reset_twice : (o : Option (BackoffStrategy D)) → reset_backoff o ≡ reset_backoff (reset_backoff o)
  unfolding Backoff.reset
  reset_twice none = refl
  reset_twice (some (Backoff.fixed b)) = refl
  reset_twice (some (Backoff.immediate b)) = refl
  reset_twice (some (Backoff.exponential b)) = refl

  succeed-Good : (l : Link D) (r : Round D) → Good (succeed l r)
  unfolding succeed Gap.reset_all
  succeed-Good l r = (
    record {
      is_connected = refl;
      no_gaps = refl;
      no_numbers = refl;
      first_attempt = reset_twice l.backoff;
    },
    ([], refl),
  )

  fail-Good : (l : Link D) (r : Round D) (k : ℕ) → Good (fail l r k)
  unfolding fail
  fail-Good l r k = tt

  try_connect-Good :
      (l : Link D) (r : Round D) (k limit delay : ℕ) → Good (try_connect l r k limit delay)
  unfolding try_connect
  try_connect-Good l r k limit delay = Good-prepend _ _ (
      if-Good r.stop_after_wait (breaks l []) _ tt
        (if-Good r.connects _ _ (succeed-Good l r) (fail-Good l r k)))

  Settled-later :
      (es : List Event) (out : Bool × Link D × List Event)
      → Settled out
      → Settled (out.0, out.1, es ++ out.2)
  Settled-later es (false, l, more) h = tt
  Settled-later es (true, l, more) (inl g) =
      inl (g.0, (es ++ g.1.0, ap (◌++◌ es) g.1.1 ∙ sym (append_assoc es g.1.0 _)))
  Settled-later es (true, l, more) (inr g) =
      inr (g.0, (es ++ g.1.0, ap (◌++◌ es) g.1.1 ∙ sym (append_assoc es g.1.0 _)))

  finish-Settled :
      (s : Step D) (rest : Link D → Bool × Link D × List Event)
      → Good s
      → ((l : Link D) → Settled (rest l))
      → Settled (finish s rest)
  unfolding finish
  finish-Settled (again l es) rest g h = Settled-later es (rest l) (h l)
  finish-Settled (breaks l es) rest g h = inr (refl, (es, refl))
  finish-Settled (returns l es) rest g h = inl g

  module _ (a : Arithmetic D) where
    attempt_with-Good :
        (o : Option (BackoffStrategy D)) (l : Link D) (r : Round D) → Good (attempt_with a o l r)
    unfolding attempt_with
    attempt_with-Good none l r = try_connect-Good l r 1 10 1000
    attempt_with-Good (some b) l r = if-Good (should_stop b) _ _ tt (try_connect-Good _ r _ _ _)

    guarded-Good : (c : Option CircuitBreaker) (l : Link D) (r : Round D) → Good (guarded a c l r)
    unfolding guarded
    guarded-Good none l r = attempt_with-Good l.backoff l r
    guarded-Good (some c) l r =
        if-Good (Breaker.can_attempt c r.now).1 _ _ (attempt_with-Good l.backoff _ r) tt

    round-Good : (l : Link D) (r : Round D) → Good (round a l r)
    unfolding round
    round-Good l r = if-Good r.stop_at_top (breaks l []) _ tt (guarded-Good l.breaker l r)

    loop-Settled : (l : Link D) (rs : List (Round D)) → Settled (loop a l rs)
    unfolding loop
    loop-Settled l [] = tt
    loop-Settled l (r ∷ rs) =
        finish-Settled (round a l r) (λ l'. loop a l' rs) (round-Good l r)
          (λ l'. loop-Settled l' rs)

    -- A call that was not stopped at once and has returned leaves the client in one of two ways. It is
    -- connected, with the sequence tracker cleared, the backoff strategy at its first attempt and,
    -- last of all, the requests of the pending subscriptions sent. Or it is disconnected, and has
    -- reported last of all that it gave up.
    pub handle_reconnect-Settled :
        (l : Link D) (rs : List (Round D)) → Settled (handle_reconnect a false l rs)
    unfolding handle_reconnect
    handle_reconnect-Settled l rs =
        Settled-later (state_set reconnecting ∷ []) (loop a _ rs) (loop-Settled _ rs)
