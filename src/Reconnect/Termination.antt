-- ===== src/Reconnect/Termination.antt =====
-- That a call of `handle_reconnect` returns.
use kraken_sdk.Common.{
  ℕ, ◌≤◌, ◌<◌, ◌≡◌, refl, Bool, true, false, if◌then◌else◌, Option, none, some, List, [], ◌∷◌,
  length, arith, Bool-cases, inl, inr, subst, sym,
}
use kraken_sdk.Backoff.{
  Arithmetic, BackoffStrategy, should_stop, next_delay, current_attempt, max_attempts,
}
use kraken_sdk.Backoff.Attempts.{next_delay_counts, reset_fields}
use kraken_sdk.Reconnect.{
  Event, Link, Round, Step, again, breaks, returns, prepend, succeed, fail, try_connect,
  attempt_with, guarded, round, loop, finish, handle_reconnect, reset_backoff, reconnecting,
}
use kraken_sdk.Reconnect.Attempts.{Limited, left, not_stopped}

module _ {D : Type 0} where
  -- A step after which there is no circuit breaker, and fewer than `n` attempts are left.
  abbrev Falls : ℕ → ℕ → Step D → Type 0
  Falls m n (again l es) = Limited m l.backoff × (left l.backoff < n) × (l.breaker ≡ none)
  Falls m n (breaks l es) = Unit
  Falls m n (returns l es) = Unit

  if-Falls :
      (m n : ℕ) (b : Bool) (s t : Step D)
      → Falls m n s
      → Falls m n t
      → Falls m n (if b then s else t)
  if-Falls m n true s t hs ht = hs
  if-Falls m n false s t hs ht = ht

  Falls-prepend : (m n : ℕ) (es : List Event) (s : Step D) → Falls m n s → Falls m n (prepend es s)
  Falls-prepend m n es (again l more) h = h
  Falls-prepend m n es (breaks l more) h = tt
  Falls-prepend m n es (returns l more) h = tt

  fail-Falls :
      (m n : ℕ) (l : Link D) (r : Round D) (k : ℕ)
      → Limited m l.backoff
      → left l.backoff < n
      → l.breaker ≡ none
      → Falls m n (fail l r k)
  unfolding fail
  fail-Falls m n l r k h lt nb = (h, lt, rw nb)

  succeed-Falls : (m n : ℕ) (l : Link D) (r : Round D) → Falls m n (succeed l r)
  unfolding succeed
  succeed-Falls m n l r = tt

  try_connect-Falls :
      (m n : ℕ) (l : Link D) (r : Round D) (k limit delay : ℕ)
      → Limited m l.backoff
      → left l.backoff < n
      → l.breaker ≡ none
      → Falls m n (try_connect l r k limit delay)
  unfolding try_connect
  try_connect-Falls m n l r k limit delay h lt nb = Falls-prepend m n _ _ (
      if-Falls m n r.stop_after_wait (breaks l []) _ tt
        (if-Falls m n r.connects _ _ (succeed-Falls m n l r) (fail-Falls m n l r k h lt nb)))

  finish_done :
      (m n : ℕ) (s : Step D) (rest : Link D → Bool × Link D × List Event)
      → Falls m n s
      → ((l : Link D)
          → Limited m l.backoff
          → left l.backoff < n
          → l.breaker ≡ none
          → (rest l).0 ≡ true)
      → (finish s rest).0 ≡ true
  unfolding finish
  finish_done m n (again l es) rest f h = h l f.0 f.1 f.2
  finish_done m n (breaks l es) rest f h = refl
  finish_done m n (returns l es) rest f h = refl

  module _ (a : Arithmetic D) where
    attempt_with-Falls :
        (m : ℕ) (o : Option (BackoffStrategy D)) (l : Link D) (r : Round D)
        → Limited m o
        → 0 < m
        → l.breaker ≡ none
        → Falls m (left o) (attempt_with a o l r)
    unfolding attempt_with
    attempt_with-Falls m none l r h pos nb = elim h [ ]
    attempt_with-Falls m (some b) l r h pos nb =
        let b' = (next_delay a b r.sample).0 in
        elim (Bool-cases (should_stop b)) [
          | inl stop ↦ rw (stop, attempt_with) tt
          | inr go ↦
              let counted = next_delay_counts a b r.sample go in
              let room = not_stopped b (ground (arith, h)) go in
              rw (go, attempt_with)
                (try_connect-Falls m _ (record l { backoff = some b' }) r (current_attempt b')
                  (max_attempts b') (next_delay a b r.sample).1 (ground (arith, counted, h))
                  (omega (arith, counted, room)) nb)
        ]

    round-Falls :
        (m : ℕ) (l : Link D) (r : Round D)
        → Limited m l.backoff
        → 0 < m
        → l.breaker ≡ none
        → Falls m (left l.backoff) (round a l r)
    unfolding round guarded
    round-Falls m l r h pos nb = if-Falls m (left l.backoff) r.stop_at_top (breaks l []) _ tt (
        subst (λ c. Falls m (left l.backoff) (guarded a c l r)) (sym nb)
          (attempt_with-Falls m l.backoff l r h pos nb))

    loop_done :
        (m : ℕ) (l : Link D) (rs : List (Round D))
        → Limited m l.backoff
        → 0 < m
        → l.breaker ≡ none
        → left l.backoff < length rs
        → (loop a l rs).0 ≡ true
    unfolding loop
    loop_done m l [] h pos nb lt = absurd (omega arith)
    loop_done m l (r ∷ rs) h pos nb lt =
        finish_done m (left l.backoff) (round a l r) (λ l'. loop a l' rs)
          (round-Falls m l r h pos nb) (λ l' h' lt' nb'. loop_done m l' rs h' pos nb' (omega arith))

    -- Without a circuit breaker, and with a backoff strategy whose limit `m` is positive, the call
    -- returns within `m + 1` iterations of its loop, whatever its environment does.
    pub handle_reconnect_returns :
        (l : Link D) (b : BackoffStrategy D) (stop : Bool) (rs : List (Round D))
        → l.backoff ≡ some b
        → 0 < max_attempts b
        → l.breaker ≡ none
        → max_attempts b < length rs
        → (handle_reconnect a stop l rs).0 ≡ true
    unfolding handle_reconnect
    handle_reconnect_returns l b true rs h pos nb lt = refl
    handle_reconnect_returns l b false rs h pos nb lt =
        let start = record l { state = reconnecting; backoff = reset_backoff l.backoff } in
        let limited : Limited (max_attempts b) start.backoff = rw h (reset_fields a b).0 in
        let room : left start.backoff ≤ max_attempts b = rw h (omega (arith, reset_fields a b)) in
        loop_done (max_attempts b) start rs limited pos nb (omega (arith, room))
