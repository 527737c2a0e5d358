-- ===== src/Reconnect/Attempts.antt =====
-- How often `handle_reconnect` tries to connect.
use kraken_sdk.Common.{
  ℕ, suc, ◌+◌, ◌-◌, ◌≤◌, ◌<◌, ◌≡◌, refl, Bool, true, false, ltb, if◌then◌else◌, Option, none, some,
  List, [], ◌∷◌, ◌++◌, arith, Bool-cases, inl, inr,
}
use kraken_sdk.Breaker.{CircuitBreaker}
use kraken_sdk.Breaker as Breaker
use kraken_sdk.Backoff.{
  Arithmetic, BackoffStrategy, should_stop, next_delay, current_attempt, max_attempts, attempt_of,
}
use kraken_sdk.Backoff.Attempts.{next_delay_counts, reset_fields}
use kraken_sdk.Subscription.{Request}
use kraken_sdk.Reconnect.{
  Event, connect_tried, state_set, error_reported, reconnect_notified, slept, request_sent, Link,
  Round, Step, again, breaks, returns, sends, prepend, succeed, fail, try_connect, attempt_with,
  guarded, round, loop, handle_reconnect, reset_backoff, reconnecting, disconnected, gave_up,
  finish,
}

-- The attempts to connect among the events.
abbrev pub tries : List Event → ℕ
tries [] = 0
tries (connect_tried ∷ es) = suc (tries es)
tries (state_set s ∷ es) = tries es
tries (error_reported e ∷ es) = tries es
tries (reconnect_notified k m d ∷ es) = tries es
tries (slept d ∷ es) = tries es
tries (request_sent r ∷ es) = tries es

tries-append : (es more : List Event) → tries (es ++ more) ≡ tries es + tries more
tries-append [] more = omega arith
tries-append (connect_tried ∷ es) more = omega (arith, tries-append es more)
tries-append (state_set s ∷ es) more = tries-append es more
tries-append (error_reported e ∷ es) more = tries-append es more
tries-append (reconnect_notified k m d ∷ es) more = tries-append es more
tries-append (slept d ∷ es) more = tries-append es more
tries-append (request_sent r ∷ es) more = tries-append es more

tries-sends : (rs : List Request) → tries (sends rs) ≡ 0
tries-sends [] = refl
tries-sends (r ∷ rs) = tries-sends rs

module _ {D : Type 0} where
  -- The strategy is there, with the limit `m`.
  abbrev pub Limited : ℕ → Option (BackoffStrategy D) → Type 0
  Limited m none = ⊥
  Limited m (some b) = max_attempts b ≡ m

  -- The attempts that are left to it.
  abbrev pub left : Option (BackoffStrategy D) → ℕ
  left none = 0
  left (some b) = max_attempts b - attempt_of b

  pub not_stopped :
      (b : BackoffStrategy D)
      → 0 < max_attempts b
      → should_stop b ≡ false
      → attempt_of b < max_attempts b
  unfolding should_stop
  not_stopped b pos go = ground arith

  -- A step that makes, with what it leaves, no more than `n` attempts.
  abbrev Spends : ℕ → ℕ → Step D → Type 0
  Spends m n (again l es) = Limited m l.backoff × (tries es + left l.backoff ≤ n)
  Spends m n (breaks l es) = tries es ≤ n
  Spends m n (returns l es) = tries es ≤ n

  Spends-prepend :
      (m n : ℕ) (es : List Event) (s : Step D)
      → tries es ≡ 0
      → Spends m n s
      → Spends m n (prepend es s)
  Spends-prepend m n es (again l more) z h = (h.0, omega (arith, h.1, tries-append es more))
  Spends-prepend m n es (breaks l more) z h = omega (arith, tries-append es more)
  Spends-prepend m n es (returns l more) z h = omega (arith, tries-append es more)

  Spends-mono : (m n k : ℕ) (s : Step D) → n ≤ k → Spends m n s → Spends m k s
  Spends-mono m n k (again l es) le h = (h.0, omega (arith, h.1))
  Spends-mono m n k (breaks l es) le h = omega arith
  Spends-mono m n k (returns l es) le h = omega arith

  announced :
      (l : Link D) (k m delay : ℕ)
      → tries (
          (if l.notifies then reconnect_notified k m delay ∷ [] else [])
          ++ (if ltb 0 delay then slept delay ∷ [] else []))
        ≡ 0
  announced l k m delay = ground arith

  if-Spends :
      (m n : ℕ) (b : Bool) (s t : Step D)
      → Spends m n s
      → Spends m n t
      → Spends m n (if b then s else t)
  if-Spends m n true s t hs ht = hs
  if-Spends m n false s t hs ht = ht

  succeed-Spends : (m n : ℕ) (l : Link D) (r : Round D) → Spends m (suc n) (succeed l r)
  unfolding succeed
  succeed-Spends m n l r = omega (arith, tries-sends _)

  fail-Spends :
      (m : ℕ) (l : Link D) (r : Round D) (k : ℕ)
      → Limited m l.backoff
      → Spends m (suc (left l.backoff)) (fail l r k)
  unfolding fail
  fail-Spends m l r k h = (h, omega arith)

  try_connect-Spends :
      (m : ℕ) (l : Link D) (r : Round D) (k limit delay : ℕ)
      → Limited m l.backoff
      → Spends m (suc (left l.backoff)) (try_connect l r k limit delay)
  unfolding try_connect
  try_connect-Spends m l r k limit delay h =
      let n = suc (left l.backoff) in
      let fails = fail-Spends m l r k h in
      Spends-prepend m n _ _ (announced l k limit delay) (
        if-Spends m n r.stop_after_wait (breaks l []) _ (omega arith)
          (if-Spends m n r.connects _ _ (succeed-Spends m (left l.backoff) l r) fails))

  tries-finish :
      (m n : ℕ) (s : Step D) (rest : Link D → Bool × Link D × List Event)
      → Spends m n s
      → ((l : Link D) → Limited m l.backoff → tries (rest l).2 ≤ left l.backoff)
      → tries (finish s rest).2 ≤ n
  unfolding finish
  tries-finish m n (again l es) rest h k = omega (arith, h.1, k l h.0, tries-append es (rest l).2)
  tries-finish m n (breaks l es) rest h k =
      omega (arith, tries-append es (state_set disconnected ∷ error_reported gave_up ∷ []))
  tries-finish m n (returns l es) rest h k = h

  module _ (a : Arithmetic D) where
    attempt_with-Spends :
        (m : ℕ) (o : Option (BackoffStrategy D)) (l : Link D) (r : Round D)
        → Limited m o
        → 0 < m
        → Spends m (left o) (attempt_with a o l r)
    unfolding attempt_with
    attempt_with-Spends m none l r h pos = elim h [ ]
    attempt_with-Spends m (some b) l r h pos =
        let b' = (next_delay a b r.sample).0 in
        elim (Bool-cases (should_stop b)) [
          | inl stop ↦ rw (stop, attempt_with) (omega arith)
          | inr go ↦
              let counted = next_delay_counts a b r.sample go in
              let room = not_stopped b (ground (arith, h)) go in
              let tried =
                try_connect-Spends m (record l { backoff = some b' }) r (current_attempt b')
                  (max_attempts b') (next_delay a b r.sample).1 (ground (arith, counted, h)) in
              rw (go, attempt_with) (Spends-mono m _ _ _ (omega (arith, counted, room)) tried)
        ]

    guarded-Spends :
        (m : ℕ) (c : Option CircuitBreaker) (l : Link D) (r : Round D)
        → Limited m l.backoff
        → 0 < m
        → Spends m (left l.backoff) (guarded a c l r)
    unfolding guarded
    guarded-Spends m none l r h pos = attempt_with-Spends m l.backoff l r h pos
    guarded-Spends m (some c) l r h pos =
        if-Spends m (left l.backoff) (Breaker.can_attempt c r.now).1 _ _
          (attempt_with-Spends m l.backoff _ r h pos) (h, omega arith)

    round-Spends :
        (m : ℕ) (l : Link D) (r : Round D)
        → Limited m l.backoff
        → 0 < m
        → Spends m (left l.backoff) (round a l r)
    unfolding round
    round-Spends m l r h pos =
        if-Spends m (left l.backoff) r.stop_at_top (breaks l []) _ (omega arith)
          (guarded-Spends m l.breaker l r h pos)

    tries-loop :
        (m : ℕ) (l : Link D) (rs : List (Round D))
        → Limited m l.backoff
        → 0 < m
        → tries (loop a l rs).2 ≤ left l.backoff
    unfolding loop
    tries-loop m l [] h pos = omega arith
    tries-loop m l (r ∷ rs) h pos =
        tries-finish m _ (round a l r) (λ l'. loop a l' rs) (round-Spends m l r h pos)
          (λ l' h'. tries-loop m l' rs h' pos)

    -- With a backoff strategy whose limit `m` is positive the client tries to connect at most `m`
    -- times in one call, however long the call lasts and whatever its environment does.
    pub tries-handle_reconnect :
        (l : Link D) (b : BackoffStrategy D) (stop : Bool) (rs : List (Round D))
        → l.backoff ≡ some b
        → 0 < max_attempts b
        → tries (handle_reconnect a stop l rs).2 ≤ max_attempts b
    unfolding handle_reconnect
    tries-handle_reconnect l b true rs h pos = omega arith
    tries-handle_reconnect l b false rs h pos =
        let start = record l { state = reconnecting; backoff = reset_backoff l.backoff } in
        let limited : Limited (max_attempts b) start.backoff = rw h (reset_fields a b).0 in
        let room : left start.backoff ≤ max_attempts b = rw h (omega (arith, reset_fields a b)) in
        omega (arith, tries-loop (max_attempts b) start rs limited pos, room)
