-- ===== src/Backoff/Attempts.antt =====
-- How many delays a strategy hands out.
use kraken_sdk.Common.{
  ◌+◌, ◌≤◌, ◌≡◌, refl, true, false, ◌&&◌, ltb, leb, List, [], ◌∷◌, length, arith, Bool-cases, inl,
  inr,
}
use kraken_sdk.Backoff.{
  Arithmetic, BackoffStrategy, fixed, immediate, exponential, attempt_of, max_attempts, should_stop,
  reset, clone, next_delay,
}

module _ {D : Type 0} (a : Arithmetic D) where
  -- As many calls of `next_delay` as numbers are drawn.
  unfoldable pub delays : BackoffStrategy D → List D → BackoffStrategy D
  delays b [] = b
  delays b (x ∷ xs) = delays (next_delay a b x).0 xs

  pub next_delay_counts :
      (b : BackoffStrategy D) (x : D)
      → should_stop b ≡ false
      → (attempt_of (next_delay a b x).0 ≡ attempt_of b + 1)
        × (max_attempts (next_delay a b x).0 ≡ max_attempts b)
  unfolding next_delay should_stop
  next_delay_counts (fixed b) x h = ground arith
  next_delay_counts (immediate b) x h = ground arith
  next_delay_counts (exponential b) x h = ground arith

  pub next_delay_keeps :
      (b : BackoffStrategy D) (x : D)
      → (max_attempts (next_delay a b x).0 ≡ max_attempts b)
        × (attempt_of b ≤ attempt_of (next_delay a b x).0)
  unfolding next_delay
  next_delay_keeps (fixed b) x = ground arith
  next_delay_keeps (immediate b) x = ground arith
  next_delay_keeps (exponential b) x = ground arith

  pub stopped_at_limit :
      (b : BackoffStrategy D) → should_stop b ≡ true → max_attempts b ≤ attempt_of b
  unfolding should_stop
  stopped_at_limit b h = ground arith

  -- The count reaches the limit just when as many delays as the limit were asked for.
  delays_reached :
      (b : BackoffStrategy D) (xs : List D)
      → (max_attempts (delays b xs) ≡ max_attempts b)
        × (leb (max_attempts b) (attempt_of (delays b xs))
            ≡ leb (max_attempts b) (attempt_of b + length xs))
  unfolding delays
  delays_reached b [] = ground arith
  delays_reached b (x ∷ xs) =
      let b' = (next_delay a b x).0 in
      let ih = delays_reached b' xs in
      let kept = next_delay_keeps b x in
      elim (Bool-cases (should_stop b)) [
        | inl stop ↦ ground (arith, ih, kept, stopped_at_limit b stop)
        | inr go ↦ ground (arith, ih, kept, next_delay_counts b x go)
      ]

  clone-reset : (b : BackoffStrategy D) → clone b ≡ reset b
  unfolding clone reset
  clone-reset (fixed b) = refl
  clone-reset (immediate b) = refl
  clone-reset (exponential b) = refl

  pub reset_fields :
      (b : BackoffStrategy D)
      → (max_attempts (reset b) ≡ max_attempts b) × (attempt_of (reset b) ≡ 0)
  unfolding reset
  reset_fields (fixed b) = (refl, refl)
  reset_fields (immediate b) = (refl, refl)
  reset_fields (exponential b) = (refl, refl)

  should_stop-delays-reset :
      (b : BackoffStrategy D) (xs : List D)
      → should_stop (delays (reset b) xs)
        ≡ (ltb 0 (max_attempts b) && leb (max_attempts b) (length xs))
  unfolding should_stop
  should_stop-delays-reset b xs = ground (arith, delays_reached (reset b) xs, reset_fields b)

  -- Every strategy with a positive limit, reset or cloned, stops just when it has handed out as many
  -- delays as its limit, or more; and one with the limit 0 never does.
  pub should_stop-delays :
      (b : BackoffStrategy D) (xs : List D)
      → (should_stop (delays (reset b) xs)
          ≡ (ltb 0 (max_attempts b) && leb (max_attempts b) (length xs)))
        × (should_stop (delays (clone b) xs)
            ≡ (ltb 0 (max_attempts b) && leb (max_attempts b) (length xs)))
  should_stop-delays b xs =
      (should_stop-delays-reset b xs, rw (clone-reset b) (should_stop-delays-reset b xs))
