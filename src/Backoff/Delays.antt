-- ===== src/Backoff/Delays.antt =====
-- How long the delays are.
use kraken_sdk.Common.{
  ℕ, ◌≤◌, ◌≡◌, true, false, ◌&&◌, ltb, leb, if◌then◌else◌, arith, Bool-cases, inl, inr, subst,
}
use kraken_sdk.Backoff.{Arithmetic, ExponentialBackoff, exponential, jittered_ms, next_delay}

-- What is used of the order of doubles, none of them a NaN.
pub record IsOrdered {D : Type 0} (a : Arithmetic D) (le : D → D → Type 0) : Type 0 where
  pub trans : (x y z : D) → le x y → le y z → le x z
  pub lower_le : (x y : D) → le (a.lower x y) y
  pub upper_le : (x y z : D) → le x z → le y z → le (a.upper x y) z
  pub zero_le : (n : ℕ) → le a.zero (a.of_ms n)
  pub refl_le : (x : D) → le x x
  pub cut_le : (x y : D) → le x y → a.to_ms x ≤ a.to_ms y
  pub cut_of_ms : (n : ℕ) → a.to_ms (a.of_ms n) ≡ n
  -- `base * (1.0 + x)` grows with both, and is not negative for a draw not below -1.
  pub spread_le : (x y s j : D) → le x y → le s j → le (a.spread x s) (a.spread y j)
  pub spread_zero : (n : ℕ) (j : D) → a.is_positive j ≡ true → le a.zero (a.spread (a.of_ms n) j)

module _ {D : Type 0} {a : Arithmetic D} {le : D → D → Type 0} (o : IsOrdered a le) where
  -- The longest delay of an exponential backoff.
  abbrev pub longest : ExponentialBackoff D → ℕ
  longest b =
      if a.is_positive b.jitter_factor
      then a.to_ms (a.spread (a.of_ms b.max_delay) b.jitter_factor)
      else b.max_delay

  jittered_le :
      (b : ExponentialBackoff D) (x : D)
      → le x b.jitter_factor
      → a.to_ms (jittered_ms a b x) ≤ longest b
  unfolding jittered_ms
  jittered_le b x h =
      let grown = a.times (a.of_ms b.initial_delay) (a.power b.multiplier b.attempt) in
      let cap = a.of_ms b.max_delay in
      let base = a.lower grown cap in
      elim (Bool-cases (a.is_positive b.jitter_factor)) [
        | inl pos ↦
            rw (pos, jittered_ms)
              (o.cut_le _ _ (
                o.upper_le _ _ _ (o.spread_zero b.max_delay b.jitter_factor pos)
                  (o.spread_le base cap x b.jitter_factor (o.lower_le grown cap) h)))
        | inr none_left ↦
            let bound =
              o.cut_le (a.upper a.zero base) cap
                (o.upper_le a.zero base cap (o.zero_le b.max_delay) (o.lower_le grown cap)) in
            rw (none_left, jittered_ms)
              (subst (λ n. a.to_ms (a.upper a.zero base) ≤ n) (o.cut_of_ms b.max_delay) bound)
      ]

  -- A delay of an exponential backoff is the largest delay once the attempts are used up, and never
  -- longer than the largest delay, spread by the largest draw where there is jitter; the draw is taken
  -- not to exceed the jitter factor.
  pub next_delay-longest :
      (b : ExponentialBackoff D) (x : D)
      → le x b.jitter_factor
      → let delay = (next_delay a (exponential b) x).1 in
        (ltb 0 b.max_attempts && leb b.max_attempts b.attempt ≡ true → delay ≡ b.max_delay)
        × (ltb 0 b.max_attempts && leb b.max_attempts b.attempt ≡ false → delay ≤ longest b)
  unfolding next_delay
  next_delay-longest b x h = ground (arith, jittered_le b x h)
