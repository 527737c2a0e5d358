-- ===== src/RateLimiter/Burst.antt =====
-- How many requests pass at one time.
use kraken_sdk.Common.{ℕ, suc, ◌-◌, ◌/◌, ◌≡◌, true, ltb, if◌then◌else◌, arith, min, zero}
use kraken_sdk.RateLimiter.{TokenArithmetic, RateLimiter, refill_tokens, acquire}

-- What is used of doubles that are not negative: `whole` is the whole number of tokens.
pub record IsMeasured {D : Type 0} (a : TokenArithmetic D) (whole : D → ℕ) : Type 0 where
  pub has_token_lem : (x : D) → a.has_token x ≡ ltb 0 (whole x)
  pub less_one_lem : (x : D) → a.has_token x ≡ true → whole (a.less_one x) ≡ whole x - 1

module _ {D : Type 0} (a : TokenArithmetic D) where
  -- `n` requests at one time, and how many of them are allowed.
  unfoldable pub burst : RateLimiter D → ℕ → ℕ → RateLimiter D × ℕ
  burst l now zero = (l, 0)
  burst l now (suc n) =
      let (l', allowed) = acquire a l now in
      let (end, count) = burst l' now n in (end, if allowed then suc count else count)

  module _ {whole : D → ℕ} (w : IsMeasured a whole) where
    -- A limiter that is enabled, has a positive rate and was just refilled.
    pub record IsReady (l : RateLimiter D) (now : ℕ) : Type 0 where
      pub enabled : l.enabled ≡ true
      pub refilling : a.is_positive l.refill_rate ≡ true
      pub refilled : (now - l.last_refill) / 1000000 ≡ 0

    acquire-IsReady :
        (l : RateLimiter D) (now : ℕ) → IsReady l now → IsReady (acquire a l now).0 now
    unfolding acquire refill_tokens
    acquire-IsReady l now r = ground (arith, r.enabled, r.refilling, r.refilled)

    acquire-whole :
        (l : RateLimiter D) (now : ℕ)
        → IsReady l now
        → ((acquire a l now).1 ≡ ltb 0 (whole l.tokens))
          × (whole (acquire a l now).0.tokens ≡ whole l.tokens - 1)
    unfolding acquire refill_tokens
    acquire-whole l now r = ground (
      arith,
      r.enabled,
      r.refilling,
      r.refilled,
      w.has_token_lem l.tokens,
      w.less_one_lem l.tokens,
    )

    -- Of `n` requests at one time, to an enabled limiter with a positive rate and less than a
    -- millisecond after its last refill, just as many are allowed as there are whole tokens, or all of
    -- them if these are fewer; each takes one token.
    pub burst-whole :
        (l : RateLimiter D) (now n : ℕ)
        → IsReady l now
        → ((burst l now n).1 ≡ min n (whole l.tokens))
          × (whole (burst l now n).0.tokens ≡ whole l.tokens - n)
    unfolding burst
    burst-whole l now zero r = omega arith
    burst-whole l now (suc n) r = ground (
      arith,
      acquire-whole l now r,
      burst-whole (acquire a l now).0 now n (acquire-IsReady l now r),
    )
