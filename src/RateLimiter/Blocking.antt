-- ===== src/RateLimiter/Blocking.antt =====
-- When a blocking request returns.
use kraken_sdk.Common.{
  ℕ, ◌+◌, ◌-◌, ◌*◌, ◌/◌, ◌≤◌, ◌<◌, ◌≡◌, ◌≢◌, refl, true, false, none, List, [], ◌∷◌, arith, inl,
  inr, ◌⊎◌,
}
use kraken_sdk.RateLimiter.{
  TokenArithmetic, RateLimiter, Round, size_t, refill_tokens, wait_time, block, acquire_blocking,
}

-- Some round comes to the check of the timeout when the time is up.
abbrev pub Expires : ℕ → ℕ → List Round → Type 0
Expires start timeout [] = ⊥
Expires start timeout (r ∷ rs) =
    (start + timeout * 1000000 ≤ r.check_now) ⊎ Expires start timeout rs

module _ {D : Type 0} (a : TokenArithmetic D) where
  block_returns :
      (l : RateLimiter D) (start timeout : ℕ) (rs : List Round)
      → 0 < timeout
      → Expires start timeout rs
      → (block a l start timeout rs).result ≢ none
  unfolding block
  block_returns l start timeout [] pos e = absurd e
  block_returns l start timeout (r ∷ rs) pos (inl up) = ground arith
  block_returns l start timeout (r ∷ rs) pos (inr later) =
      let l'' = (wait_time a (refill_tokens a l r.refill_now) r.wait_now).0 in
      ground (arith, block_returns l'' start timeout rs pos later)

  -- With a positive timeout a blocking request returns, at the latest in the first round that comes to
  -- its check when the time is up; whatever the rate and the tokens.
  pub acquire_blocking_returns :
      (l : RateLimiter D) (timeout start : ℕ) (rs : List Round)
      → 0 < timeout
      → Expires start timeout rs
      → (acquire_blocking a l timeout start rs).result ≢ none
  unfolding acquire_blocking
  acquire_blocking_returns l timeout start rs pos e =
      let c = record l { total_requests = size_t (l.total_requests + 1) } in
      ground (arith, block_returns c start timeout rs pos e)

  -- A limiter whose rate is not positive gains nothing.
  abbrev pub Stuck : RateLimiter D → Type 0
  Stuck l = (a.has_token l.tokens ≡ false) × (a.is_positive l.refill_rate ≡ false)

  -- What is used of the arithmetic: a rate that is not positive adds no token.
  abbrev pub GainsNothing : Type 0
  GainsNothing =
      (x y rate : D) (ms : ℕ)
      → a.has_token x ≡ false
      → a.is_positive rate ≡ false
      → a.has_token (a.lower y (a.plus x (a.gained rate ms))) ≡ false

  refill_tokens-Stuck :
      (l : RateLimiter D) (now : ℕ) → GainsNothing → Stuck l → Stuck (refill_tokens a l now)
  unfolding refill_tokens
  refill_tokens-Stuck l now g s = ground (
    arith,
    g l.tokens (a.of_size l.max_tokens) l.refill_rate ((now - l.last_refill) / 1000000) s.0 s.1,
  )

  wait_time-Stuck :
      (l : RateLimiter D) (now : ℕ) → GainsNothing → Stuck l → Stuck (wait_time a l now).0
  unfolding wait_time
  wait_time-Stuck l now g s = ground (arith, refill_tokens-Stuck l now g s)

  block_waits :
      (l : RateLimiter D) (start : ℕ) (rs : List Round)
      → GainsNothing
      → Stuck l
      → (block a l start 0 rs).result ≡ none
  unfolding block
  block_waits l start [] g s = refl
  block_waits l start (r ∷ rs) g s =
      let l' = refill_tokens a l r.refill_now in
      let kept = refill_tokens-Stuck l r.refill_now g s in
      let l'' = (wait_time a l' r.wait_now).0 in
      ground (arith, kept, block_waits l'' start rs g (wait_time-Stuck l' r.wait_now g kept))

  -- Without a timeout a blocking request to an enabled limiter without tokens, whose rate is not
  -- positive, never returns, however long it waits; where what such a rate adds leaves the tokens
  -- short of one.
  pub acquire_blocking_never :
      (l : RateLimiter D) (start : ℕ) (rs : List Round)
      → GainsNothing
      → l.enabled ≡ true
      → Stuck l
      → (acquire_blocking a l 0 start rs).result ≡ none
  unfolding acquire_blocking
  acquire_blocking_never l start rs g e s =
      let c = record l { total_requests = size_t (l.total_requests + 1) } in
      ground (arith, block_waits c start rs g s)
