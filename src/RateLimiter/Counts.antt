-- ===== src/RateLimiter/Counts.antt =====
-- The counters, and the bound on the tokens, under any calls.
use kraken_sdk.Common.{
  ℕ, ◌+◌, ◌-◌, ◌/◌, ◌≡◌, refl, Bool, ltb, Option, none, some, List, [], ◌∷◌, arith, Bool-cases, inl,
  inr,
}
use kraken_sdk.RateLimiter.{
  TokenArithmetic, RateLimiter, Round, size_t, rate_limiter, refill_tokens, acquire, wait_time,
  block, acquire_blocking, reset, get_stats, set_enabled,
}

pub data Call : Type 0 where
  acquires : ℕ → Call
  blocks : ℕ → ℕ → List Round → Call
  waits : ℕ → Call
  reads : ℕ → Call
  resets : ℕ → Call
  enables : Bool → Call

-- What is used of the order of doubles, none of them a NaN.
pub record IsOrdered {D : Type 0} (a : TokenArithmetic D) (le : D → D → Type 0) : Type 0 where
  pub trans : (x y z : D) → le x y → le y z → le x z
  pub refl_le : (x : D) → le x x
  pub lower_left : (x y : D) → le (a.lower x y) x
  pub lower_right : (x y : D) → le (a.lower x y) y
  pub less_one_le : (x : D) → le (a.less_one x) x
  pub zero_le : (n : ℕ) → le a.zero (a.of_size n)

module _ {D : Type 0} (a : TokenArithmetic D) where
  abbrev pub step : RateLimiter D → Call → RateLimiter D
  step l (acquires now) = (acquire a l now).0
  step l (blocks timeout start rs) = (acquire_blocking a l timeout start rs).limiter
  step l (waits now) = (wait_time a l now).0
  step l (reads now) = (get_stats a l now).0
  step l (resets now) = reset a l now
  step l (enables b) = set_enabled l b

  unfoldable pub run : RateLimiter D → List Call → RateLimiter D
  run l [] = l
  run l (c ∷ cs) = run (step l c) cs

  -- The blocking calls that still wait when their rounds run out.
  abbrev pub unanswered : Option Bool → ℕ
  unanswered none = 1
  unanswered (some b) = 0

  abbrev pub open_calls : RateLimiter D → List Call → ℕ
  open_calls l [] = 0
  open_calls l (blocks timeout start rs ∷ cs) =
      unanswered (acquire_blocking a l timeout start rs).result
      + open_calls (step l (blocks timeout start rs)) cs
  open_calls l (c ∷ cs) = open_calls (step l c) cs

  -- What a call leaves of the counters: `n` requests more are answered.
  abbrev Answers : ℕ → RateLimiter D → RateLimiter D → Type 0
  Answers n l l' =
      (size_t (l'.allowed_requests + l'.rate_limited)
        ≡ size_t (l.allowed_requests + l.rate_limited + n))
      × (l'.total_requests ≡ l.total_requests)

  refill_tokens-Answers : (l : RateLimiter D) (now : ℕ) → Answers 0 l (refill_tokens a l now)
  unfolding refill_tokens
  refill_tokens-Answers l now = ground arith

  wait_time-Answers : (l : RateLimiter D) (now : ℕ) → Answers 0 l (wait_time a l now).0
  unfolding wait_time
  wait_time-Answers l now = ground (arith, refill_tokens-Answers l now)

  block-Answers :
      (l : RateLimiter D) (start timeout : ℕ) (rs : List Round)
      → let b = block a l start timeout rs in
        (size_t (b.limiter.allowed_requests + b.limiter.rate_limited + unanswered b.result)
          ≡ size_t (l.allowed_requests + l.rate_limited + 1))
        × (b.limiter.total_requests ≡ l.total_requests)
  unfolding block
  block-Answers l start timeout [] = (refl, refl)
  block-Answers l start timeout (r ∷ rs) =
      let l' = refill_tokens a l r.refill_now in
      let l'' = (wait_time a l' r.wait_now).0 in
      ground (
        arith,
        refill_tokens-Answers l r.refill_now,
        wait_time-Answers l' r.wait_now,
        block-Answers l'' start timeout rs,
      )

  -- Every request is answered, or still waits; the counters wrap around.
  abbrev pub IsCounted : RateLimiter D → ℕ → Type 0
  IsCounted l waiting =
      size_t l.total_requests ≡ size_t (l.allowed_requests + l.rate_limited + waiting)

  acquire-IsCounted :
      (l : RateLimiter D) (now n : ℕ) → IsCounted l n → IsCounted (acquire a l now).0 n
  unfolding acquire
  acquire-IsCounted l now n h = ground (
    arith,
    refill_tokens-Answers (record l { total_requests = size_t (l.total_requests + 1) }) now,
  )

  acquire_blocking-IsCounted :
      (l : RateLimiter D) (timeout start : ℕ) (rs : List Round) (n : ℕ)
      → IsCounted l n
      → let b = acquire_blocking a l timeout start rs in
        IsCounted b.limiter (n + unanswered b.result)
  unfolding acquire_blocking
  acquire_blocking-IsCounted l timeout start rs n h = ground (
    arith,
    block-Answers (record l { total_requests = size_t (l.total_requests + 1) }) start timeout rs,
  )

  -- Under any calls, the requests counted are those allowed, those refused, and those of the blocking
  -- calls that still wait when their rounds run out; up to the wrap-around of the counters, and if it
  -- was so before.
  pub run-IsCounted :
      (l : RateLimiter D) (cs : List Call) (n : ℕ)
      → IsCounted l n
      → IsCounted (run l cs) (n + open_calls l cs)
  unfolding run set_enabled reset get_stats
  run-IsCounted l [] n h = omega (arith, h)
  run-IsCounted l (acquires now ∷ cs) n h =
      run-IsCounted (step l (acquires now)) cs n (acquire-IsCounted l now n h)
  run-IsCounted l (blocks timeout start rs ∷ cs) n h =
      let b = acquire_blocking a l timeout start rs in
      omega (
        arith,
        run-IsCounted b.limiter cs (n + unanswered b.result)
            (acquire_blocking-IsCounted l timeout start rs n h),
      )
  run-IsCounted l (waits now ∷ cs) n h =
      run-IsCounted (step l (waits now)) cs n (omega (arith, h, wait_time-Answers l now))
  run-IsCounted l (reads now ∷ cs) n h =
      run-IsCounted (step l (reads now)) cs n (omega (arith, h, refill_tokens-Answers l now))
  run-IsCounted l (resets now ∷ cs) n h = run-IsCounted (step l (resets now)) cs n h
  run-IsCounted l (enables b ∷ cs) n h = run-IsCounted (step l (enables b)) cs n h

  module _ {le : D → D → Type 0} (o : IsOrdered a le) where
    -- No more tokens than the burst.
    abbrev pub IsFull : RateLimiter D → Type 0
    IsFull l = le l.tokens (a.of_size l.max_tokens)

    refill_tokens-IsFull : (l : RateLimiter D) (now : ℕ) → IsFull l → IsFull (refill_tokens a l now)
    unfolding refill_tokens
    refill_tokens-IsFull l now h = elim (Bool-cases (ltb 0 ((now - l.last_refill) / 1000000))) [
      | inl later ↦ rw later (o.lower_left _ _)
      | inr soon ↦ rw soon h
    ]

    take_token-IsFull :
        (l : RateLimiter D) → IsFull l → le (a.less_one l.tokens) (a.of_size l.max_tokens)
    take_token-IsFull l h = o.trans _ _ _ (o.less_one_le l.tokens) h

    acquire-IsFull : (l : RateLimiter D) (now : ℕ) → IsFull l → IsFull (acquire a l now).0
    unfolding acquire
    acquire-IsFull l now h =
        let c = record l { total_requests = size_t (l.total_requests + 1) } in
        let kept = refill_tokens-IsFull c now h in
        ground (arith, kept, take_token-IsFull (refill_tokens a c now) kept, h)

    wait_time-IsFull : (l : RateLimiter D) (now : ℕ) → IsFull l → IsFull (wait_time a l now).0
    unfolding wait_time
    wait_time-IsFull l now h = ground (arith, refill_tokens-IsFull l now h, h)

    block-IsFull :
        (l : RateLimiter D) (start timeout : ℕ) (rs : List Round)
        → IsFull l
        → IsFull (block a l start timeout rs).limiter
    unfolding block
    block-IsFull l start timeout [] h = h
    block-IsFull l start timeout (r ∷ rs) h =
        let l' = refill_tokens a l r.refill_now in
        let kept = refill_tokens-IsFull l r.refill_now h in
        let l'' = (wait_time a l' r.wait_now).0 in
        let rest = block-IsFull l'' start timeout rs (wait_time-IsFull l' r.wait_now kept) in
        ground (arith, kept, take_token-IsFull l' kept, rest)

    acquire_blocking-IsFull :
        (l : RateLimiter D) (timeout start : ℕ) (rs : List Round)
        → IsFull l
        → IsFull (acquire_blocking a l timeout start rs).limiter
    unfolding acquire_blocking
    acquire_blocking-IsFull l timeout start rs h =
        let c = record l { total_requests = size_t (l.total_requests + 1) } in
        ground (arith, block-IsFull c start timeout rs h, h)

    run-IsFull : (l : RateLimiter D) (cs : List Call) → IsFull l → IsFull (run l cs)
    unfolding run set_enabled reset get_stats
    run-IsFull l [] h = h
    run-IsFull l (acquires now ∷ cs) h =
        run-IsFull (step l (acquires now)) cs (acquire-IsFull l now h)
    run-IsFull l (blocks timeout start rs ∷ cs) h =
        run-IsFull (step l (blocks timeout start rs)) cs
          (acquire_blocking-IsFull l timeout start rs h)
    run-IsFull l (waits now ∷ cs) h = run-IsFull (step l (waits now)) cs (wait_time-IsFull l now h)
    run-IsFull l (reads now ∷ cs) h =
        run-IsFull (step l (reads now)) cs (refill_tokens-IsFull l now h)
    run-IsFull l (resets now ∷ cs) h =
        run-IsFull (step l (resets now)) cs (o.refl_le (a.of_size l.max_tokens))
    run-IsFull l (enables b ∷ cs) h = run-IsFull (step l (enables b)) cs h

    rate_limiter-IsFull :
        (rate : D) (burst : ℕ) (enabled : Bool) (now : ℕ)
        → IsFull (rate_limiter a rate burst enabled now)
    unfolding rate_limiter
    rate_limiter-IsFull rate burst enabled now = ground (
      arith,
      o.lower_right a.zero (a.of_size 1),
      o.lower_right (a.of_size burst) (a.of_size 1),
      o.zero_le burst,
      o.refl_le (a.of_size burst),
    )

    -- From its construction on, and under any calls, the limiter holds no more tokens than its burst
    -- capacity, in an arithmetic whose minimum is one for its order.
    pub run-rate_limiter-IsFull :
        (rate : D) (burst : ℕ) (enabled : Bool) (now : ℕ) (cs : List Call)
        → IsFull (run (rate_limiter a rate burst enabled now) cs)
    run-rate_limiter-IsFull rate burst enabled now cs =
        run-IsFull (rate_limiter a rate burst enabled now) cs
          (rate_limiter-IsFull rate burst enabled now)
