-- ===== src/RateLimiter.antt =====
-- The rate limiter: include/kraken/rate_limiter.hpp and src/rate_limiter.cpp.
--
-- Times are readings of the steady clock in nanoseconds, waits are in milliseconds; the arithmetic on
-- doubles is the record `TokenArithmetic`. The counters are `size_t`, of 64 bits. `acquire_blocking`
-- is a recursion over the rounds of its `while` loop at hand, each with its three readings of the
-- clock; it says when they run out.
pub mod Counts
pub mod Burst
pub mod Blocking
mod Tests
use kraken_sdk.Common.{
  ℕ, suc, ◌+◌, ◌-◌, ◌*◌, ◌/◌, ◌%◌, ◌^◌, ◌≡◌, Bool, true, false, not, ◌&&◌, ltb, leb, nat_beq, min,
  max, if◌then◌else◌, Option, none, some, List, [], ◌∷◌,
}

-- Operations on `double`.
pub record TokenArithmetic (D : Type 0) : Type 0 where
  pub of_size : ℕ → D  -- static_cast<double>
  pub zero : D  -- 0.0
  pub has_token : D → Bool  -- `>= 1.0`
  pub is_positive : D → Bool  -- `> 0.0`
  pub plus : D → D → D
  pub less_one : D → D  -- `- 1.0`
  pub lower : D → D → D  -- std::min
  pub gained : D → ℕ → D  -- `rate * (ms / 1000.0)`
  pub wait_ms : D → D → ℕ  -- `static_cast<int64_t>((1.0 - tokens) / rate * 1000.0)`

-- `size_t`.
abbrev pub size_t : ℕ → ℕ
size_t n = n % 2 ^ 64

pub record RateLimiter (D : Type 0) : Type 0 where
  pub tokens : D
  pub refill_rate : D
  pub max_tokens : ℕ
  pub enabled : Bool
  pub last_refill : ℕ
  pub total_requests : ℕ
  pub allowed_requests : ℕ
  pub rate_limited : ℕ

pub record Stats (D : Type 0) : Type 0 where
  pub total_requests : ℕ
  pub allowed_requests : ℕ
  pub rate_limited : ℕ
  pub current_tokens : D

-- The readings of the clock in one round of `acquire_blocking`: by the refill, by the check of the
-- timeout, and by `wait_time`.
pub record Round : Type 0 where
  pub refill_now : ℕ
  pub check_now : ℕ
  pub wait_now : ℕ

-- How a blocking call stands: its result, and the sleeps it made, in milliseconds.
pub record Blocked (D : Type 0) : Type 0 where
  pub limiter : RateLimiter D
  pub result : Option Bool
  pub sleeps : List ℕ

abbrev pub sleeping : {D : Type 0} → ℕ → Blocked D → Blocked D
sleeping ms b = record b { sleeps = ms ∷ b.sleeps }

module _ {D : Type 0} where
  abbrev pub count_allowed : RateLimiter D → RateLimiter D
  count_allowed l = record l { allowed_requests = size_t (l.allowed_requests + 1) }

  abbrev pub count_limited : RateLimiter D → RateLimiter D
  count_limited l = record l { rate_limited = size_t (l.rate_limited + 1) }

  abbrev pub count_request : RateLimiter D → RateLimiter D
  count_request l = record l { total_requests = size_t (l.total_requests + 1) }

  unfoldable pub set_enabled : RateLimiter D → Bool → RateLimiter D
  set_enabled l enabled = record l { enabled = enabled }

  unfoldable pub is_enabled : RateLimiter D → Bool
  is_enabled l = l.enabled

module _ {D : Type 0} (a : TokenArithmetic D) where
  unfoldable pub rate_limiter : D → ℕ → Bool → ℕ → RateLimiter D
  rate_limiter requests_per_sec burst_size enabled now =
      let stopped = not (a.is_positive requests_per_sec) in
      let tokens = if stopped then a.zero else a.of_size burst_size in
      record {
        tokens = if nat_beq burst_size 0 then a.lower tokens (a.of_size 1) else tokens;
        refill_rate = if stopped then a.zero else requests_per_sec;
        max_tokens = if nat_beq burst_size 0 then 1 else burst_size;
        enabled = if stopped then true else enabled;
        last_refill = now;
        total_requests = 0;
        allowed_requests = 0;
        rate_limited = 0;
      }

  -- Whole milliseconds are counted, and the rest is dropped.
  unfoldable pub refill_tokens : RateLimiter D → ℕ → RateLimiter D
  refill_tokens l now =
      let elapsed = (now - l.last_refill) / 1000000 in
      if ltb 0 elapsed
      then record l {
        tokens =
            a.lower (a.of_size l.max_tokens) (a.plus l.tokens (a.gained l.refill_rate elapsed));
        last_refill = now;
      }
      else l

  abbrev pub take_token : RateLimiter D → RateLimiter D
  take_token l = count_allowed (record l { tokens = a.less_one l.tokens })

  unfoldable pub acquire : RateLimiter D → ℕ → RateLimiter D × Bool
  acquire l now =
      let l' = refill_tokens (count_request l) now in
      if not l.enabled
      then (count_allowed (count_request l), true)
      else if a.has_token l'.tokens && a.is_positive l'.refill_rate
      then (take_token l', true)
      else (count_limited l', false)

  unfoldable pub wait_time : RateLimiter D → ℕ → RateLimiter D × ℕ
  wait_time l now =
      let l' = refill_tokens l now in
      if not l.enabled
      then (l, 0)
      else if a.has_token l'.tokens && a.is_positive l'.refill_rate
      then (l', 0)
      else if not (a.is_positive l'.refill_rate)
      then (l', 1000)
      else (l', max (a.wait_ms l'.tokens l'.refill_rate) 1)

  -- How long a round sleeps after `wait_time`.
  abbrev pub nap : ℕ → ℕ
  nap wait = if ltb 0 wait then min wait 100 else 1

  -- The `while` loop; `timeout` is in milliseconds.
  unfoldable pub block : RateLimiter D → ℕ → ℕ → List Round → Blocked D
  block l start timeout [] = record { limiter = l; result = none; sleeps = [] }
  block l start timeout (r ∷ rs) =
      let l' = refill_tokens l r.refill_now in
      let (l'', wait) = wait_time l' r.wait_now in
      let rest = sleeping (nap wait) (block l'' start timeout rs) in
      if a.has_token l'.tokens
      then record { limiter = take_token l'; result = some true; sleeps = [] }
      else if ltb 0 timeout && leb (timeout * 1000000) (r.check_now - start)
      then record { limiter = count_limited l'; result = some false; sleeps = [] }
      else rest

  unfoldable pub acquire_blocking : RateLimiter D → ℕ → ℕ → List Round → Blocked D
  acquire_blocking l timeout start rs =
      let blocked = block (count_request l) start timeout rs in
      if not l.enabled
      then record { limiter = count_allowed (count_request l); result = some true; sleeps = [] }
      else blocked

  unfoldable pub tokens_now : RateLimiter D → ℕ → RateLimiter D × D
  tokens_now l now =
      let l' = refill_tokens l now in
      if not l.enabled then (l, a.of_size l.max_tokens) else (l', l'.tokens)

  unfoldable pub reset : RateLimiter D → ℕ → RateLimiter D
  reset l now = record l { tokens = a.of_size l.max_tokens; last_refill = now }

  unfoldable pub get_stats : RateLimiter D → ℕ → RateLimiter D × Stats D
  get_stats l now =
      let l' = refill_tokens l now in
      (
        l',
        record {
          total_requests = l.total_requests;
          allowed_requests = l.allowed_requests;
          rate_limited = l.rate_limited;
          current_tokens = l'.tokens;
        },
      )
