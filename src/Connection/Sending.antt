-- ===== src/Connection/Sending.antt =====
-- What a connection sends and receives: src/connection/connection.cpp.
use kraken_sdk.Common.{
  ℕ, ◌≡◌, ◌≢◌, refl, String, Bool, true, false, Option, none, some, List, [], ◌∷◌, arith, All,
  string_key, ◌&&◌,
}
use kraken_sdk.RateLimiter.{TokenArithmetic, RateLimiter, Round, acquire_blocking}
use kraken_sdk.RateLimiter.Blocking.{Expires, acquire_blocking_returns}
use kraken_sdk.Connection.{
  Connection, rate_limit_timeout, send_failed, Sent, written, waiting, send_threw, Read,
  message_read, closed_by_peer, read_error, Received, text, receive_threw, connect, is_open, close,
  write_allowed, receive, write_limited, send,
}

-- The calls, each with the answers of the stream, and with the readings of the clock.
pub data Call : Type 0 where
  connects : Bool → Call
  closes : Call
  sends : Bool → ℕ → List Round → Bool → Call
  receives : Bool → Read → Call

-- What a call gives to the outside: a message written, or a text received.
pub data Effect : Type 0 where
  silent : Effect
  wrote : Effect
  got : String → Effect

abbrev pub effect_of_sent : Sent → Effect
effect_of_sent written = wrote
effect_of_sent _ = silent

abbrev pub effect_of_received : Received → Effect
effect_of_received (text s) = got s
effect_of_received (receive_threw e) = silent

-- No message, and no text but the empty one that says so.
abbrev pub Mute : Effect → Type 0
Mute silent = Unit
Mute wrote = ⊥
Mute (got s) = s ≡ ""

-- A read that gives no message.
abbrev pub NoMessage : Read → Type 0
NoMessage (message_read s) = ⊥
NoMessage closed_by_peer = Unit
NoMessage read_error = Unit

abbrev pub is_connect : Call → Bool
is_connect (connects ok) = true
is_connect _ = false

module _ {D : Type 0} (a : TokenArithmetic D) where
  abbrev pub step : Connection D → Call → Connection D × Effect
  step c (connects ok) = ((connect c ok).0, silent)
  step c closes = ((close c).0, silent)
  step c (sends up start rs write_ok) =
      let (c', sent) = send a c up start rs write_ok in (c', effect_of_sent sent)
  step c (receives up read) =
      let (c', received) = receive c up read in (c', effect_of_received received)

  unfoldable pub effects : Connection D → List Call → List Effect
  effects c [] = []
  effects c (call ∷ calls) = let (c', e) = step c call in e ∷ effects c' calls

  -- What is to be had of a limiter for a message: nothing where there is none, and else a token.
  abbrev pub Granted : Option (RateLimiter D) → ℕ → List Round → Type 0
  Granted none start rs = Unit
  Granted (some l) start rs = (acquire_blocking a l 30000 start rs).result ≡ some true

  -- An open connection, whose stream says so too.
  abbrev pub IsUp : Connection D → Bool → Type 0
  IsUp c up = (c.is_open_flag ≡ true) × (c.has_stream ≡ true) × (up ≡ true)

  -- The outcome of a write, with what it took.
  abbrev pub Outcome :
      Connection D → Option (RateLimiter D) → ℕ → List Round → Bool → Connection D × Sent → Type 0
  Outcome c limiter start rs write_ok (c', written) =
      Granted limiter start rs × (write_ok ≡ true) × (c'.is_open_flag ≡ c.is_open_flag)
  Outcome c limiter start rs write_ok (c', waiting) = ⊥
  Outcome c limiter start rs write_ok (c', send_threw send_failed) =
      Granted limiter start rs × (write_ok ≡ false) × (c'.is_open_flag ≡ false)
  Outcome c limiter start rs write_ok (c', send_threw e) =
      (e ≡ rate_limit_timeout) × (c'.is_open_flag ≡ c.is_open_flag) × (Granted limiter start rs → ⊥)

  true_not_false :
      (l : RateLimiter D) (start : ℕ) (rs : List Round)
      → (acquire_blocking a l 30000 start rs).result ≡ some true
      → (acquire_blocking a l 30000 start rs).result ≡ some false
      → ⊥
  true_not_false l start rs h k = ground arith

  write_allowed-Outcome :
      (c c' : Connection D) (l : RateLimiter D) (start : ℕ) (rs : List Round) (write_ok : Bool)
      (result : Option Bool)
      → c'.is_open_flag ≡ c.is_open_flag
      → result ≢ none
      → (acquire_blocking a l 30000 start rs).result ≡ result
      → Outcome c (some l) start rs write_ok (write_allowed c' result write_ok)
  write_allowed-Outcome c c' l start rs write_ok none same n e = absurd (n refl)
  write_allowed-Outcome c c' l start rs write_ok (some false) same n e =
      (refl, same, λ h. true_not_false l start rs h e)
  write_allowed-Outcome c c' l start rs true (some true) same n e = (e, refl, same)
  write_allowed-Outcome c c' l start rs false (some true) same n e = (e, refl, refl)

  write_limited-Outcome :
      (c : Connection D) (limiter : Option (RateLimiter D)) (start : ℕ) (rs : List Round)
      (write_ok : Bool)
      → Expires start 30000 rs
      → Outcome c limiter start rs write_ok (write_limited a c limiter start rs write_ok)
  write_limited-Outcome c none start rs true h = (tt, refl, refl)
  write_limited-Outcome c none start rs false h = (tt, refl, refl)
  write_limited-Outcome c (some l) start rs write_ok h =
      let b = acquire_blocking a l 30000 start rs in
      write_allowed-Outcome c (record c { rate_limiter = some b.limiter }) l start rs write_ok
        b.result refl (acquire_blocking_returns a l 30000 start rs (omega arith) h) refl

  -- A call of `send` on an open connection returns within the 30 seconds that it allows the limiter.
  -- It writes the message only with a token, where there is a limiter; a write that fails closes the
  -- connection; and it gives up without a token only, which leaves the connection open.
  pub send-Outcome :
      (c : Connection D) (up : Bool) (start : ℕ) (rs : List Round) (write_ok : Bool)
      → is_open c up ≡ true
      → Expires start 30000 rs
      → Outcome c c.rate_limiter start rs write_ok (send a c up start rs write_ok)
  unfolding send
  send-Outcome c up start rs write_ok opened h =
      rw opened (write_limited-Outcome c c.rate_limiter start rs write_ok h)

  -- A call that ends an open connection: a close, a message that got its token and could not be
  -- written, or a read that failed or found the other side gone.
  abbrev pub Ends : Connection D → Call → Type 0
  Ends c (connects ok) = ⊥
  Ends c closes = Unit
  Ends c (sends up start rs write_ok) =
      IsUp c up × Granted c.rate_limiter start rs × (write_ok ≡ false)
  Ends c (receives up read) = IsUp c up × NoMessage read

  -- Without a stream, or with the flag down.
  abbrev Down : Connection D → Type 0
  Down c = (c.is_open_flag && c.has_stream) ≡ false

  write_limited-Down :
      (c : Connection D) (limiter : Option (RateLimiter D)) (start : ℕ) (rs : List Round)
      (write_ok : Bool)
      → Granted limiter start rs
      → write_ok ≡ false
      → Down (write_limited a c limiter start rs write_ok).0
  write_limited-Down c limiter start rs true granted fails = ground arith
  write_limited-Down c none start rs false granted fails = refl
  write_limited-Down c (some l) start rs false granted fails = rw granted refl

  IsUp-is_open : (c : Connection D) (up : Bool) → IsUp c up → is_open c up ≡ true
  unfolding is_open
  IsUp-is_open c up (flag, stream, answers) = rw (flag, stream, answers) refl

  step-Down : (c : Connection D) (call : Call) → Ends c call → Down (step c call).0
  unfolding close send receive
  step-Down c (connects ok) h = absurd h
  step-Down c closes h = ground arith
  step-Down c (sends up start rs write_ok) (h, granted, fails) =
      rw (IsUp-is_open c up h) (write_limited-Down c c.rate_limiter start rs write_ok granted fails)
  step-Down c (receives up (message_read s)) (h, message) = absurd message
  step-Down c (receives up closed_by_peer) (h, failed) = rw (IsUp-is_open c up h) refl
  step-Down c (receives up read_error) (h, failed) = rw (IsUp-is_open c up h) refl

  is_open-Down : (c : Connection D) (up : Bool) → Down c → is_open c up ≡ false
  unfolding is_open
  is_open-Down c up h = ground arith

  step-Mute :
      (c : Connection D) (call : Call)
      → Down c
      → is_connect call ≡ false
      → Down (step c call).0 × Mute (step c call).1
  unfolding close send receive
  step-Mute c (connects ok) down n = ground arith
  step-Mute c closes down n = (ground arith, tt)
  step-Mute c (sends up start rs write_ok) down n = rw (is_open-Down c up down) (down, tt)
  step-Mute c (receives up read) down n = rw (is_open-Down c up down) (down, refl)

  effects-Down :
      (c : Connection D) (calls : List Call)
      → Down c
      → All (λ call. is_connect call ≡ false) calls
      → All Mute (effects c calls)
  unfolding effects
  effects-Down c [] down h = tt
  effects-Down c (call ∷ calls) down (h, hs) =
      let (still, mute) = step-Mute c call down h in
      (mute, effects-Down (step c call).0 calls still hs)

  -- After a close, after a message that an open connection had a token for and could not write, and
  -- after a read of an open connection that failed or found the other side gone, a connection writes
  -- no message and receives no text, whatever is called, until it connects again.
  pub effects-Mute :
      (c : Connection D) (call : Call) (calls : List Call)
      → Ends c call
      → All (λ next. is_connect next ≡ false) calls
      → All Mute (effects (step c call).0 calls)
  effects-Mute c call calls h hs = effects-Down (step c call).0 calls (step-Down c call h) hs
