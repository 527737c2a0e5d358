-- ===== src/Connection.antt =====
-- The connection: src/connection/connection.cpp, src/internal/connection.hpp and
-- include/kraken/connection/connection_config.hpp.
--
-- The stream is Boost.Beast's; what it answers is an argument of each call. `F` stands for the reads of
-- the clock and the arithmetic of the rate limiter, which the connection shares with the configuration.
pub mod Address
pub mod Split
pub mod Roundtrip
pub mod Explanation
pub mod Sending
mod Tests
use kraken_sdk.Common.{
  ℕ, ◌+◌, ◌≡◌, String, Bool, true, false, not, ◌&&◌, ltb, if◌then◌else◌, Option, none, some, List,
  [], ◌∷◌, ◌++◌, string_key, ◌==◌,
}
use kraken_sdk.Common.Int.{ℤ, pos, negsuc}
use kraken_sdk.Common.Texts.{codes}
use kraken_sdk.RateLimiter.{TokenArithmetic, RateLimiter, Round, Blocked, acquire_blocking}
use kraken_sdk.Connection.Address.{Url, UrlError, Parsed, refused, parsed, parse_url}

-- Durations in milliseconds, the last two in seconds; any of them may be negative.
pub record ConnectionTimeouts : Type 0 where
  pub connect_timeout : ℤ
  pub read_timeout : ℤ
  pub write_timeout : ℤ
  pub ping_interval : ℤ
  pub pong_timeout : ℤ

abbrev pub default_timeouts : ConnectionTimeouts
default_timeouts = record {
  connect_timeout = pos 10000;
  read_timeout = pos 30000;
  write_timeout = pos 10000;
  ping_interval = pos 30;
  pong_timeout = pos 10;
}

pub record SecurityConfig : Type 0 where
  pub verify_peer : Bool
  pub ca_cert_path : String
  pub client_cert_path : String
  pub client_key_path : String
  pub cipher_suites : String
  pub allow_insecure : Bool

abbrev pub default_security : SecurityConfig
default_security = record {
  verify_peer = true;
  ca_cert_path = "";
  client_cert_path = "";
  client_key_path = "";
  cipher_suites = "";
  allow_insecure = false;
}

-- What the constructor sets on the TLS context; `none` stands for what is not set, which for the
-- authorities is the paths of the system.
pub record TlsContext : Type 0 where
  pub verify_peer : Bool
  pub authorities : Option String
  pub client_certificate : Option (String × String)
  pub ciphers : Option String

abbrev pub unless_empty : String → Option String
unless_empty s = if s == "" then none else some s

unfoldable pub tls_context : SecurityConfig → TlsContext
tls_context s = record {
  verify_peer = s.verify_peer;
  authorities = unless_empty s.ca_cert_path;
  client_certificate =
      if not (s.client_cert_path == "") && not (s.client_key_path == "")
      then some (s.client_cert_path, s.client_key_path)
      else none;
  ciphers = unless_empty s.cipher_suites;
}

-- `has_stream` says whether `ws_` is not null.
pub record Connection (D : Type 0) : Type 0 where
  pub url : Url
  pub timeouts : ConnectionTimeouts
  pub tls : TlsContext
  pub rate_limiter : Option (RateLimiter D)
  pub has_stream : Bool
  pub is_open_flag : Bool

-- The exceptions of `connect`, `send` and `receive`, all `ConnectionError`.
pub data ConnectionError : Type 0 where
  connection_failed not_connected rate_limit_timeout send_failed receive_failed : ConnectionError

pub data Constructed (D : Type 0) : Type 0 where
  invalid_url : UrlError → Constructed D
  constructed : Connection D → Constructed D

-- `waiting` is a call that still waits for a token when its rounds have run out.
pub data Sent : Type 0 where
  written waiting : Sent
  send_threw : ConnectionError → Sent

-- What the read of the stream gives.
pub data Read : Type 0 where
  message_read : String → Read
  closed_by_peer read_error : Read

pub data Received : Type 0 where
  text : String → Received
  receive_threw : ConnectionError → Received

abbrev pub positive_or : ℕ → ℤ → ℕ
positive_or default (pos n) = if ltb 0 n then n else default
positive_or default (negsuc n) = default

module _ {D : Type 0} where
  abbrev pub construct_from :
      Parsed → ConnectionTimeouts → SecurityConfig → Option (RateLimiter D) → Constructed D
  construct_from (refused e) timeouts security limiter = invalid_url e
  construct_from (parsed u) timeouts security limiter = constructed (record {
    url = u;
    timeouts = timeouts;
    tls = tls_context security;
    rate_limiter = limiter;
    has_stream = false;
    is_open_flag = false;
  })

  -- The constructor; the files of certificates are taken to load.
  unfoldable pub connection :
      String → ConnectionTimeouts → SecurityConfig → Option (RateLimiter D) → Constructed D
  connection url timeouts security limiter =
      construct_from (parse_url (codes url)) timeouts security limiter

  -- How long `connect` waits for the TCP connection, in milliseconds.
  unfoldable pub tcp_timeout : Connection D → ℕ
  tcp_timeout c = positive_or 10000 c.timeouts.connect_timeout

  -- The header `Host` of the handshake.
  unfoldable pub host_header : Connection D → List ℕ
  host_header c = c.url.host ++ codes ":80"

  -- `ok` says whether all of the resolver, the TCP connection in its time, the TLS handshake and the
  -- WebSocket handshake succeed.
  unfoldable pub connect : Connection D → Bool → Connection D × Option ConnectionError
  connect c ok =
      if ok
      then (record c { has_stream = true; is_open_flag = true }, none)
      else (record c { has_stream = true }, some connection_failed)

  -- With the answer of the stream's own `is_open`.
  unfoldable pub is_open : Connection D → Bool → Bool
  is_open c up = c.is_open_flag && (c.has_stream && up)

  -- The result says whether the socket is closed by this call.
  unfoldable pub close : Connection D → Connection D × Bool
  close c =
      if not c.has_stream then (c, false) else (record c { is_open_flag = false }, c.is_open_flag)

  abbrev pub write : Connection D → Bool → Connection D × Sent
  write c write_ok =
      if write_ok then (c, written) else (record c { is_open_flag = false }, send_threw send_failed)

  -- By the result of `acquire_blocking`.
  abbrev pub write_allowed : Connection D → Option Bool → Bool → Connection D × Sent
  write_allowed c none write_ok = (c, waiting)
  write_allowed c (some false) write_ok = (c, send_threw rate_limit_timeout)
  write_allowed c (some true) write_ok = write c write_ok

  unfoldable pub receive : Connection D → Bool → Read → Connection D × Received
  receive c up read =
      let c' = record c { is_open_flag = false } in
      if not (is_open c up) then (c, text "") else elim read [
        | message_read s ↦ (c, text s)
        | closed_by_peer ↦ (c', text "")
        | read_error ↦ (c', receive_threw receive_failed)
      ]

module _ {D : Type 0} (a : TokenArithmetic D) where
  abbrev pub write_limited :
      Connection D → Option (RateLimiter D) → ℕ → List Round → Bool → Connection D × Sent
  write_limited c none start rs write_ok = write c write_ok
  write_limited c (some l) start rs write_ok =
      let b = acquire_blocking a l 30000 start rs in
      write_allowed (record c { rate_limiter = some b.limiter }) b.result write_ok

  unfoldable pub send : Connection D → Bool → ℕ → List Round → Bool → Connection D × Sent
  send c up start rs write_ok =
      if not (is_open c up)
      then (c, send_threw not_connected)
      else write_limited c c.rate_limiter start rs write_ok
