-- ===== src/Config.antt =====
-- The configuration of a client: include/kraken/core/config.hpp, src/core/config.cpp and
-- include/kraken/telemetry/config.hpp.
--
-- A builder is its configuration with the fields of the deprecated calls. A callback is whether it is
-- set. `D` stands for `double`. A delay or a number of attempts that is negative stands as 0, as in
-- Backoff; the rate limiter is made by the call that enables it, at a reading of the clock.
pub mod Environment
pub mod Building
pub mod Stages
pub mod Reading
mod Tests
use kraken_sdk.Common.{
  ℕ, ◌≡◌, String, Bool, true, false, not, ◌&&◌, ◌||◌, nat_beq, if◌then◌else◌, Option, none, some,
  string_key, ◌==◌,
}
use kraken_sdk.Common.Int.{ℤ, pos, negsuc}
use kraken_sdk.Common.Texts.{codes, begins_with}
use kraken_sdk.Breaker.{CircuitBreakerConfig}
use kraken_sdk.Breaker as Breaker
use kraken_sdk.Gap as Gap
use kraken_sdk.Backoff.{BackoffStrategy, fixed, exponential}
use kraken_sdk.Backoff as Backoff
use kraken_sdk.Backoff.Presets.{Factors, conservative}
use kraken_sdk.RateLimiter.{TokenArithmetic, RateLimiter, rate_limiter}
use kraken_sdk.Connection.{ConnectionTimeouts, SecurityConfig, default_timeouts, default_security}

pub record TelemetryConfig : Type 0 where
  pub otlp_endpoint : String
  pub service_name : String
  pub service_version : String
  pub environment : String
  pub enable_metrics : Bool
  pub enable_traces : Bool
  pub enable_logs : Bool
  pub metrics_interval : ℤ  -- seconds
  pub enable_http_server : Bool
  pub http_server_port : ℕ  -- uint16_t
  pub enable_otlp_export : Bool
  pub max_export_retries : ℤ
  pub export_timeout : ℤ  -- milliseconds

abbrev pub default_telemetry : TelemetryConfig
default_telemetry = record {
  otlp_endpoint = "http://localhost:4317";
  service_name = "kraken-sdk";
  service_version = "1.0.0";
  environment = "development";
  enable_metrics = true;
  enable_traces = false;
  enable_logs = false;
  metrics_interval = pos 15;
  enable_http_server = false;
  http_server_port = 9090;
  enable_otlp_export = false;
  max_export_retries = pos 3;
  export_timeout = pos 5000;
}

pub record ClientConfig (D : Type 0) : Type 0 where
  pub url : String
  pub api_key : String
  pub api_secret : String
  pub queue_capacity : ℕ
  pub validate_checksums : Bool
  pub use_queue : Bool
  pub offline_mode : Bool
  pub backoff_strategy : Option (BackoffStrategy D)
  pub on_reconnect : Bool
  pub gap_config : Gap.Config
  pub on_gap : Bool
  pub telemetry_config : TelemetryConfig
  pub connection_timeouts : ConnectionTimeouts
  pub security_config : SecurityConfig
  pub rate_limiter : Option (RateLimiter D)
  pub circuit_breaker_config : CircuitBreakerConfig
  pub circuit_breaker_enabled : Bool

pub record Builder (D : Type 0) : Type 0 where
  pub config : ClientConfig D
  pub legacy_attempts : ℤ
  pub legacy_delay : ℤ
  pub legacy_mode : Bool

-- The exceptions of `build`, all `std::invalid_argument`.
pub data BuildError : Type 0 where
  no_queue_capacity empty_url bad_url_scheme : BuildError

pub data Built (D : Type 0) : Type 0 where
  rejected : BuildError → Built D
  built : ClientConfig D → Built D

abbrev pub natural : ℤ → ℕ
natural (pos n) = n
natural (negsuc n) = 0

module _ {D : Type 0} where
  abbrev pub default_client_config : ClientConfig D
  default_client_config = record {
    url = "wss://ws.kraken.com/v2";
    api_key = "";
    api_secret = "";
    queue_capacity = 65536;
    validate_checksums = true;
    use_queue = true;
    offline_mode = false;
    backoff_strategy = none;
    on_reconnect = false;
    gap_config = Gap.default_config;
    on_gap = false;
    telemetry_config = default_telemetry;
    connection_timeouts = default_timeouts;
    security_config = default_security;
    rate_limiter = none;
    circuit_breaker_config = Breaker.default_config;
    circuit_breaker_enabled = true;
  }

  unfoldable pub config_builder : Builder D
  config_builder = record {
    config = default_client_config;
    legacy_attempts = pos 10;
    legacy_delay = pos 1000;
    legacy_mode = false;
  }

  abbrev change : Builder D → ClientConfig D → Builder D
  change b c = record b { config = c }

  unfoldable pub url : String → Builder D → Builder D
  url value b = change b (record b.config { url = value })

  unfoldable pub api_key : String → Builder D → Builder D
  api_key value b = change b (record b.config { api_key = value })

  unfoldable pub api_secret : String → Builder D → Builder D
  api_secret value b = change b (record b.config { api_secret = value })

  unfoldable pub queue_capacity : ℕ → Builder D → Builder D
  queue_capacity value b = change b (record b.config { queue_capacity = value })

  unfoldable pub validate_checksums : Bool → Builder D → Builder D
  validate_checksums value b = change b (record b.config { validate_checksums = value })

  -- Both overloads; a null pointer is `none`.
  unfoldable pub backoff : Option (BackoffStrategy D) → Builder D → Builder D
  backoff value b = change b (record b.config { backoff_strategy = value })

  unfoldable pub on_reconnect : Bool → Builder D → Builder D
  on_reconnect value b = change b (record b.config { on_reconnect = value })

  unfoldable pub gap_detection : Bool → Builder D → Builder D
  gap_detection value b =
      let c = b.config in
      change b (record c { gap_config = record c.gap_config { enabled = value } })

  unfoldable pub gap_tolerance : ℤ → Builder D → Builder D
  gap_tolerance value b =
      let c = b.config in
      change b (record c { gap_config = record c.gap_config { gap_tolerance = value } })

  unfoldable pub on_gap : Bool → Builder D → Builder D
  on_gap value b = change b (record b.config { on_gap = value })

  unfoldable pub telemetry : TelemetryConfig → Builder D → Builder D
  telemetry value b = change b (record b.config { telemetry_config = value })

  unfoldable pub connection_timeouts : ConnectionTimeouts → Builder D → Builder D
  connection_timeouts value b = change b (record b.config { connection_timeouts = value })

  unfoldable pub security : SecurityConfig → Builder D → Builder D
  security value b = change b (record b.config { security_config = value })

  unfoldable pub circuit_breaker_enabled : Bool → Builder D → Builder D
  circuit_breaker_enabled value b = change b (record b.config { circuit_breaker_enabled = value })

  unfoldable pub circuit_breaker_config : CircuitBreakerConfig → Builder D → Builder D
  circuit_breaker_config value b = change b (record b.config { circuit_breaker_config = value })

  unfoldable pub use_queue : Bool → Builder D → Builder D
  use_queue value b = change b (record b.config { use_queue = value })

  unfoldable pub offline_mode : Bool → Builder D → Builder D
  offline_mode value b = change b (record b.config { offline_mode = value })

  unfoldable pub reconnect_attempts : ℤ → Builder D → Builder D
  reconnect_attempts value b = record b { legacy_attempts = value; legacy_mode = true }

  unfoldable pub reconnect_delay : ℤ → Builder D → Builder D
  reconnect_delay value b = record b { legacy_delay = value; legacy_mode = true }

  unfoldable pub is_authenticated : ClientConfig D → Bool
  is_authenticated c = not (c.api_key == "") && not (c.api_secret == "")

  abbrev pub rate_limiting_enabled : Option (RateLimiter D) → Bool
  rate_limiting_enabled none = false
  rate_limiting_enabled (some l) = true

  unfoldable pub rate_limiting : TokenArithmetic D → Bool → D → ℕ → ℕ → Builder D → Builder D
  rate_limiting a on requests_per_sec burst_size now b = change b (record b.config {
    rate_limiter = if on then some (rate_limiter a requests_per_sec burst_size true now) else none;
  })

  -- The strategy that `build` puts where none is set.
  abbrev pub strategy_or : Factors D → Builder D → Option (BackoffStrategy D) → BackoffStrategy D
  strategy_or f b none =
      if b.legacy_mode
      then fixed (record {
        delay = natural b.legacy_delay;
        max_attempts = natural b.legacy_attempts;
        attempt = 0;
      })
      else exponential (conservative f)
  strategy_or f b (some strategy) = strategy

  unfoldable pub build : Factors D → Builder D → Built D
  build f b =
      let c = b.config in
      if nat_beq c.queue_capacity 0
      then rejected no_queue_capacity
      else if c.url == ""
      then rejected empty_url
      else if not (begins_with (codes c.url) (codes "ws://"))
          && not (begins_with (codes c.url) (codes "wss://"))
      then rejected bad_url_scheme
      else built (record c { backoff_strategy = some (strategy_or f b c.backoff_strategy) })

  -- `backoff_strategy()`: a clone of the strategy, or the default.
  unfoldable pub cloned_strategy : Factors D → Option (BackoffStrategy D) → BackoffStrategy D
  cloned_strategy f none = exponential (conservative f)
  cloned_strategy f (some strategy) = Backoff.clone strategy
