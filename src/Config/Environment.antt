-- ===== src/Config/Environment.antt =====
-- The configuration read from the environment: include/kraken/config_env.hpp and
-- src/core/config_env.cpp.
--
-- `std::getenv` is an argument, and so are the readers of numbers of the standard library, with `none`
-- for their exceptions. The start of the logger, which changes no configuration, is left out.
use kraken_sdk.Common.{
  ℕ, suc, ◌-◌, ◌%◌, ◌^◌, String, Bool, true, false, not, ◌&&◌, ◌||◌, if◌then◌else◌, Option, none,
  some, string_key, ◌==◌, map,
}
use kraken_sdk.Common.Int.{ℤ, pos, negsuc}
use kraken_sdk.Common.Texts.{codes, lower}
use kraken_sdk.Backoff.{exponential}
use kraken_sdk.Backoff.Presets.{Factors, set_all, builder, build_backoff}
use kraken_sdk.RateLimiter.{TokenArithmetic}
use kraken_sdk.Connection.{SecurityConfig}
use kraken_sdk.Connection.Address.{same_text}
use kraken_sdk.Config.{
  TelemetryConfig, Builder, BuildError, Built, rejected, built, natural, config_builder, url,
  api_key, api_secret, queue_capacity, validate_checksums, backoff, gap_detection, gap_tolerance,
  telemetry, connection_timeouts, security, use_queue, rate_limiting, build, ClientConfig,
}

-- `std::stoi`, `std::stoull` and `std::stod`, and the constants of type `double` that are defaults here.
pub record Numbers (D : Type 0) : Type 0 where
  pub stoi : String → Option ℤ
  pub stoull : String → Option ℕ
  pub stod : String → Option D
  pub ten : D

-- What `config_from_env` gives: its own exceptions, and those of `build`.
pub data EnvError : Type 0 where
  no_url key_required cert_required : EnvError
  not_built : BuildError → EnvError

pub data FromEnv (D : Type 0) : Type 0 where
  env_error : EnvError → FromEnv D
  from_env : ClientConfig D → FromEnv D

-- `static_cast<uint16_t>` of a signed integer.
abbrev pub cast_u16 : ℤ → ℕ
cast_u16 (pos n) = n % 2 ^ 16
cast_u16 (negsuc n) = (2 ^ 16 - suc (n % 2 ^ 16)) % 2 ^ 16

abbrev pub or_else : {A : Type 0} → Option A → A → A
or_else none default = default
or_else (some a) default = a

abbrev pub parsed_or : {A : Type 0} → Option String → (String → Option A) → A → A
parsed_or none parse default = default
parsed_or (some text) parse default = or_else (parse text) default

unfoldable pub is_true_text : String → Bool
is_true_text s =
    let text = map lower (codes s) in
    same_text text (codes "true")
    || (same_text text (codes "1") || (same_text text (codes "yes") || same_text text (codes "on")))

abbrev pub bool_or : Option String → Bool → Bool
bool_or none default = default
bool_or (some s) default = is_true_text s

module _ (getenv : String → Option String) where
  unfoldable pub get_env : String → String → String
  get_env name default = or_else (getenv name) default

  unfoldable pub get_env_bool : String → Bool → Bool
  get_env_bool name default = bool_or (getenv name) default

  module _ {D : Type 0} (n : Numbers D) where
    unfoldable pub get_env_int : String → ℤ → ℤ
    get_env_int name default = parsed_or (getenv name) n.stoi default

    unfoldable pub get_env_size_t : String → ℕ → ℕ
    get_env_size_t name default = parsed_or (getenv name) n.stoull default

    unfoldable pub get_env_double : String → D → D
    get_env_double name default = parsed_or (getenv name) n.stod default

    -- The parts of `config_from_env`, in their order.
    unfoldable pub env_credentials : Builder D → Builder D
    env_credentials b =
        let key = get_env "KRAKEN_API_KEY" "" in
        let secret = get_env "KRAKEN_API_SECRET" "" in
        if not (key == "") && not (secret == "") then api_secret secret (api_key key b) else b

    unfoldable pub env_queue : Builder D → Builder D
    env_queue b =
        let on = get_env_bool "ENABLE_SPSC_QUEUE" true in
        let b' = use_queue on b in
        if on then queue_capacity (get_env_size_t "SPSC_QUEUE_SIZE" 65536) b' else b'

    unfoldable pub env_backoff : Factors D → Builder D → Builder D
    env_backoff f b =
        backoff
          (some (
            exponential (
              build_backoff f (
                set_all f (natural (get_env_int "WS_CONN_RETRY_DELAY_MS" (pos 1000)))
                  (natural (get_env_int "WS_CONN_RETRY_MAX_DELAY_MS" (pos 30000)))
                  (get_env_double "WS_CONN_RETRY_MULTIPLIER" f.two)
                  (get_env_double "WS_CONN_RETRY_JITTER" f.one_fifth)
                  (natural (get_env_int "WS_CONN_RETRY_TIMES" (pos 10))) (builder f)))))
          b

    unfoldable pub env_integrity : Builder D → Builder D
    env_integrity b =
        let on = get_env_bool "ENABLE_GAP_DETECTION" false in
        let b' = gap_detection on (validate_checksums (get_env_bool "VALIDATE_CHECKSUMS" true) b) in
        if on then gap_tolerance (get_env_int "GAP_TOLERANCE" (pos 0)) b' else b'

    unfoldable pub env_telemetry_config : TelemetryConfig
    env_telemetry_config = record {
      otlp_endpoint = get_env "TELEMETRY_OTLP_ENDPOINT" "http://localhost:4318";
      service_name = get_env "TELEMETRY_SERVICE_NAME" "kraken-sdk";
      service_version = get_env "TELEMETRY_SERVICE_VERSION" "1.0.0";
      environment = get_env "TELEMETRY_ENVIRONMENT" "production";
      enable_metrics = get_env_bool "TELEMETRY_ENABLE_METRICS" true;
      enable_traces = get_env_bool "TELEMETRY_ENABLE_TRACES" false;
      enable_logs = get_env_bool "TELEMETRY_ENABLE_LOGS" false;
      metrics_interval = get_env_int "TELEMETRY_METRICS_INTERVAL_SEC" (pos 15);
      enable_http_server = get_env_bool "TELEMETRY_HTTP_SERVER" false;
      http_server_port = cast_u16 (get_env_int "TELEMETRY_HTTP_PORT" (pos 9090));
      enable_otlp_export = get_env_bool "TELEMETRY_OTLP_EXPORT" false;
      max_export_retries = get_env_int "TELEMETRY_OTLP_RETRIES" (pos 3);
      export_timeout = get_env_int "TELEMETRY_OTLP_TIMEOUT_MS" (pos 5000);
    }

    unfoldable pub env_telemetry : Builder D → Builder D
    env_telemetry b =
        if get_env_bool "ENABLE_TELEMETRY" false then telemetry env_telemetry_config b else b

    unfoldable pub env_timeouts : Builder D → Builder D
    env_timeouts b =
        connection_timeouts
          (record {
            connect_timeout = get_env_int "WS_CONN_TIMEOUT_MS" (pos 10000);
            read_timeout = get_env_int "WS_READ_TIMEOUT_MS" (pos 30000);
            write_timeout = get_env_int "WS_WRITE_TIMEOUT_MS" (pos 10000);
            ping_interval = get_env_int "WS_PING_INTERVAL_SEC" (pos 30);
            pong_timeout = get_env_int "WS_PONG_TIMEOUT_SEC" (pos 10);
          })
          b

    unfoldable pub env_security : SecurityConfig
    env_security = record {
      verify_peer = get_env_bool "TLS_VERIFY_PEER" true;
      ca_cert_path = get_env "TLS_CA_CERT_PATH" "";
      client_cert_path = get_env "TLS_CLIENT_CERT_PATH" "";
      client_key_path = get_env "TLS_CLIENT_KEY_PATH" "";
      cipher_suites = get_env "TLS_CIPHER_SUITES" "";
      allow_insecure = get_env_bool "ALLOW_INSECURE" false;
    }

    unfoldable pub env_rate_limiting : TokenArithmetic D → ℕ → Builder D → Builder D
    env_rate_limiting a now b =
        if get_env_bool "RATE_LIMIT_ENABLED" false
        then rate_limiting a true (get_env_double "RATE_LIMIT_REQUESTS_PER_SEC" n.ten)
            (get_env_size_t "RATE_LIMIT_BURST_SIZE" 20) now b
        else b

    -- Everything up to the security settings, which may throw.
    unfoldable pub env_settings : Factors D → Builder D
    env_settings f = env_timeouts (
        env_telemetry (
          env_integrity (
            env_backoff f (
              env_queue (
                env_credentials
                  (url (get_env "KRAKEN_WS_URL" "wss://ws.kraken.com/v2") config_builder))))))

    abbrev pub of_built : Built D → FromEnv D
    of_built (rejected e) = env_error (not_built e)
    of_built (built c) = from_env c

    unfoldable pub config_from_env : TokenArithmetic D → Factors D → ℕ → FromEnv D
    config_from_env a f now =
        let s = env_security in
        if get_env "KRAKEN_WS_URL" "wss://ws.kraken.com/v2" == ""
        then env_error no_url
        else if not (s.client_cert_path == "") && (s.client_key_path == "")
        then env_error key_required
        else if not (s.client_key_path == "") && (s.client_cert_path == "")
        then env_error cert_required
        else of_built (build f (env_rate_limiting a now (security s (env_settings f))))
