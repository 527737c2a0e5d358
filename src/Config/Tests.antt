-- ===== src/Config/Tests.antt =====
-- Concrete configurations; whole numbers stand for doubles, which no text is.
use kraken_sdk.Common.{
  ℕ, ◌+◌, ◌-◌, ◌*◌, ◌/◌, ◌≡◌, refl, String, true, false, ltb, leb, if◌then◌else◌, Option, none,
  some, [], ◌∷◌, lookup, string_key, ◌==◌, min,
}
use kraken_sdk.Common.Int.{pos}
use kraken_sdk.Common.Texts.{codes, lower, begins_with}
use kraken_sdk.Backoff.Presets.{Factors}
use kraken_sdk.RateLimiter.{TokenArithmetic}
use kraken_sdk.Config.{
  ClientConfig, Builder, rejected, bad_url_scheme, config_builder, url, queue_capacity,
  offline_mode, build, use_queue, backoff, security, validate_checksums, gap_detection,
  gap_tolerance, telemetry, connection_timeouts, rate_limiting, api_key, api_secret,
}
use kraken_sdk.Config.Building.{Judged, build-Judged}
use kraken_sdk.Config.Environment.{
  Numbers, FromEnv, env_error, from_env, key_required, get_env, get_env_bool, get_env_int,
  get_env_size_t, get_env_double, is_true_text, config_from_env, env_credentials, env_queue,
  env_backoff, env_integrity, env_telemetry, env_timeouts, env_security, env_rate_limiting,
  env_settings,
}

abbrev tokens : TokenArithmetic ℕ
tokens = record {
  of_size = λ n. n * 1000;
  zero = 0;
  has_token = λ x. leb 1000 x;
  is_positive = λ x. ltb 0 x;
  plus = λ x y. x + y;
  less_one = λ x. x - 1000;
  lower = λ x y. if leb x y then x else y;
  gained = λ rate ms. rate * ms / 1000;
  wait_ms = λ tokens rate. (1000 - tokens) * 1000 / rate;
}

abbrev tenths : Factors ℕ
tenths = record {
  one_tenth = 1;
  one_fifth = 2;
  three_tenths = 3;
  one_half_more = 15;
  two = 20;
  clamp = min 10;
}

abbrev one_number : Numbers ℕ
one_number = record {
  stoi = λ s. if s == "70000" then some (pos 70000) else none;
  stoull = λ s. if s == "0" then some 0 else none;
  stod = λ s. none;
  ten = 100;
}

abbrev shell : String → Option String
shell name = lookup name (
    ("ENABLE_GAP_DETECTION", "Yes")
    ∷ ("GAP_TOLERANCE", "70000")
    ∷ ("RATE_LIMIT_ENABLED", "on")
    ∷ ("TLS_VERIFY_PEER", "no")
    ∷ [])

abbrev half_shell : String → Option String
half_shell name = lookup name (("TLS_CLIENT_CERT_PATH", "/etc/client.pem") ∷ [])

abbrev replayed : Builder ℕ
replayed = offline_mode true (url "WS://localhost" config_builder)

capitals_refused : build tenths replayed ≡ rejected bad_url_scheme
unfolding build offline_mode url config_builder codes begins_with
capitals_refused = refl

key_missing : config_from_env half_shell one_number tokens tenths 0 ≡ env_error key_required
unfolding config_from_env get_env env_security lookup
key_missing = refl

is_true : (is_true_text "YES" ≡ true) × (is_true_text "on" ≡ true) × (is_true_text "enable" ≡ false)
unfolding is_true_text codes lower
is_true = (refl, refl, refl)

build-Judged_example : Judged tenths replayed (build tenths replayed)
build-Judged_example = build-Judged tenths replayed

config_of : FromEnv ℕ → ClientConfig ℕ
config_of (env_error e) = config_builder.config
config_of (from_env c) = c

abbrev shell_config : ClientConfig ℕ
shell_config = config_of (config_from_env shell one_number tokens tenths 0)

shell_gives : config_from_env shell one_number tokens tenths 0 ≡ from_env shell_config
unfolding config_of config_from_env get_env env_security lookup build env_rate_limiting env_settings
    security env_credentials env_queue env_backoff env_integrity env_telemetry env_timeouts
    get_env_bool is_true_text codes lower begins_with get_env_int get_env_size_t get_env_double url
    queue_capacity use_queue backoff validate_checksums gap_detection gap_tolerance telemetry
    connection_timeouts rate_limiting api_key api_secret config_builder
shell_gives = refl

telemetry_unset : get_env_bool shell "ENABLE_TELEMETRY" false ≡ false
unfolding get_env_bool lookup
telemetry_unset = refl
