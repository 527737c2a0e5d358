-- ===== src/Config/Reading.antt =====
-- What the environment makes of a configuration: src/core/config_env.cpp.
use kraken_sdk.Common.{
  ℕ, ◌<◌, ◌≡◌, ◌≢◌, ◌↔◌, inl, inr, refl, sym, ap, subst, ◌∙◌, String, true, false, not, ◌&&◌,
  Option, some, arith, string_key, ◌==◌, Bool-cases,
}
use kraken_sdk.Common.Int.{pos}
use kraken_sdk.Common.Texts.{codes}
use kraken_sdk.Connection.{ConnectionTimeouts}
use kraken_sdk.Backoff.Presets.{Factors}
use kraken_sdk.RateLimiter.{TokenArithmetic}
use kraken_sdk.Connection.Address.{parse_url}
use kraken_sdk.Config.{
  ClientConfig, TelemetryConfig, default_telemetry, Builder, no_queue_capacity, empty_url,
  bad_url_scheme, Built, rejected, built, strategy_or, build, connection_timeouts, security,
  rate_limiting, rate_limiting_enabled,
}
use kraken_sdk.Config.Building.{Leads, has_scheme, Judged, build-Judged, beq-ne}
use kraken_sdk.Config.Environment.{
  Numbers, no_url, key_required, cert_required, not_built, FromEnv, env_error, from_env, get_env,
  get_env_bool, get_env_int, env_telemetry_config, env_timeouts, env_security, env_rate_limiting,
  env_settings, of_built, config_from_env,
}
use kraken_sdk.Config.Stages.{
  Fresh, telemetry_wanted, capacity_wanted, env_settings-fields, env_settings-capacity,
}

module _ (getenv : String → Option String) {D : Type 0} (n : Numbers D) where
  module _ (a : TokenArithmetic D) (f : Factors D) (now : ℕ) where
    -- The builder that `config_from_env` builds in the end.
    abbrev last_builder : Builder D
    last_builder =
        env_rate_limiting getenv n a now
          (security (env_security getenv n) (env_settings getenv n f))

    last_builder-fields :
        let c = last_builder.config in
        (c.url ≡ get_env getenv "KRAKEN_WS_URL" "wss://ws.kraken.com/v2")
        × Fresh c.backoff_strategy
        × (c.telemetry_config ≡ telemetry_wanted getenv n)
        × (c.security_config ≡ env_security getenv n)
        × (rate_limiting_enabled c.rate_limiter ≡ get_env_bool getenv "RATE_LIMIT_ENABLED" false)
        × (c.queue_capacity ≡ capacity_wanted getenv n)
    unfolding env_rate_limiting rate_limiting security
    last_builder-fields =
        let (at, fresh, wanted, no_limiter) = env_settings-fields getenv n f in
        elim (Bool-cases (get_env_bool getenv "RATE_LIMIT_ENABLED" false)) [
          | inl on ↦ rw on (at, fresh, wanted, refl, refl, env_settings-capacity getenv n f)
          | inr off ↦
              rw (off, no_limiter) (at, fresh, wanted, refl, refl, env_settings-capacity getenv n f)
        ]

    abbrev env_url : String
    env_url = get_env getenv "KRAKEN_WS_URL" "wss://ws.kraken.com/v2"

    -- Without ENABLE_TELEMETRY the telemetry is the default one, whose metrics are on.
    abbrev pub TelemetryRead : TelemetryConfig → Type 0
    TelemetryRead c =
        (get_env_bool getenv "ENABLE_TELEMETRY" false ≡ true
          → (c ≡ env_telemetry_config getenv n)
            × (c.enable_metrics ≡ get_env_bool getenv "TELEMETRY_ENABLE_METRICS" true)
            × (c.enable_http_server ≡ get_env_bool getenv "TELEMETRY_HTTP_SERVER" false)
            × (c.enable_otlp_export ≡ get_env_bool getenv "TELEMETRY_OTLP_EXPORT" false)
            × (c.otlp_endpoint ≡ get_env getenv "TELEMETRY_OTLP_ENDPOINT" "http://localhost:4318"))
        × (get_env_bool getenv "ENABLE_TELEMETRY" false ≡ false
            → (c ≡ default_telemetry) × (c.enable_metrics ≡ true))

    telemetry_wanted-TelemetryRead : TelemetryRead (telemetry_wanted getenv n)
    unfolding telemetry_wanted env_telemetry_config
    telemetry_wanted-TelemetryRead =
        (λ h. rw h (refl, refl, refl, refl, refl), λ h. rw h (refl, refl))

    -- Any number is taken, also one that is not positive.
    abbrev pub TimeoutsRead : ConnectionTimeouts → Type 0
    TimeoutsRead t =
        (t.connect_timeout ≡ get_env_int getenv n "WS_CONN_TIMEOUT_MS" (pos 10000))
        × (t.read_timeout ≡ get_env_int getenv n "WS_READ_TIMEOUT_MS" (pos 30000))
        × (t.write_timeout ≡ get_env_int getenv n "WS_WRITE_TIMEOUT_MS" (pos 10000))

    timeouts_same : (t t' : ConnectionTimeouts) → t' ≡ t → TimeoutsRead t → TimeoutsRead t'
    timeouts_same t t' e h = subst TimeoutsRead (sym e) h

    last_builder-timeouts : TimeoutsRead last_builder.config.connection_timeouts
    unfolding env_rate_limiting rate_limiting security env_settings env_timeouts connection_timeouts
    last_builder-timeouts = elim (Bool-cases (get_env_bool getenv "RATE_LIMIT_ENABLED" false)) [
      | inl on ↦ rw on (refl, refl, refl)
      | inr off ↦ rw off (refl, refl, refl)
    ]

    env_security-allow_insecure :
        (env_security getenv n).allow_insecure ≡ get_env_bool getenv "ALLOW_INSECURE" false
    unfolding env_security
    env_security-allow_insecure = refl

    -- What each result says of the environment.
    abbrev pub Told : FromEnv D → Type 0
    Told (env_error no_url) = env_url ≡ ""
    Told (env_error key_required) =
        ((env_security getenv n).client_cert_path ≢ "")
        × ((env_security getenv n).client_key_path ≡ "")
    Told (env_error cert_required) =
        ((env_security getenv n).client_key_path ≢ "")
        × ((env_security getenv n).client_cert_path ≡ "")
    Told (env_error (not_built no_queue_capacity)) = capacity_wanted getenv n ≡ 0
    Told (env_error (not_built empty_url)) = ⊥
    Told (env_error (not_built bad_url_scheme)) = has_scheme env_url ≡ false
    Told (from_env c) =
        (c.url ≡ env_url)
        × Leads (parse_url (codes c.url))
        × (0 < c.queue_capacity)
        × ((c.security_config.client_cert_path ≡ "") ↔ (c.security_config.client_key_path ≡ ""))
        × Fresh c.backoff_strategy
        × TelemetryRead c.telemetry_config
        × (rate_limiting_enabled c.rate_limiter ≡ get_env_bool getenv "RATE_LIMIT_ENABLED" false)
        × TimeoutsRead c.connection_timeouts
        × (c.security_config.allow_insecure ≡ get_env_bool getenv "ALLOW_INSECURE" false)

    built-Told :
        (b : Builder D) (r : Built D)
        → b.config.url ≡ env_url
        → env_url ≢ ""
        → Fresh b.config.backoff_strategy
        → b.config.telemetry_config ≡ telemetry_wanted getenv n
        → b.config.security_config ≡ env_security getenv n
        → rate_limiting_enabled b.config.rate_limiter
          ≡ get_env_bool getenv "RATE_LIMIT_ENABLED" false
        → b.config.queue_capacity ≡ capacity_wanted getenv n
        → (((env_security getenv n).client_cert_path ≡ "")
            ↔ ((env_security getenv n).client_key_path ≡ ""))
        → TimeoutsRead b.config.connection_timeouts
        → Judged f b r
        → Told (of_built getenv n r)
    built-Told b (rejected no_queue_capacity) at given fresh wanted secure limited capacity both
          times j =
        sym capacity ∙ j
    built-Told b (rejected empty_url) at given fresh wanted secure limited capacity both times j =
        given (sym at ∙ j.1)
    built-Told b (rejected bad_url_scheme) at given fresh wanted secure limited capacity both times
          j =
        ap has_scheme (sym at) ∙ j.2
    built-Told b (built c) at given fresh wanted secure limited capacity both times
          (positive, known, leads, same) =
        let (s, e, start) = fresh in
        let secured = ap (λ x. x.security_config) same ∙ secure in
        (
          ap (λ x. x.url) same ∙ at,
          leads,
          positive,
          rw secured both,
          (s, ap (λ x. x.backoff_strategy) same ∙ ap (λ o. some (strategy_or f b o)) e, start),
          subst TelemetryRead (sym (ap (λ x. x.telemetry_config) same ∙ wanted))
              telemetry_wanted-TelemetryRead,
          ap (λ x. rate_limiting_enabled x.rate_limiter) same ∙ limited,
          timeouts_same b.config.connection_timeouts c.connection_timeouts
              (ap (λ x. x.connection_timeouts) same) times,
          ap (λ x. x.allow_insecure) secured ∙ env_security-allow_insecure,
        )

    both-empty :
        (cert key : String)
        → (not (cert == "") && (key == "")) ≡ false
        → (not (key == "") && (cert == "")) ≡ false
        → (cert ≡ "") ↔ (key ≡ "")
    both-empty cert key h k =
        ground (arith, string_key.same_key_iff cert "", string_key.same_key_iff key "")

    one-empty :
        (cert key : String) → (not (cert == "") && (key == "")) ≡ true → (cert ≢ "") × (key ≡ "")
    one-empty cert key h =
        ground (arith, string_key.same_key_iff cert "", string_key.same_key_iff key "")

    pub config_from_env-Told : Told (config_from_env getenv n a f now)
    unfolding config_from_env
    config_from_env-Told =
        let s = env_security getenv n in
        let cert = s.client_cert_path in
        let key = s.client_key_path in
        elim (Bool-cases (env_url == "")) [
          | inl empty ↦ rw empty ((string_key.same_key_iff env_url "").0 empty)
          | inr given ↦ elim (Bool-cases (not (cert == "") && (key == ""))) [
            | inl no_key ↦ rw (given, no_key) (one-empty cert key no_key)
            | inr keyed ↦ elim (Bool-cases (not (key == "") && (cert == ""))) [
              | inl no_cert ↦ rw (given, keyed, no_cert) (one-empty key cert no_cert)
              | inr certified ↦
                  let (at, fresh, wanted, secure, limited, capacity) = last_builder-fields in
                  rw (given, keyed, certified)
                    (built-Told last_builder (build f last_builder) at (beq-ne env_url given) fresh
                      wanted secure limited capacity (both-empty cert key keyed certified)
                      last_builder-timeouts (build-Judged f last_builder))
            ]
          ]
        ]

    -- Without ENABLE_TELEMETRY the telemetry is not off: the configuration is left with the default
    -- one, which collects metrics.
    pub config_from_env-metrics :
        (c : ClientConfig D)
        → get_env_bool getenv "ENABLE_TELEMETRY" false ≡ false
        → config_from_env getenv n a f now ≡ from_env c
        → c.telemetry_config.enable_metrics ≡ true
    config_from_env-metrics c off e =
        let told : Told (from_env c) = subst Told e config_from_env-Told in (told.5.1 off).1
