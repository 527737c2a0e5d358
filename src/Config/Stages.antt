-- ===== src/Config/Stages.antt =====
-- What the stages of `config_from_env` set and leave alone: src/core/config_env.cpp.
use kraken_sdk.Common.{
  ℕ, ◌≡◌, refl, ◌∙◌, String, true, false, if◌then◌else◌, Option, none, some, arith, string_key,
}
use kraken_sdk.Backoff.{BackoffStrategy, attempt_of}
use kraken_sdk.Backoff.Presets.{Factors, build_backoff}
use kraken_sdk.Config.{
  TelemetryConfig, default_telemetry, Builder, config_builder, url, api_key, api_secret,
  queue_capacity, validate_checksums, backoff, gap_detection, gap_tolerance, telemetry,
  connection_timeouts, use_queue,
}
use kraken_sdk.Config.Environment.{
  Numbers, get_env, get_env_bool, get_env_size_t, env_credentials, env_queue, env_backoff,
  env_integrity, env_telemetry_config, env_telemetry, env_timeouts, env_settings,
}

-- A strategy of the environment, at its first attempt.
abbrev pub Fresh : {D : Type 0} → Option (BackoffStrategy D) → Type 0
Fresh {D} strategy = (s : BackoffStrategy D) × (strategy ≡ some s) × (attempt_of s ≡ 0)

module _ (getenv : String → Option String) {D : Type 0} (n : Numbers D) where
  -- What a stage leaves alone.
  abbrev Kept : Builder D → Builder D → Type 0
  Kept b b' =
      (b'.config.url ≡ b.config.url)
      × (b'.config.backoff_strategy ≡ b.config.backoff_strategy)
      × (b'.config.telemetry_config ≡ b.config.telemetry_config)
      × (b'.config.rate_limiter ≡ b.config.rate_limiter)

  env_credentials-Kept : (b : Builder D) → Kept b (env_credentials getenv n b)
  unfolding env_credentials api_key api_secret
  env_credentials-Kept b = ground arith

  env_queue-Kept : (b : Builder D) → Kept b (env_queue getenv n b)
  unfolding env_queue queue_capacity use_queue
  env_queue-Kept b = ground arith

  env_integrity-Kept : (b : Builder D) → Kept b (env_integrity getenv n b)
  unfolding env_integrity gap_detection gap_tolerance validate_checksums
  env_integrity-Kept b = ground arith

  -- The telemetry of the configuration: that of the environment, or the default one.
  unfoldable pub telemetry_wanted : TelemetryConfig
  telemetry_wanted =
      if get_env_bool getenv "ENABLE_TELEMETRY" false
      then env_telemetry_config getenv n
      else default_telemetry

  env_telemetry-fields :
      (b : Builder D)
      → let c = (env_telemetry getenv n b).config in
        (c.url ≡ b.config.url)
        × (c.backoff_strategy ≡ b.config.backoff_strategy)
        × (b.config.telemetry_config ≡ default_telemetry → c.telemetry_config ≡ telemetry_wanted)
        × (c.rate_limiter ≡ b.config.rate_limiter)
  unfolding env_telemetry telemetry telemetry_wanted
  env_telemetry-fields b = ground arith

  env_backoff-fields :
      (f : Factors D) (b : Builder D)
      → let c = (env_backoff getenv n f b).config in
        (c.url ≡ b.config.url)
        × Fresh c.backoff_strategy
        × (c.telemetry_config ≡ b.config.telemetry_config)
        × (c.rate_limiter ≡ b.config.rate_limiter)
  unfolding env_backoff backoff build_backoff
  env_backoff-fields f b = (refl, (_, refl, refl), refl, refl)

  Fresh-same : (o o' : Option (BackoffStrategy D)) → o' ≡ o → Fresh o → Fresh o'
  Fresh-same o o' e (s, k, at) = (s, e ∙ k, at)

  pub env_settings-fields :
      (f : Factors D)
      → let c = (env_settings getenv n f).config in
        (c.url ≡ get_env getenv "KRAKEN_WS_URL" "wss://ws.kraken.com/v2")
        × Fresh c.backoff_strategy
        × (c.telemetry_config ≡ telemetry_wanted)
        × (c.rate_limiter ≡ none)
  unfolding env_settings env_timeouts connection_timeouts url config_builder
  env_settings-fields f =
      let b1 = url (get_env getenv "KRAKEN_WS_URL" "wss://ws.kraken.com/v2") config_builder in
      let b2 = env_credentials getenv n b1 in
      let b3 = env_queue getenv n b2 in
      let b4 = env_backoff getenv n f b3 in
      let b5 = env_integrity getenv n b4 in
      let (url2, strategy2, telemetry2, limiter2) = env_credentials-Kept b1 in
      let (url3, strategy3, telemetry3, limiter3) = env_queue-Kept b2 in
      let (url4, fresh, telemetry4, limiter4) = env_backoff-fields f b3 in
      let (url5, strategy5, telemetry5, limiter5) = env_integrity-Kept b4 in
      let (url6, strategy6, telemetry6, limiter6) = env_telemetry-fields b5 in
      (
        url6 ∙ url5 ∙ url4 ∙ url3 ∙ url2,
        Fresh-same b4.config.backoff_strategy (env_telemetry getenv n b5).config.backoff_strategy
            (strategy6 ∙ strategy5) fresh,
        telemetry6 (telemetry5 ∙ telemetry4 ∙ telemetry3 ∙ telemetry2),
        limiter6 ∙ limiter5 ∙ limiter4 ∙ limiter3 ∙ limiter2,
      )

  -- The capacity of the queue that the environment asks for.
  unfoldable pub capacity_wanted : ℕ
  capacity_wanted =
      if get_env_bool getenv "ENABLE_SPSC_QUEUE" true
      then get_env_size_t getenv n "SPSC_QUEUE_SIZE" 65536
      else 65536

  env_credentials-capacity :
      (b : Builder D) → (env_credentials getenv n b).config.queue_capacity ≡ b.config.queue_capacity
  unfolding env_credentials api_key api_secret
  env_credentials-capacity b = ground arith

  env_queue-capacity :
      (b : Builder D)
      → b.config.queue_capacity ≡ 65536
      → (env_queue getenv n b).config.queue_capacity ≡ capacity_wanted
  unfolding env_queue queue_capacity use_queue capacity_wanted
  env_queue-capacity b h = ground arith

  env_integrity-capacity :
      (b : Builder D) → (env_integrity getenv n b).config.queue_capacity ≡ b.config.queue_capacity
  unfolding env_integrity gap_detection gap_tolerance validate_checksums
  env_integrity-capacity b = ground arith

  env_telemetry-capacity :
      (b : Builder D) → (env_telemetry getenv n b).config.queue_capacity ≡ b.config.queue_capacity
  unfolding env_telemetry telemetry
  env_telemetry-capacity b = ground arith

  pub env_settings-capacity :
      (f : Factors D) → (env_settings getenv n f).config.queue_capacity ≡ capacity_wanted
  unfolding env_settings env_timeouts connection_timeouts url config_builder env_backoff backoff
  env_settings-capacity f =
      let b1 = url (get_env getenv "KRAKEN_WS_URL" "wss://ws.kraken.com/v2") config_builder in
      let b2 = env_credentials getenv n b1 in
      let b4 = env_backoff getenv n f (env_queue getenv n b2) in
      env_telemetry-capacity (env_integrity getenv n b4)
      ∙ env_integrity-capacity b4
      ∙ env_queue-capacity b2 (env_credentials-capacity b1)
