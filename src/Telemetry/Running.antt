-- ===== src/Telemetry/Running.antt =====
-- The services of telemetry: `start`, `stop` and `flush` of src/telemetry/telemetry.cpp, of the
-- server in src/telemetry/prometheus_server.cpp and of the exporter in
-- src/telemetry/otlp_exporter.cpp.
--
-- Whether the port can be listened on is an argument of each start.
use kraken_sdk.Common.{
  ℕ, ◌≡◌, refl, ap, ◌∙◌, Bool, true, false, not, ◌&&◌, ◌||◌, if◌then◌else◌, Option, none, some,
  List, [], ◌∷◌, arith, Bool-cases, inl, inr,
}
use kraken_sdk.Config.{TelemetryConfig}
use kraken_sdk.Telemetry.{MetricsCollector}
use kraken_sdk.Telemetry.Exporter.{Request, export_metrics}

pub record MetricsHttpServer : Type 0 where
  pub port : ℕ
  pub running : Bool

-- `attached` says that `telemetry_` holds the telemetry object.
pub record OtlpHttpExporter : Type 0 where
  pub running : Bool
  pub attached : Bool

pub record Telemetry : Type 0 where
  pub http_server : Option MetricsHttpServer
  pub otlp_exporter : OtlpHttpExporter

abbrev pub create : Telemetry
create = record { http_server = none; otlp_exporter = record { running = false; attached = false } }

unfoldable pub start_server : Bool → MetricsHttpServer → MetricsHttpServer × Bool
start_server listens s = if s.running then (s, true) else (record s { running = listens }, listens)

unfoldable pub stop_server : MetricsHttpServer → MetricsHttpServer
stop_server s = if not s.running then s else record s { running = false }

unfoldable pub start_exporter : OtlpHttpExporter → OtlpHttpExporter × Bool
start_exporter e =
    if e.running then (e, true) else (record { running = true; attached = true }, true)

unfoldable pub stop_exporter : OtlpHttpExporter → OtlpHttpExporter
stop_exporter e = if not e.running then e else record e { running = false }

unfoldable pub start : TelemetryConfig → Bool → Telemetry → Telemetry × Bool
start config listens t =
    let fresh : MetricsHttpServer = record { port = config.http_server_port; running = false } in
    let (server, serves) = start_server listens fresh in
    let (exporter, exports) = start_exporter t.otlp_exporter in
    let (t', served) : Telemetry × Bool =
      if config.enable_http_server
      then (record t { http_server = some server }, serves)
      else (t, true) in
    if config.enable_otlp_export
    then (record t' { otlp_exporter = exporter }, served && exports)
    else (t', served)

-- The server is stopped and dropped.
unfoldable pub stop : Telemetry → Telemetry
stop t = record { http_server = none; otlp_exporter = stop_exporter t.otlp_exporter }

unfoldable pub is_http_server_running : Telemetry → Bool
is_http_server_running t = elim t.http_server [ none ↦ false | some s ↦ s.running ]

unfoldable pub http_server_port : Telemetry → ℕ
http_server_port t = elim t.http_server [ none ↦ 0 | some s ↦ s.port ]

-- The request that is sent, and the result.
unfoldable pub flush :
    (MetricsCollector → List ℕ)
    → (Request → Option ℕ)
    → TelemetryConfig
    → Telemetry
    → MetricsCollector
    → Option Request × Bool
flush shown post config t m =
    if not t.otlp_exporter.attached || not t.otlp_exporter.running
    then (none, false)
    else export_metrics shown post config m

pub data Call : Type 0 where
  starting : Bool → Call
  stopping : Call

unfoldable pub call : TelemetryConfig → Telemetry → Call → Telemetry
call config t (starting listens) = (start config listens t).0
call config t stopping = stop t

unfoldable pub calls : TelemetryConfig → Telemetry → List Call → Telemetry
calls config t [] = t
calls config t (c ∷ cs) = calls config (call config t c) cs

-- What a user of telemetry has to know of its past.
pub data Phase : Type 0 where
  unused : Phase
  on : Bool → Phase
  off : Phase

unfoldable pub next_phase : Phase → Call → Phase
next_phase p (starting listens) = on listens
next_phase unused stopping = unused
next_phase (on listens) stopping = off
next_phase off stopping = off

unfoldable pub phase : Phase → List Call → Phase
phase p [] = p
phase p (c ∷ cs) = phase (next_phase p c) cs

unfoldable pub described : TelemetryConfig → Phase → Telemetry
described config unused = create
described config (on listens) = record {
  http_server =
      if config.enable_http_server
      then some (record { port = config.http_server_port; running = listens })
      else none;
  otlp_exporter = record {
    running = config.enable_otlp_export;
    attached = config.enable_otlp_export;
  };
}
described config off = record {
  http_server = none;
  otlp_exporter = record { running = false; attached = config.enable_otlp_export };
}

call-described :
    (config : TelemetryConfig) (p : Phase) (c : Call)
    → call config (described config p) c ≡ described config (next_phase p c)
unfolding call described next_phase start stop start_server start_exporter stop_exporter
call-described config unused (starting listens) = ground arith
call-described config (on before) (starting listens) = ground arith
call-described config off (starting listens) = ground arith
call-described config unused stopping = ground arith
call-described config (on before) stopping = ground arith
call-described config off stopping = ground arith

pub calls-described :
    (config : TelemetryConfig) (p : Phase) (cs : List Call)
    → calls config (described config p) cs ≡ described config (phase p cs)
unfolding calls phase
calls-described config p [] = refl
calls-described config p (c ∷ cs) =
    ap (λ t. calls config t cs) (call-described config p c)
    ∙ calls-described config (next_phase p c) cs

unfoldable pub is_on : Phase → Bool
is_on unused = false
is_on (on listens) = true
is_on off = false

flush-described :
    (shown : MetricsCollector → List ℕ) (post : Request → Option ℕ) (config : TelemetryConfig)
    (p : Phase) (m : MetricsCollector)
    → flush shown post config (described config p) m
      ≡ (if is_on p then export_metrics shown post config m else (none, false))
unfolding flush described is_on export_metrics
flush-described shown post config unused m = refl
flush-described shown post config (on listens) m = elim (Bool-cases config.enable_otlp_export) [
  | inl enabled ↦ rw enabled refl
  | inr disabled ↦ rw disabled refl
]
flush-described shown post config off m = ground arith

-- After any calls of `start` and `stop`, `flush` does what one export does if the last call was a
-- start, and else nothing is sent and the result is false.
pub flush-calls :
    (shown : MetricsCollector → List ℕ) (post : Request → Option ℕ) (config : TelemetryConfig)
    (cs : List Call) (m : MetricsCollector)
    → flush shown post config (calls config create cs) m
      ≡ (if is_on (phase unused cs) then export_metrics shown post config m else (none, false))
unfolding described
flush-calls shown post config cs m =
    ap (λ t. flush shown post config t m) (calls-described config unused cs)
    ∙ flush-described shown post config (phase unused cs) m
