-- ===== src/Telemetry/Exporter.antt =====
-- `export_metrics` and `build_otlp_json` of src/telemetry/otlp_exporter.cpp.
--
-- A text is the list of its bytes. What the network does with a request is a function of the
-- request: the status of the answer, or nothing where a call throws or the TLS name is refused.
use kraken_sdk.Common.{
  ℕ, Bool, false, ◌||◌, nat_beq, if◌then◌else◌, Option, none, some, List, [], ◌∷◌, ◌++◌,
}
use kraken_sdk.Common.Texts.{codes, has_text}
use kraken_sdk.Common.Int.{ℤ, pos}
use kraken_sdk.Common.Decimal.{to_string, int_to_string}
use kraken_sdk.Connection.Address.{same_text, before, from, is_slash, is_host_end, split_scheme}
use kraken_sdk.Config.{TelemetryConfig}
use kraken_sdk.Telemetry.{MetricsCollector}

abbrev pub ends_slash : List ℕ → Bool
ends_slash [] = false
ends_slash (c ∷ []) = is_slash c
ends_slash (c ∷ d ∷ cs) = ends_slash (d ∷ cs)

unfoldable pub with_slash : List ℕ → List ℕ
with_slash text = if ends_slash text then text else text ++ codes "/"

unfoldable pub complete : List ℕ → List ℕ
complete endpoint =
    let slashed = with_slash endpoint in
    if has_text slashed (codes "/v1/metrics") then slashed else slashed ++ codes "v1/metrics"

pub record Target : Type 0 where
  pub secure : Bool
  pub host : List ℕ
  pub port : List ℕ
  pub path : List ℕ

abbrev pub path_or_default : List ℕ → List ℕ
path_or_default [] = codes "/v1/metrics"
path_or_default (c ∷ cs) = c ∷ cs

abbrev pub is_https : List ℕ → Bool
is_https scheme = same_text scheme (codes "https")

-- Behind the host: nothing, a port, or the path.
unfoldable pub target_of : List ℕ → List ℕ → List ℕ → Target
target_of scheme host [] = record {
  secure = is_https scheme;
  host = host;
  port = if is_https scheme then codes "443" else codes "80";
  path = path_or_default [];
}
target_of scheme host (c ∷ cs) =
    if nat_beq c b':'
    then record {
      secure = is_https scheme;
      host = host;
      port = before is_slash cs;
      path = path_or_default (from is_slash cs);
    }
    else record {
      secure = is_https scheme;
      host = host;
      port = if is_https scheme then codes "443" else codes "80";
      path = path_or_default (c ∷ cs);
    }

abbrev pub target_split : Option (List ℕ × List ℕ) → Option Target
target_split none = none
target_split (some (scheme, rest)) =
    some (target_of scheme (before is_host_end rest) (from is_host_end rest))

-- Where the metrics go; nothing for an empty endpoint or one without `://`.
unfoldable pub target : List ℕ → Option Target
target [] = none
target (c ∷ cs) = target_split (split_scheme (complete (c ∷ cs)))

abbrev pub sum_json : List ℕ → ℕ → List ℕ → List ℕ
sum_json name n rest =
    codes "{\"name\":\""
    ++ (name
        ++ (codes "\",\"sum\":{\"dataPoints\":[{\"asInt\":\""
            ++ (to_string n
                ++ (codes "\"}],\"aggregationTemporality\":2,\"isMonotonic\":true}}," ++ rest))))

abbrev pub gauge_json : List ℕ → ℤ → List ℕ → List ℕ
gauge_json name z rest =
    codes "{\"name\":\""
    ++ (name
        ++ (codes "\",\"gauge\":{\"dataPoints\":[{\"asInt\":\""
            ++ (int_to_string z ++ (codes "\"}]}}," ++ rest))))

abbrev pub resource_json : TelemetryConfig → List ℕ → List ℕ
resource_json config rest =
    codes
      "{\"resourceMetrics\":[{\"resource\":{\"attributes\":[{\"key\":\"service.name\",\"value\":{\"stringValue\":\""
    ++ (codes config.service_name
        ++ (codes "\"}},{\"key\":\"service.version\",\"value\":{\"stringValue\":\""
            ++ (codes config.service_version
                ++ (codes "\"}},{\"key\":\"deployment.environment\",\"value\":{\"stringValue\":\""
                    ++ (codes config.environment
                        ++ (codes "\"}}]},\"scopeMetrics\":[{\"metrics\":[" ++ rest))))))

abbrev pub sums_json : MetricsCollector → List ℕ → List ℕ
sums_json m rest = sum_json (codes "kraken.messages.received") m.messages_received (
    sum_json (codes "kraken.messages.processed") m.messages_processed (
      sum_json (codes "kraken.messages.dropped") m.messages_dropped (
        sum_json (codes "kraken.reconnect.attempts") m.reconnect_attempts (
          sum_json (codes "kraken.checksum.failures") m.checksum_failures (
            sum_json (codes "kraken.gaps.detected") m.gaps_detected
              (sum_json (codes "kraken.alerts.triggered") m.alerts_triggered rest))))))

abbrev pub gauges_json : MetricsCollector → List ℕ → List ℕ
gauges_json m rest = gauge_json (codes "kraken.queue.depth") m.queue_depth (
    gauge_json (codes "kraken.connection.state") m.connection_state
      (gauge_json (codes "kraken.latency.max.us") (pos m.latency_max_us) rest))

-- The last gauge and the end of the text.
abbrev pub average_json : List ℕ → List ℕ
average_json shown =
    codes "{\"name\":\"kraken.latency.avg.us\",\"gauge\":{\"dataPoints\":[{\"asDouble\":"
    ++ (shown ++ codes "}}]}}]}]}]}")

-- `shown` prints the average latency, a `double`.
unfoldable pub build_otlp_json :
    (MetricsCollector → List ℕ) → TelemetryConfig → MetricsCollector → List ℕ
build_otlp_json shown config m =
    resource_json config (sums_json m (gauges_json m (average_json (shown m))))

pub record Request : Type 0 where
  pub target : Target
  pub body : List ℕ

abbrev pub accepted : Option ℕ → Bool
accepted none = false
accepted (some status) = nat_beq status 200 || nat_beq status 202

-- With telemetry attached: the request that is sent, and the result.
unfoldable pub export_metrics :
    (MetricsCollector → List ℕ)
    → (Request → Option ℕ)
    → TelemetryConfig
    → MetricsCollector
    → Option Request × Bool
export_metrics shown post config m =
    if config.enable_otlp_export
    then elim (target (codes config.otlp_endpoint)) [
      | none ↦ (none, false)
      | some to ↦
          let request : Request = record { target = to; body = build_otlp_json shown config m } in
          (some request, accepted (post request))
    ]
    else (none, false)
