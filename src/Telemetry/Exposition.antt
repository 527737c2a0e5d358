-- ===== src/Telemetry/Exposition.antt =====
-- The texts that leave the client: `to_prometheus` of src/telemetry/metrics_collector.cpp, the answers of
-- src/telemetry/prometheus_server.cpp, and `build_otlp_json` of src/telemetry/otlp_exporter.cpp.
--
-- A text is the list of its bytes.
use kraken_sdk.Common.{
  ℕ, String, ◌||◌, if◌then◌else◌, Option, none, some, List, [], ◌∷◌, ◌++◌, string_key, ◌==◌,
}
use kraken_sdk.Common.Int.{ℤ, pos}
use kraken_sdk.Common.Texts.{codes}
use kraken_sdk.Common.Decimal.{int_to_string}
use kraken_sdk.Telemetry.{MetricsCollector, Response, latency_average}

-- One metric of the Prometheus format.
pub record Family : Type 0 where
  pub name : String
  pub help : String
  pub kind : String
  pub value : ℤ

abbrev pub counter : String → String → ℕ → Family
counter name help n = record { name = name; help = help; kind = "counter"; value = pos n }

abbrev pub gauge : String → String → ℤ → Family
gauge name help z = record { name = name; help = help; kind = "gauge"; value = z }

abbrev pub families : (ℕ → ℕ → ℕ) → MetricsCollector → List Family
families average m =
    counter "kraken_messages_received_total" "Total messages received" m.messages_received
    ∷ counter "kraken_messages_processed_total" "Total messages processed" m.messages_processed
    ∷ counter "kraken_messages_dropped_total" "Total messages dropped" m.messages_dropped
    ∷ counter "kraken_reconnect_attempts_total" "Total reconnection attempts" m.reconnect_attempts
    ∷ counter "kraken_checksum_failures_total" "Total checksum validation failures"
        m.checksum_failures
    ∷ counter "kraken_gaps_detected_total" "Total message gaps detected" m.gaps_detected
    ∷ counter "kraken_alerts_triggered_total" "Total strategy alerts triggered" m.alerts_triggered
    ∷ gauge "kraken_queue_depth" "Current message queue depth" m.queue_depth
    ∷ gauge "kraken_connection_state" "Connection state (1=connected, 0=disconnected)"
        m.connection_state
    ∷ gauge "kraken_latency_max_us" "Maximum message latency in microseconds" (pos m.latency_max_us)
    ∷ gauge "kraken_latency_avg_us" "Average message latency in microseconds"
        (pos (latency_average average m))
    ∷ []

-- Three lines.
unfoldable pub family_text : Family → List ℕ → List ℕ
family_text f rest =
    codes "# HELP "
    ++ (codes f.name
        ++ (b' '
            ∷ (codes f.help
                ++ (b'\n'
                    ∷ (codes "# TYPE "
                        ++ (codes f.name
                            ++ (b' '
                                ∷ (codes f.kind
                                    ++ (b'\n'
                                        ∷ (codes f.name
                                            ++ (b' '
                                                ∷ (int_to_string f.value
                                                    ++ (b'\n' ∷ rest)))))))))))))

-- An empty line stands between two metrics.
unfoldable pub expose : List Family → List ℕ
expose [] = []
expose (f ∷ []) = family_text f []
expose (f ∷ g ∷ fs) = family_text f (b'\n' ∷ expose (g ∷ fs))

unfoldable pub to_prometheus : (ℕ → ℕ → ℕ) → MetricsCollector → List ℕ
to_prometheus average m = expose (families average m)

-- `handle_request` of the metrics server, by the target; `metrics` is `none` without telemetry.
unfoldable pub handle_request : Option (List ℕ) → String → Response
handle_request metrics target =
    if target == "/metrics" || target == "/metrics/"
    then record {
      status = 200;
      content_type = "text/plain; version=0.0.4";
      body = elim metrics [ none ↦ codes "# No metrics available\n" | some text ↦ text ];
    }
    else if target == "/health" || target == "/health/"
    then record {
      status = 200;
      content_type = "application/json";
      body = codes "{\"status\":\"healthy\"}";
    }
    else record { status = 404; content_type = "text/plain"; body = codes "Not Found\n" }
