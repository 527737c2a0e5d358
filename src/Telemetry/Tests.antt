-- ===== src/Telemetry/Tests.antt =====
-- The theorems about telemetry at concrete inputs, and runs of the code.
use kraken_sdk.Common.{
  ℕ, ◌≡◌, refl, arith, Option, none, some, List, [], ◌∷◌, ◌++◌, Bool, true, false, map, All,
  if◌then◌else◌, length, String, ◌↔◌, ◌≤◌, ◌/◌,
}
use kraken_sdk.Common.Texts.{codes, has_text}
use kraken_sdk.Common.Int.{pos}
use kraken_sdk.Connection.Split.{Lacks}
use kraken_sdk.Config.{TelemetryConfig, default_telemetry}
use kraken_sdk.Telemetry.{MetricsCollector, metrics_collector}
use kraken_sdk.Telemetry.Exposition.{families, to_prometheus}
use kraken_sdk.Telemetry.Scraping.{scrape, scrape-to_prometheus}
use kraken_sdk.Telemetry.Exporter.{
  Target, target, with_slash, is_https, Request, export_metrics, build_otlp_json,
}
use kraken_sdk.Telemetry.Endpoints.{print_endpoint, posted, target-print_endpoint}
use kraken_sdk.Telemetry.Brackets.{is_plain, plain, balanced, balanced-build_otlp_json}
use kraken_sdk.Telemetry.Running.{
  create, starting, stopping, calls, flush, flush-calls, phase, unused, is_on,
}

abbrev busy : MetricsCollector
busy = record metrics_collector {
  messages_received = 1205;
  queue_depth = pos 7;
  connection_state = pos 1;
  latency_max_us = 950;
  latency_sum_us = 1200;
  latency_count = 3;
}

abbrev whole_part : ℕ → ℕ → ℕ
whole_part sum count = sum / count

abbrev exporting : TelemetryConfig
exporting = record default_telemetry { enable_otlp_export = true }

abbrev shown : MetricsCollector → List ℕ
shown m = codes "400"

scrape-to_prometheus_example :
    scrape (to_prometheus whole_part busy)
    ≡ map (λ f. (codes f.name, f.value)) (families whole_part busy)
unfolding kraken_sdk.Telemetry.latency_average
scrape-to_prometheus_example = scrape-to_prometheus whole_part busy (
  ground arith,
  (
    ground arith,
    (
      ground arith,
      (
        ground arith,
        (
          ground arith,
          (
            ground arith,
            (ground arith, (ground arith, (ground arith, (ground arith, (ground arith, tt))))),
          ),
        ),
      ),
    ),
  ),
)

target-print_endpoint_example :
    target (print_endpoint (codes "http") (codes "localhost") (codes "4317") [])
    ≡ some (record {
      secure = is_https (codes "http");
      host = codes "localhost";
      port = codes "4317";
      path =
          posted
            (has_text
              (with_slash (print_endpoint (codes "http") (codes "localhost") (codes "4317") []))
              (codes "/v1/metrics"))
            [];
    })
unfolding codes Lacks
target-print_endpoint_example =
    target-print_endpoint (codes "http") (codes "localhost") (codes "4317") []
      (refl, (refl, (refl, (refl, tt))))
      (refl, (refl, (refl, (refl, (refl, (refl, (refl, (refl, (refl, tt)))))))))
      (refl, (refl, (refl, (refl, tt)))) tt

balanced-build_otlp_json_example : balanced (build_otlp_json shown exporting busy) ≡ false
unfolding codes is_plain
balanced-build_otlp_json_example =
    balanced-build_otlp_json shown exporting busy
      (record {
        service_name = plain "kraken-sdk" refl;
        service_version = plain "1.0.0" refl;
        environment = plain "development" refl;
      })
      ((refl, refl, refl), ((refl, refl, refl), ((refl, refl, refl), tt)))

flush-calls_example :
    flush shown
      (λ request. some 200)
      exporting
      (calls exporting create (starting true ∷ stopping ∷ starting false ∷ []))
      busy
    ≡ (if is_on (phase unused (starting true ∷ stopping ∷ starting false ∷ []))
        then export_metrics shown (λ request. some 200) exporting busy
        else (none, false))
flush-calls_example =
    flush-calls shown (λ request. some 200) exporting
      (starting true ∷ stopping ∷ starting false ∷ []) busy

abbrev channels : List String
channels = "ticker" ∷ "" ∷ "book" ∷ "ticker" ∷ []

-- A full endpoint gets a slash at its end.
full_endpoint :
    elim (target (codes "http://collector:4318/v1/metrics")) [ none ↦ [] | some t ↦ t.path ]
    ≡ codes "/v1/metrics/"
unfolding codes target kraken_sdk.Telemetry.Exporter.complete with_slash has_text
    kraken_sdk.Common.Texts.begins_with kraken_sdk.Connection.Address.split_scheme
    kraken_sdk.Connection.Address.before kraken_sdk.Connection.Address.from
    kraken_sdk.Telemetry.Exporter.target_of
full_endpoint = refl
