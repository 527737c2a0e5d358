-- ===== src/Telemetry.antt =====
-- The counters of the client: include/kraken/telemetry/metrics_collector.hpp and
-- src/telemetry/metrics_collector.cpp; the HTTP answers of src/telemetry/prometheus_server.cpp.
--
-- Counters are `uint64_t`. The gauges and the latencies are `int64_t`; `average` is the cut of the
-- average latency to a whole number, a quotient of doubles.
pub mod Exposition
pub mod Totals
pub mod Scraping
pub mod Exporter
pub mod Endpoints
pub mod Brackets
pub mod Running
mod Tests
use kraken_sdk.Common.{
  ℕ, suc, ◌+◌, ◌-◌, ◌%◌, ◌^◌, ◌≡◌, String, Bool, true, false, not, ◌&&◌, ◌||◌, ltb, if◌then◌else◌,
  Option, none, some, List, [], ◌∷◌, string_key, ◌==◌, lookup, insert,
}
use kraken_sdk.Common.Int.{ℤ, pos, negsuc}
use kraken_sdk.Gap.{u64}

-- `static_cast<int64_t>` of a `size_t`.
abbrev pub cast_i64 : ℕ → ℤ
cast_i64 n = if ltb n (2 ^ 63) then pos n else negsuc (2 ^ 64 - n - 1)

pub record MetricsCollector : Type 0 where
  pub messages_received : ℕ
  pub messages_processed : ℕ
  pub messages_dropped : ℕ
  pub reconnect_attempts : ℕ
  pub checksum_failures : ℕ
  pub gaps_detected : ℕ
  pub alerts_triggered : ℕ
  pub queue_depth : ℤ
  pub connection_state : ℤ
  pub latency_max_us : ℕ
  pub latency_sum_us : ℕ
  pub latency_count : ℕ
  pub channel_counts : List (String × ℕ)

abbrev pub metrics_collector : MetricsCollector
metrics_collector = record {
  messages_received = 0;
  messages_processed = 0;
  messages_dropped = 0;
  reconnect_attempts = 0;
  checksum_failures = 0;
  gaps_detected = 0;
  alerts_triggered = 0;
  queue_depth = pos 0;
  connection_state = pos 0;
  latency_max_us = 0;
  latency_sum_us = 0;
  latency_count = 0;
  channel_counts = [];
}

abbrev pub count_or_zero : Option ℕ → ℕ
count_or_zero none = 0
count_or_zero (some n) = n

unfoldable pub increment_messages_received : MetricsCollector → String → MetricsCollector
increment_messages_received m channel =
    let m' = record m { messages_received = u64 (m.messages_received + 1) } in
    let n = count_or_zero (lookup channel m.channel_counts) in
    if not (channel == "")
    then record m' { channel_counts = insert channel (u64 (n + 1)) m.channel_counts }
    else m'

unfoldable pub increment_messages_processed : MetricsCollector → MetricsCollector
increment_messages_processed m = record m { messages_processed = u64 (m.messages_processed + 1) }

unfoldable pub increment_messages_dropped : MetricsCollector → MetricsCollector
increment_messages_dropped m = record m { messages_dropped = u64 (m.messages_dropped + 1) }

unfoldable pub increment_reconnect_attempts : MetricsCollector → MetricsCollector
increment_reconnect_attempts m = record m { reconnect_attempts = u64 (m.reconnect_attempts + 1) }

unfoldable pub increment_checksum_failures : MetricsCollector → MetricsCollector
increment_checksum_failures m = record m { checksum_failures = u64 (m.checksum_failures + 1) }

unfoldable pub increment_gaps_detected : MetricsCollector → MetricsCollector
increment_gaps_detected m = record m { gaps_detected = u64 (m.gaps_detected + 1) }

-- The name of the strategy is not used.
unfoldable pub increment_alerts_triggered : MetricsCollector → MetricsCollector
increment_alerts_triggered m = record m { alerts_triggered = u64 (m.alerts_triggered + 1) }

unfoldable pub set_queue_depth : MetricsCollector → ℕ → MetricsCollector
set_queue_depth m depth = record m { queue_depth = cast_i64 depth }

unfoldable pub set_connection_state : MetricsCollector → ℤ → MetricsCollector
set_connection_state m state = record m { connection_state = state }

-- A latency of the client is not negative; the sum is taken not to overflow.
unfoldable pub record_latency_us : MetricsCollector → ℕ → MetricsCollector
record_latency_us m latency = record m {
  latency_max_us = if ltb m.latency_max_us latency then latency else m.latency_max_us;
  latency_sum_us = m.latency_sum_us + latency;
  latency_count = u64 (m.latency_count + 1);
}

-- `latency_avg_us()`, cut to a whole number.
unfoldable pub latency_average : (ℕ → ℕ → ℕ) → MetricsCollector → ℕ
latency_average average m =
    if ltb 0 m.latency_count then average m.latency_sum_us m.latency_count else 0

-- The connection state is not reset.
unfoldable pub reset : MetricsCollector → MetricsCollector
reset m = record metrics_collector { connection_state = m.connection_state }

-- An HTTP answer of the metrics server.
pub record Response : Type 0 where
  pub status : ℕ
  pub content_type : String
  pub body : List ℕ
