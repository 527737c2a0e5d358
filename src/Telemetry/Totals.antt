-- ===== src/Telemetry/Totals.antt =====
-- What the counters hold after many calls.
use kraken_sdk.Common.{
  ℕ, suc, ◌+◌, ◌^◌, ◌≤◌, ◌<◌, ◌≡◌, refl, ◌∙◌, String, false, if◌then◌else◌, List, [], ◌∷◌,
  string_key, ◌==◌, lookup, lookup-insert, length, arith, Bool-cases, inl, inr, All, ◌↔◌,
}
use kraken_sdk.Gap.{u64}
use kraken_sdk.Telemetry.{
  MetricsCollector, metrics_collector, count_or_zero, increment_messages_received,
  record_latency_us,
}

-- One message after the other, and one latency after the other.
unfoldable pub receive_all : MetricsCollector → List String → MetricsCollector
receive_all m [] = m
receive_all m (channel ∷ channels) = receive_all (increment_messages_received m channel) channels

unfoldable pub record_all : MetricsCollector → List ℕ → MetricsCollector
record_all m [] = m
record_all m (latency ∷ latencies) = record_all (record_latency_us m latency) latencies

unfoldable pub occurrences : String → List String → ℕ
occurrences k [] = 0
occurrences k (x ∷ xs) = let rest = occurrences k xs in if x == k then suc rest else rest

-- The count of a channel.
unfoldable pub channel_count : MetricsCollector → String → ℕ
channel_count m channel = count_or_zero (lookup channel m.channel_counts)

channel_count-increment :
    (m : MetricsCollector) (x k : String)
    → (k == "") ≡ false
    → channel_count (increment_messages_received m x) k
      ≡ (if x == k then u64 (channel_count m k + 1) else channel_count m k)
unfolding channel_count increment_messages_received
channel_count-increment m x k h = ground (
  arith,
  string_key.same_key_iff x k,
  string_key.same_key_iff x "",
  string_key.same_key_iff k "",
  lookup-insert x k (u64 (count_or_zero (lookup x m.channel_counts) + 1)) m.channel_counts,
)

received-increment :
    (m : MetricsCollector) (x : String)
    → (increment_messages_received m x).messages_received ≡ u64 (m.messages_received + 1)
unfolding increment_messages_received
received-increment m x = ground arith

receive_all-messages_received :
    (m : MetricsCollector) (xs : List String)
    → m.messages_received + length xs < 2 ^ 64
    → (receive_all m xs).messages_received ≡ m.messages_received + length xs
unfolding receive_all
receive_all-messages_received m [] h = omega arith
receive_all-messages_received m (x ∷ xs) h =
    let one : (increment_messages_received m x).messages_received ≡ m.messages_received + 1 =
      received-increment m x ∙ omega arith in
    receive_all-messages_received (increment_messages_received m x) xs (omega arith) ∙ omega arith

receive_all-channel_count :
    (m : MetricsCollector) (k : String) (xs : List String)
    → (k == "") ≡ false
    → channel_count m k + length xs < 2 ^ 64
    → channel_count (receive_all m xs) k ≡ channel_count m k + occurrences k xs
unfolding receive_all occurrences
receive_all-channel_count m k [] h bound = omega arith
receive_all-channel_count m k (x ∷ xs) h bound =
    let counted = channel_count-increment m x k h in
    let ih = receive_all-channel_count (increment_messages_received m x) k xs h in
    elim (Bool-cases (x == k)) [
      | inl same ↦
          let one : channel_count (increment_messages_received m x) k ≡ channel_count m k + 1 =
            counted ∙ rw same (omega arith) in
          ih (omega arith) ∙ rw same (omega arith)
      | inr other ↦
          let one : channel_count (increment_messages_received m x) k ≡ channel_count m k =
            counted ∙ rw other refl in
          ih (omega arith) ∙ rw other (omega arith)
    ]

-- A collector without messages counts every message that it is told of, and for each channel the
-- messages of that channel, while they are fewer than 2 ^ 64; messages without a channel are in
-- the total only.
pub receive_all-Counts :
    (k : String) (xs : List String)
    → (k == "") ≡ false
    → length xs < 2 ^ 64
    → ((receive_all metrics_collector xs).messages_received ≡ length xs)
      × (channel_count (receive_all metrics_collector xs) k ≡ occurrences k xs)
unfolding channel_count lookup
receive_all-Counts k xs h bound = (
  receive_all-messages_received metrics_collector xs (omega arith) ∙ omega arith,
  receive_all-channel_count metrics_collector k xs h (omega arith) ∙ omega arith,
)

-- After the latencies, a number is at least the longest latency exactly if it is at least each of
-- them and what the longest was before.
pub record_all-Longest :
    (m : MetricsCollector) (ls : List ℕ) (b : ℕ)
    → ((record_all m ls).latency_max_us ≤ b) ↔ ((m.latency_max_us ≤ b) × All (λ l. l ≤ b) ls)
unfolding record_all record_latency_us
record_all-Longest m [] b = (λ h. (h, tt), λ h. h.0)
record_all-Longest m (l ∷ ls) b =
    let (there, back) = record_all-Longest (record_latency_us m l) ls b in
    (
      λ h. let (start, rest) = there h in (ground arith, (ground arith, rest)),
      λ h. let (start, others) = h in let (here, rest) = others in back (ground arith, rest),
    )
