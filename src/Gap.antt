-- ===== src/Gap.antt =====
-- Gap detection: include/kraken/connection/gap_detector.hpp.
--
-- Sequence numbers and the gap count are `uint64_t` and wrap. A method returns the new tracker and
-- what it hands to the callback; the callback's own exceptions are swallowed by the code. The hash
-- map is an association list, read only through `find`, `emplace` and `erase`. The time stamp of a
-- report is an argument. The mutex makes a method one step.
pub mod Checks
pub mod Streams
mod Tests
use kraken_sdk.Common.{
  ℕ, ◌+◌, ◌-◌, ◌%◌, ◌^◌, String, ◌≡◌, ◌↔◌, refl, Bool, true, false, ◌&&◌, ltb, leb, if◌then◌else◌,
  Option, none, some, List, [], ◌∷◌, ◌++◌, arith, Key, ◌==◌, string_key, nat_key, lookup, insert,
  erase,
}
use kraken_sdk.Common.Int.{ℤ, pos, cast_u64}

pub record ChannelSymbolKey : Type 0 where
  pub channel : String
  pub symbol : String

abbrev pub key_beq : ChannelSymbolKey → ChannelSymbolKey → Bool
key_beq a b = (a.channel == b.channel) && (a.symbol == b.symbol)

pub key_beq_iff : (a b : ChannelSymbolKey) → (key_beq a b ≡ true) ↔ (a ≡ b)
key_beq_iff a b =
    ground (
      arith,
      string_key.same_key_iff a.channel b.channel,
      string_key.same_key_iff a.symbol b.symbol,
    )

-- `operator==`; the hash only chooses a bucket.
instance abbrev pub key_eq : Key ChannelSymbolKey
key_eq = record { same_key = key_beq; same_key_iff = key_beq_iff }

pub record GapInfo : Type 0 where
  pub channel : String
  pub symbol : String
  pub expected_seq : ℕ
  pub actual_seq : ℕ
  pub gap_size : ℕ
  pub timestamp : ℕ

unfoldable pub is_reorder : GapInfo → Bool
is_reorder g = ltb g.actual_seq g.expected_seq

pub data GapRecoveryAction : Type 0 where
  ignore reconnect snapshot callback : GapRecoveryAction

pub record Config : Type 0 where
  pub enabled : Bool
  pub gap_tolerance : ℤ
  pub track_reorders : Bool
  pub recovery : GapRecoveryAction

abbrev pub default_config : Config
default_config = record {
  enabled = true;
  gap_tolerance = pos 0;
  track_reorders = true;
  recovery = callback;
}

-- `has_callback`: whether `gap_callback_` is set.
pub record SequenceTracker : Type 0 where
  pub config : Config
  pub open config use *
  pub last_seq : List (ChannelSymbolKey × ℕ)
  pub gap_count : ℕ
  pub has_callback : Bool

unfoldable pub sequence_tracker : Config → SequenceTracker
sequence_tracker c = record { config = c; last_seq = []; gap_count = 0; has_callback = false }

unfoldable pub on_gap : SequenceTracker → Bool → SequenceTracker
on_gap t callback_set = record t { has_callback = callback_set }

abbrev pub u64 : ℕ → ℕ
u64 n = n % 2 ^ 64

-- The outcome of a call: the tracker, the result, and what the callback was given.
pub record Checked : Type 0 where
  pub tracker : SequenceTracker
  pub result : Bool
  pub reported : List GapInfo

-- The report of a gap; the caller then stores `last` or keeps it.
unfoldable pub report_gap :
    SequenceTracker → ChannelSymbolKey → ℕ → ℕ → ℕ → ℕ → SequenceTracker × List GapInfo
report_gap t key expected actual size now = (
  record t { gap_count = u64 (t.gap_count + 1) },
  if t.has_callback
      then record {
        channel = key.channel;
        symbol = key.symbol;
        expected_seq = expected;
        actual_seq = actual;
        gap_size = size;
        timestamp = now;
      }
        ∷ []
      else [],
)

store : SequenceTracker → ChannelSymbolKey → ℕ → SequenceTracker
store t key sequence = record t { last_seq = insert key sequence t.last_seq }

-- `sequence > expected`.
forward : SequenceTracker → ChannelSymbolKey → ℕ → ℕ → ℕ → Checked
unfolding store report_gap
forward t key expected sequence now =
    let size = sequence - expected in
    let (t', out) = report_gap t key expected sequence size now in
    if leb size (cast_u64 t.gap_tolerance)
    then record { tracker = store t key sequence; result = true; reported = [] }
    else record { tracker = store t' key sequence; result = false; reported = out }

-- `sequence < expected`; `expected - sequence - 1` does not wrap, since `sequence < expected`.
backward : SequenceTracker → ChannelSymbolKey → ℕ → ℕ → ℕ → Checked
unfolding report_gap
backward t key expected sequence now =
    let (t', out) = report_gap t key expected sequence (expected - sequence - 1) now in
    if t.track_reorders
    then record { tracker = t'; result = false; reported = out }
    else record { tracker = t; result = true; reported = [] }

check_after : SequenceTracker → ChannelSymbolKey → ℕ → ℕ → Option ℕ → Checked
unfolding store forward backward
check_after t key sequence now none = record {
  tracker = store t key sequence;
  result = true;
  reported = [];
}
check_after t key sequence now (some last) =
    let expected = u64 (last + 1) in
    if sequence == expected
    then record { tracker = store t key sequence; result = true; reported = [] }
    else if ltb expected sequence
    then forward t key expected sequence now
    else backward t key expected sequence now

unfoldable pub check : SequenceTracker → ChannelSymbolKey → ℕ → ℕ → Checked
unfolding check_after
check t key sequence now =
    if t.enabled
    then check_after t key sequence now (lookup key t.last_seq)
    else record { tracker = t; result = true; reported = [] }

unfoldable pub reset : SequenceTracker → ChannelSymbolKey → SequenceTracker
reset t key = record t { last_seq = erase key t.last_seq }

unfoldable pub reset_all : SequenceTracker → SequenceTracker
reset_all t = record t { last_seq = []; gap_count = 0 }

unfoldable pub set_config : SequenceTracker → Config → SequenceTracker
set_config t c = record t { config = c }
