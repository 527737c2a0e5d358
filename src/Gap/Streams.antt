-- ===== src/Gap/Streams.antt =====
-- Streams of messages.
use kraken_sdk.Common.{
  ℕ, zero, suc, ◌+◌, ◌^◌, ◌<◌, ◌≡◌, ◌∙◌, ap, true, some, List, [], ◌∷◌, arith, lookup, insert,
  lookup-insert_self, if◌then◌else◌,
}
use kraken_sdk.Gap.{ChannelSymbolKey, key_eq, SequenceTracker, check, u64}

-- The messages of a stream, with their time stamps; how many the tracker refused.
unfoldable pub check_all : SequenceTracker → List (ChannelSymbolKey × ℕ × ℕ) → SequenceTracker × ℕ
check_all t [] = (t, 0)
check_all t ((key, n, now) ∷ ms) =
    let c = check t key n now in
    let (t', refused) = check_all c.tracker ms in (t', if c.result then refused else suc refused)

check-gap_count :
    (t : SequenceTracker) (key : ChannelSymbolKey) (n now : ℕ)
    → let c = check t key n now in
      c.tracker.gap_count ≡ (if c.result then t.gap_count else u64 (t.gap_count + 1))
unfolding check
check-gap_count t key n now = ground arith

-- The gap count is the number of messages answered false, modulo 2 ^ 64, from whatever it was.
pub check_all-gap_count :
    (t : SequenceTracker) (ms : List (ChannelSymbolKey × ℕ × ℕ))
    → t.gap_count < 2 ^ 64
    → (check_all t ms).0.gap_count ≡ u64 (t.gap_count + (check_all t ms).1)
unfolding check_all
check_all-gap_count t [] h = omega arith
check_all-gap_count t ((key, n, now) ∷ ms) h =
    let c = check t key n now in
    let e = check-gap_count t key n now in ground (arith, e, check_all-gap_count c.tracker ms)

-- The messages numbered `first`, `first + 1`, … of one channel and symbol.
abbrev pub consecutive : ChannelSymbolKey → ℕ → ℕ → ℕ → List (ChannelSymbolKey × ℕ × ℕ)
consecutive key now first zero = []
consecutive key now first (suc n) = (key, first, now) ∷ consecutive key now (suc first) n

check_next :
    (t : SequenceTracker) (key : ChannelSymbolKey) (last now : ℕ)
    → lookup key t.last_seq ≡ some last
    → last + 1 < 2 ^ 64
    → t.enabled ≡ true
    → check t key (suc last) now ≡ record {
      tracker = record t { last_seq = insert key (suc last) t.last_seq };
      result = true;
      reported = [];
    }
unfolding check
check_next t key last now h small e = ground arith

-- Messages in order, their numbers below 2 ^ 64, are all accepted, and the tracker remembers the
-- last of them.
pub check_all-consecutive :
    (t : SequenceTracker) (key : ChannelSymbolKey) (last now n : ℕ)
    → t.enabled ≡ true
    → lookup key t.last_seq ≡ some last
    → last + n < 2 ^ 64
    → let r = check_all t (consecutive key now (suc last) n) in
      (r.1 ≡ 0) × (lookup key r.0.last_seq ≡ some (last + n)) × (r.0.gap_count ≡ t.gap_count)
unfolding check_all
check_all-consecutive t key last now zero e h small = ground arith
check_all-consecutive t key last now (suc n) e h small =
    let t' = record t { last_seq = insert key (suc last) t.last_seq } in
    let seen = lookup-insert_self key (suc last) t.last_seq in
    let (none_refused, known, same) =
      check_all-consecutive t' key (suc last) now n e seen (omega arith) in
    rw (check_next t key last now h (omega arith) e, check_all)
      (none_refused, known ∙ ap some (omega arith), same)
