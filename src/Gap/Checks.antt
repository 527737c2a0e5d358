-- ===== src/Gap/Checks.antt =====
-- One call of `check`.
use kraken_sdk.Common.{
  ℕ, ◌+◌, ◌-◌, ◌^◌, ◌<◌, ◌≡◌, ◌≢◌, Bool, true, false, leb, some, [], ◌∷◌, arith, nat_key, ◌==◌,
  lookup-insert_self, lookup-erase_self, lookup-nil, lookup, erase, lookup-insert, if◌then◌else◌,
}
use kraken_sdk.Common.Int.{cast_u64, negsuc}
use kraken_sdk.Gap.{ChannelSymbolKey, key_eq, SequenceTracker, check, reset, reset_all, u64}

-- What a message with number `n` is, after one with number `last` of the same channel and symbol.
pub data Verdict : Type 0 where
  in_order tolerated gap reordered : Verdict

-- `missing` messages lie between the two.
unfoldable pub verdict : ℕ → ℕ → ℕ → Verdict
verdict tolerance last n =
    if leb n last
    then reordered
    else if n == last + 1
    then in_order
    else if leb (n - last - 1) tolerance
    then tolerated
    else gap

-- What the tracker answers.
abbrev pub accepts : Bool → Verdict → Bool
accepts track reordered = if track then false else true
accepts track gap = false
accepts track _ = true

-- The number that it remembers.
abbrev pub remembers : ℕ → ℕ → Verdict → ℕ
remembers last n reordered = last
remembers last n _ = n

-- An enabled tracker that remembers `last`, below the largest number, answers a message by the
-- verdict on its number, remembers the larger of the two numbers, and counts one more gap just
-- when it answers false.
pub check-verdict :
    (t : SequenceTracker) (key : ChannelSymbolKey) (last n now : ℕ)
    → t.enabled ≡ true
    → lookup key t.last_seq ≡ some last
    → last + 1 < 2 ^ 64
    → let v = verdict (cast_u64 t.gap_tolerance) last n in
      let c = check t key n now in
      (c.result ≡ accepts t.track_reorders v)
      × (lookup key c.tracker.last_seq ≡ some (remembers last n v))
      × (c.tracker.gap_count ≡ (if c.result then t.gap_count else u64 (t.gap_count + 1)))
unfolding check verdict
check-verdict t key last n now e h small = ground (arith, lookup-insert_self key n t.last_seq)

-- A message of one channel and symbol leaves what is remembered of every other as it was.
pub check-other :
    (t : SequenceTracker) (key other : ChannelSymbolKey) (n now : ℕ)
    → key ≢ other
    → lookup other (check t key n now).tracker.last_seq ≡ lookup other t.last_seq
unfolding check
check-other t key other n now h =
    ground (arith, lookup-insert key other n t.last_seq, key_eq.same_key_iff key other)

-- With a callback set, an answer false comes with one report, which names the number expected and
-- the number received, and has as its size the messages missing between, or, of a message out of
-- order, how far it lies back; an answer true comes with none.
pub check-reported :
    (t : SequenceTracker) (key : ChannelSymbolKey) (last n now : ℕ)
    → t.enabled ≡ true
    → t.has_callback ≡ true
    → lookup key t.last_seq ≡ some last
    → last + 1 < 2 ^ 64
    → let c = check t key n now in
      (c.result ≡ true → c.reported ≡ [])
      × (c.result ≡ false
          → c.reported
            ≡ record {
              channel = key.channel;
              symbol = key.symbol;
              expected_seq = last + 1;
              actual_seq = n;
              gap_size = (n - (last + 1)) + (last - n);
              timestamp = now;
            }
              ∷ [])
unfolding check
check-reported t key last n now e cb h small = ground arith

-- After `reset` of a channel and symbol, or `reset_all`, an enabled tracker accepts any number
-- there and goes on from it.
pub check-reset :
    (t : SequenceTracker) (key : ChannelSymbolKey) (n now : ℕ)
    → t.enabled ≡ true
    → ((check (reset t key) key n now).result ≡ true)
      × (lookup key (check (reset t key) key n now).tracker.last_seq ≡ some n)
      × ((check (reset_all t) key n now).result ≡ true)
      × (lookup key (check (reset_all t) key n now).tracker.last_seq ≡ some n)
unfolding check reset reset_all
check-reset t key n now e = ground (
  arith,
  lookup-erase_self key t.last_seq,
  lookup-insert_self key n (erase key t.last_seq),
  lookup-nil {Value = ℕ} key,
  lookup-insert_self {Value = ℕ} key n [],
)

-- A negative tolerance is as good as an unlimited one: since the cast to `uint64_t` wraps, no
-- message that skips forward, by less than 2 ^ 63, is refused.
pub check_negative_tolerance :
    (t : SequenceTracker) (key : ChannelSymbolKey) (k last n now : ℕ)
    → t.gap_tolerance ≡ negsuc k
    → k < 2 ^ 31
    → lookup key t.last_seq ≡ some last
    → last < n
    → n < 2 ^ 63
    → ((check t key n now).result ≡ true) × ((check t key n now).reported ≡ [])
unfolding check
check_negative_tolerance t key k last n now neg small h lt bound = ground arith
