-- ===== src/Gap/Tests.antt =====
-- The theorems about gap detection at concrete inputs, and a run of the model.
use kraken_sdk.Common.{◌+◌, ◌≡◌, ◌≢◌, refl, true, false, some, [], ◌∷◌, arith, lookup, insert}
use kraken_sdk.Common.Int.{negsuc}
use kraken_sdk.Gap.{ChannelSymbolKey, key_eq, default_config, SequenceTracker, check, u64}
use kraken_sdk.Gap.Checks.{verdict, check-verdict}
use kraken_sdk.Gap.Streams.{check_all}

abbrev btc : ChannelSymbolKey
btc = record { channel = "ticker"; symbol = "BTC/USD" }

abbrev eth : ChannelSymbolKey
eth = record { channel = "ticker"; symbol = "ETH/USD" }

abbrev seen_five : SequenceTracker
seen_five = record {
  config = default_config;
  last_seq = (btc, 5) ∷ [];
  gap_count = 0;
  has_callback = true;
}

abbrev lenient : SequenceTracker
lenient = record seen_five { config = record default_config { gap_tolerance = negsuc 0 } }

-- In order, a gap of two, a duplicate, and in order again.
stream : (check_all seen_five ((btc, 6, 0) ∷ (btc, 9, 0) ∷ (btc, 9, 0) ∷ (btc, 10, 0) ∷ [])).1 ≡ 2
unfolding check_all check lookup insert
stream = refl

known_five : lookup btc seen_five.last_seq ≡ some 5
unfolding lookup
known_five = refl

check-verdict_example :
    ((check seen_five btc 9 0).result ≡ false)
    × (lookup btc (check seen_five btc 9 0).tracker.last_seq ≡ some 9)
    × ((check seen_five btc 9 0).tracker.gap_count ≡ u64 (0 + 1))
unfolding verdict check lookup insert
check-verdict_example = check-verdict seen_five btc 5 9 0 refl known_five (omega arith)

eth_not_btc : ◌≢◌ btc eth
eth_not_btc e = cc ((key_eq.same_key_iff btc eth).1 e)
