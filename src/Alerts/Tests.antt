-- ===== src/Alerts/Tests.antt =====
-- The built-in strategies on concrete tickers, with whole numbers for the prices.
use kraken_sdk.Common.{
  all_of, ◌&&◌, ℕ, suc, ◌+◌, ◌-◌, ◌*◌, ◌/◌, ◌≡◌, refl, true, false, ltb, leb, nat_beq,
  if◌then◌else◌, List, [], ◌∷◌, arith,
}
use kraken_sdk.Common.{String, none, some, string_key, ◌==◌, lookup, insert}
use kraken_sdk.Common.Int.{pos}
use kraken_sdk.Common.Texts.{codes, lower, begins_with, joined}
use kraken_sdk.Alerts.Symbols.{listed_symbols, split_commas, trim_all, trim_back, trim_front}
use kraken_sdk.Alerts.Setup.{
  Readers, volume, key, get_required, parse_double, parse_int, create_volume_spike, from_map,
  read_lines, split_line, from_env,
}
use kraken_sdk.Alerts.Making.{Explained, from_map-Explained}
use kraken_sdk.Market.{Ticker}
use kraken_sdk.Alerts.{Prices, PriceAlert, VolumeSpike, price_alert, check_price}
use kraken_sdk.Alerts.Price.{firings, Spaced, firings-Spaced}
use kraken_sdk.Alerts.Composite.{
  Part, or, Composite, check_composite, verdict, hits, check_composite-verdict,
}

abbrev prices : Prices ℕ
prices = record {
  zero = 0;
  highest = 1000000;
  lowest = 0;
  same = nat_beq;
  less = ltb;
  at_least = λ a b. leb b a;
  minus = ◌-◌;
  plus = ◌+◌;
  times = ◌*◌;
  over = ◌/◌;
  change_percent = λ last prev. (last - prev) * 100 / prev;
  text = λ n. "n";
}

abbrev at : ℕ → Ticker ℕ
at last = record {
  symbol = "BTC/USD";
  bid = last;
  ask = last;
  last = last;
  volume_24h = last;
  high_24h = last;
  low_24h = last;
  timestamp = "";
}

-- Above 100, with a cooldown of one second.
abbrev alert : PriceAlert ℕ
alert = price_alert prices "BTC/USD" 100 0 true 1000

abbrev once : PriceAlert ℕ
once = price_alert prices "BTC/USD" 100 0 false 0

abbrev seen : List (Ticker ℕ × ℕ)
seen = (at 150, 5) ∷ (at 160, 999999) ∷ (at 90, 2000000000) ∷ (at 170, 2000000005) ∷ []

abbrev spike : VolumeSpike ℕ
spike = record { symbols = []; multiplier = 2; lookback = 2; states = [] }

alert_fires : firings prices alert seen ≡ 5 ∷ 2000000005 ∷ []
unfolding firings check_price price_alert
alert_fires = refl

once_fires : firings prices once seen ≡ 5 ∷ []
unfolding firings check_price price_alert
once_fires = refl

firings-Spaced_example : Spaced 1000000000 0 (firings prices alert seen)
unfolding price_alert
firings-Spaced_example = firings-Spaced prices alert seen (
  omega arith,
  omega arith,
  (omega arith, omega arith, (omega arith, omega arith, (omega arith, omega arith, tt))),
)

-- A part that counts its checks and agrees from its threshold on.
abbrev counted : Part (ℕ × ℕ) ℕ
counted = record {
  is_enabled = λ s. true;
  check = λ s x. ((s.0, suc s.1), leb s.0 x);
  enable = λ s. s;
  disable = λ s. s;
  reset = λ s. (s.0, 0);
  needs_orderbook = λ s. false;
}

abbrev pair : Composite (ℕ × ℕ)
pair = record { logic = or; strategies = (5, 0) ∷ (7, 0) ∷ []; enabled = true }

check_composite-verdict_example : (check_composite counted pair 6).1 ≡ (
    if pair.enabled && all_of counted.is_enabled pair.strategies
    then verdict counted or (hits counted 6 pair.strategies)
    else false)
check_composite-verdict_example = check_composite-verdict counted pair 6

-- A reader that knows two numbers.
abbrev readers : Readers ℕ
readers = record {
  stod = λ s. if s == "500" then some 500 else none;
  stoi = λ s. if s == "7" then some (pos 7) else none;
  one = 1;
  two = 2;
  ten = 10;
}

abbrev volume_lines : List String
volume_lines =
    "HOME=/root" ∷ "STRATEGY_TYPE=Volume_Spike" ∷ "STRATEGY_SYMBOLS= BTC/USD, ,ETH/USD\t"
    ∷ "STRATEGY_LOOKBACK=7" ∷ []

abbrev volume_config : List (String × String)
volume_config =
    ("STRATEGY_TYPE", "Volume_Spike")
    ∷ ("STRATEGY_SYMBOLS", " BTC/USD, ,ETH/USD\t")
    ∷ ("STRATEGY_LOOKBACK", "7")
    ∷ []

from_map-Explained_example :
    Explained prices readers volume_config "STRATEGY_"
      (lookup (key prices readers volume_config "STRATEGY_" "TYPE") volume_config)
      (from_map prices readers volume_config "STRATEGY_")
from_map-Explained_example = from_map-Explained prices readers volume_config "STRATEGY_"

makes_spike :
    from_env prices readers "STRATEGY_" volume_lines
    ≡ some (
        volume (record {
          symbols = "BTC/USD" ∷ "ETH/USD" ∷ [];
          multiplier = 2;
          lookback = 7;
          states = [];
        }))
unfolding from_env read_lines split_line insert lookup begins_with codes lower from_map key joined
    create_volume_spike get_required parse_double parse_int listed_symbols split_commas trim_all
    trim_back trim_front
makes_spike = refl
