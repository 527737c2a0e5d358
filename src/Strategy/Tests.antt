-- ===== src/Strategy/Tests.antt =====
-- The theorems about the strategy engine with strategies that ask for a price above a bound.
use kraken_sdk.Common.{ℕ, ◌+◌, ◌*◌, ◌/◌, ◌≡◌, refl, Bool, true, false, ltb, List, [], ◌∷◌, arith}
use kraken_sdk.Market.{Middle}
use kraken_sdk.Strategy.{
  AlertStrategy, Update, on_ticker, on_book, on_trade, on_both, on_ohlc, Entry, StrategyEngine,
  evaluate, disable,
}
use kraken_sdk.Strategy.Evaluation.{all_expected, evaluate-all_expected}
use kraken_sdk.Strategy.Entries.{IsValid, fired_for}
use kraken_sdk.Strategy.Enabling.{Call, adds, enables, evaluates, run, disable_silences}

abbrev halves : Middle ℕ
halves = record { zero = 0; middle = λ x y. (x + y) / 2 }

-- The state of a strategy: its bound, and whether it is enabled.
abbrev above : Update ℕ → ℕ × Bool → Bool × (ℕ × Bool)
above (on_ticker t) s = (ltb s.0 t.last, s)
above (on_both t b) s = (ltb s.0 t.last, s)
above _ s = (false, s)

abbrev price_above : AlertStrategy ℕ (ℕ × Bool)
price_above = record {
  check = above;
  name = λ s. "PriceAbove";
  symbols = λ s. "BTC/USD" ∷ [];
  get_alert_message = λ s t. "";
  needs_orderbook = λ s. false;
  needs_trades = λ s. false;
  needs_ohlc = λ s. false;
  is_enabled = λ s. s.1;
  enable = λ s. (s.0, true);
  disable = λ s. (s.0, false);
}

abbrev bitcoin : Update ℕ
bitcoin = on_ticker (record {
  symbol = "BTC/USD";
  bid = 99;
  ask = 101;
  last = 100;
  volume_24h = 5;
  high_24h = 120;
  low_24h = 80;
  timestamp = "";
})

-- The object at the address `p` has the bound `60 * p`.
abbrev bounds : ℕ → ℕ × Bool
bounds p = (60 * p, true)

abbrev two_entries : List (ℕ × Entry)
two_entries =
    (1, record { strategy = 1; callback = 7; enabled = true })
    ∷ (2, record { strategy = 2; callback = 8; enabled = true })
    ∷ []

abbrev engine : StrategyEngine
engine = record { strategies = two_entries; next_id = 3 }

engine-IsValid : IsValid engine
engine-IsValid = record {
  below = (ground arith, (ground arith, tt));
  unique = ((ground arith, tt), (tt, tt));
}

abbrev calls : List (Call ℕ)
calls = evaluates bitcoin (λ i. i) ∷ adds 1 9 ∷ enables 2 ∷ evaluates bitcoin (λ i. i) ∷ []

-- Only the first strategy finds the price above its bound, and only while its entry is enabled.
fires_once : fired_for 1 (evaluate halves price_above bitcoin (λ i. i) two_entries bounds).1 ≡ 1
unfolding evaluate kraken_sdk.Strategy.visit
fires_once = refl

evaluate-all_expected_example :
    (evaluate halves price_above bitcoin (λ i. i) two_entries bounds).1
    ≡ all_expected halves price_above bitcoin (λ i. i) bounds two_entries
evaluate-all_expected_example =
    evaluate-all_expected halves price_above bitcoin (λ i. i) two_entries bounds
      ((ground arith, tt), (tt, tt))

disable_silences_example :
    let (e', objects') = disable halves price_above engine bounds 1 in
    fired_for 1 (run halves price_above e' objects' calls).1 ≡ 0
disable_silences_example =
    disable_silences halves price_above 1 engine bounds calls engine-IsValid (ground arith)
      (ground arith, tt)
