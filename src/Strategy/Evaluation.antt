-- ===== src/Strategy/Evaluation.antt =====
-- What an evaluation fires.
use kraken_sdk.Common.{
  ℕ, ◌≡◌, ◌≢◌, refl, Bool, ◌&&◌, nat_beq_iff, if◌then◌else◌, String, true, List, [], ◌∷◌, ◌++◌,
  contains, string_key, arith,
}
use kraken_sdk.Market.{Middle}
use kraken_sdk.Strategy.{
  AlertStrategy, Update, on_ticker, on_book, on_trade, on_both, on_ohlc, Entry, Fired, mid_price,
  alert_of, visit, evaluate,
}

-- No entry of the list has the address `p`.
abbrev pub Apart : ℕ → List (ℕ × Entry) → Type 0
Apart p [] = Unit
Apart p (entry ∷ entries) = (entry.1.strategy ≢ p) × Apart p entries

abbrev pub Unshared : List (ℕ × Entry) → Type 0
Unshared [] = Unit
Unshared (entry ∷ entries) = Apart entry.1.strategy entries × Unshared entries

module _ {F S : Type 0} (m : Middle F) (v : AlertStrategy F S) where
  -- What a strategy has to want: a ticker, alone or with a book, is for all of them; a book, a trade
  -- or a candle is for those that need books, trades or candles.
  abbrev pub wants : Update F → S → Bool
  wants (on_ticker t) s = true
  wants (on_book b) s = v.needs_orderbook s
  wants (on_trade t) s = v.needs_trades s
  wants (on_both t b) s = true
  wants (on_ohlc o) s = v.needs_ohlc s

  -- The symbol that the data is about.
  abbrev pub subject : Update F → String
  subject (on_ticker t) = t.symbol
  subject (on_book b) = b.symbol
  subject (on_trade t) = t.symbol
  subject (on_both t b) = t.symbol
  subject (on_ohlc o) = o.symbol

  -- The price of the alert; for a book between its best levels, if it has both.
  abbrev pub quoted : Update F → F
  quoted (on_ticker t) = t.last
  quoted (on_book b) = mid_price m b
  quoted (on_trade t) = t.price
  quoted (on_both t b) = t.last
  quoted (on_ohlc o) = o.close

  -- Whether an entry is asked for its condition: it and its strategy are enabled, and the strategy
  -- wants this kind of data and this symbol.
  abbrev pub asked : Update F → S → Entry → Bool
  asked u s entry =
      entry.enabled && (v.is_enabled s && (wants u s && contains (subject u) (v.symbols s)))

  -- The alert of an entry, given the state of its strategy before the evaluation.
  abbrev pub expected : Update F → (ℕ → ℕ) → (ℕ → S) → ℕ × Entry → List (Fired F)
  expected u clock objects (id, entry) =
      let (hit, s') = v.check u (objects entry.strategy) in
      if asked u (objects entry.strategy) entry && hit
      then record {
        id = id;
        callback = entry.callback;
        alert = record (alert_of m v u s' (clock id)) {
          strategy_name = v.name s';
          symbol = subject u;
          price = quoted u;
          timestamp = clock id;
        };
      }
        ∷ []
      else []

  abbrev pub all_expected : Update F → (ℕ → ℕ) → (ℕ → S) → List (ℕ × Entry) → List (Fired F)
  all_expected u clock objects [] = []
  all_expected u clock objects (entry ∷ entries) =
      expected u clock objects entry ++ all_expected u clock objects entries

  visit-expected :
      (u : Update F) (clock : ℕ → ℕ) (entry : ℕ × Entry) (objects : ℕ → S)
      → (visit m v u clock entry objects).1 ≡ expected u clock objects entry
  unfolding visit alert_of
  visit-expected (on_ticker t) clock (id, entry) objects = ground arith
  visit-expected (on_book b) clock (id, entry) objects = ground arith
  visit-expected (on_trade t) clock (id, entry) objects = ground arith
  visit-expected (on_both t b) clock (id, entry) objects = ground arith
  visit-expected (on_ohlc o) clock (id, entry) objects = ground arith

  visit_other :
      (u : Update F) (clock : ℕ → ℕ) (entry : ℕ × Entry) (objects : ℕ → S) (q : ℕ)
      → q ≢ entry.1.strategy
      → (visit m v u clock entry objects).0 q ≡ objects q
  unfolding visit
  visit_other u clock (id, entry) objects q ne = ground (arith, nat_beq_iff q entry.strategy)

  all_expected_same :
      (u : Update F) (clock : ℕ → ℕ) (objects objects' : ℕ → S) (p : ℕ) (entries : List (ℕ × Entry))
      → ((q : ℕ) → q ≢ p → objects' q ≡ objects q)
      → Apart p entries
      → all_expected u clock objects' entries ≡ all_expected u clock objects entries
  all_expected_same u clock objects objects' p [] same apart = refl
  all_expected_same u clock objects objects' p ((id, entry) ∷ entries) same apart =
      let here = same entry.strategy apart.0 in
      let ih = all_expected_same u clock objects objects' p entries same apart.1 in rw (here, ih)

  -- Where no two entries share a strategy, an evaluation fires, in the order of the entries, for just
  -- those entries that are enabled, whose strategy is enabled, wants this kind of data (tickers are
  -- for all, books, trades and candles for those that need them) and this symbol, and finds its condition met in the state before the evaluation: no entry influences
  -- another.
  pub evaluate-all_expected :
      (u : Update F) (clock : ℕ → ℕ) (entries : List (ℕ × Entry)) (objects : ℕ → S)
      → Unshared entries
      → (evaluate m v u clock entries objects).1 ≡ all_expected u clock objects entries
  unfolding evaluate
  evaluate-all_expected u clock [] objects h = refl
  evaluate-all_expected u clock (entry ∷ entries) objects h =
      let objects' = (visit m v u clock entry objects).0 in
      let here = visit-expected u clock entry objects in
      let later = evaluate-all_expected u clock entries objects' h.1 in
      let same =
        all_expected_same u clock objects objects' entry.1.strategy entries
          (visit_other u clock entry objects) h.0 in
      cc
