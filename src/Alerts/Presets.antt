-- ===== src/Alerts/Presets.antt =====
-- The strategies of include/kraken/strategies/presets.hpp, and the sums over an order book of
-- include/kraken/core/types.hpp that they use.
use kraken_sdk.Common.{
  ℕ, zero, suc, String, Bool, true, false, not, if◌then◌else◌, List, [], ◌∷◌, string_key, ◌==◌,
}
use kraken_sdk.Book.{OrderBook, PriceLevel}
use kraken_sdk.Market.{Ticker}
use kraken_sdk.Alerts.{Prices, PriceAlert, VolumeSpike, price_alert}
use kraken_sdk.Alerts.Composite.{Composite, and}

-- `std::abs(a - b)`, and `level * (tolerance / 100.0)`.
pub record Distances (F : Type 0) : Type 0 where
  pub distance : F → F → F
  pub percent_of : F → F → F

pub data LevelKind : Type 0 where
  support resistance : LevelKind

-- The classes SupportStrategy and ResistanceStrategy.
pub record LevelStrategy (F : Type 0) : Type 0 where
  pub kind : LevelKind
  pub symbol : String
  pub level : F
  pub tolerance : F
  pub min_liquidity : F

-- The strategies that a breakout combines.
pub data Condition (F : Type 0) : Type 0 where
  price_condition : PriceAlert F → Condition F
  volume_condition : VolumeSpike F → Condition F

module _ {F : Type 0} (d : Prices F) where
  -- Over the first levels, from the best on.
  unfoldable pub liquidity_from : F → ℕ → List (PriceLevel F) → F
  liquidity_from total zero levels = total
  liquidity_from total (suc n) [] = total
  liquidity_from total (suc n) (l ∷ levels) = liquidity_from (d.plus total l.quantity) n levels

  unfoldable pub total_bid_liquidity : OrderBook F → ℕ → F
  total_bid_liquidity b depth = liquidity_from d.zero depth b.bids

  unfoldable pub total_ask_liquidity : OrderBook F → ℕ → F
  total_ask_liquidity b depth = liquidity_from d.zero depth b.asks

  abbrev pub side_liquidity : LevelKind → OrderBook F → F
  side_liquidity support b = total_bid_liquidity b 5
  side_liquidity resistance b = total_ask_liquidity b 5

  -- `check(const Ticker&, const OrderBook&)`; all other checks are false.
  unfoldable pub check_level : Distances F → LevelStrategy F → Ticker F → OrderBook F → Bool
  check_level x s t b =
      if not (t.symbol == s.symbol)
      then false
      else if d.less (x.percent_of s.level s.tolerance) (x.distance t.last s.level)
      then false
      else d.at_least (side_liquidity s.kind b) s.min_liquidity

  -- The builders with the settings that `breakout` makes; a composite of two strategies is never
  -- refused.
  unfoldable pub breakout : String → F → F → Composite (Condition F)
  breakout symbol threshold multiplier = record {
    logic = and;
    strategies =
        price_condition (price_alert d symbol threshold d.lowest true 0)
        ∷ volume_condition
            (record { symbols = symbol ∷ []; multiplier = multiplier; lookback = 20; states = [] })
        ∷ [];
    enabled = true;
  }
