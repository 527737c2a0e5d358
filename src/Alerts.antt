-- ===== src/Alerts.antt =====
-- The strategies that come with the client: include/kraken/strategies/price_alert.hpp,
-- spread_alert.hpp, volume_spike.hpp and composite.hpp.
--
-- `F` stands for `double`; the record `Prices` has what the strategies use of it. Times are readings of
-- the steady clock in nanoseconds; a time point that was never set is 0, the clock's epoch.
pub mod Price
pub mod Volume
pub mod Composite
pub mod Presets
pub mod Setup
pub mod Symbols
pub mod Making
mod Tests
use kraken_sdk.Common.{
  ℕ, suc, ◌+◌, ◌-◌, ◌*◌, ◌/◌, ◌%◌, ◌^◌, ◌≡◌, String, Bool, true, false, not, ◌&&◌, ◌||◌, ltb,
  nat_beq, if◌then◌else◌, Option, none, some, List, [], ◌∷◌, ◌++◌, string_key, ◌==◌, length, lookup,
  insert,
}
use kraken_sdk.Common.Texts.{joined}
use kraken_sdk.Market.{Ticker}

pub record Prices (F : Type 0) : Type 0 where
  pub zero : F
  pub highest : F  -- numeric_limits<double>::max()
  pub lowest : F
  pub same : F → F → Bool
  pub less : F → F → Bool  -- `<`, and `>` with its arguments swapped
  pub at_least : F → F → Bool  -- `>=`, and `<=` with its arguments swapped
  pub minus : F → F → F
  pub plus : F → F → F
  pub times : F → F → F
  pub over : F → ℕ → F  -- a sum divided by a count
  pub change_percent : F → F → F  -- `std::abs((last - prev) / prev * 100.0)`
  pub text : F → String  -- std::to_string

pub record PriceAlert (F : Type 0) : Type 0 where
  pub symbol : String
  pub above : F
  pub below : F
  pub recurring : Bool
  pub cooldown : ℕ
  pub fired : Bool
  pub fire_count : ℕ
  pub last_fired_time : ℕ
  pub last_price : F
  pub last_message : String

pub record SpreadAlert (F : Type 0) : Type 0 where
  pub symbol : String
  pub min_spread : F
  pub max_spread : F

pub record VolumeSpike (F : Type 0) : Type 0 where
  pub symbols : List String
  pub multiplier : F
  pub lookback : ℕ
  pub states : List (String × List F)  -- the history of each symbol, oldest first

-- `while (history.size() > lookback) history.pop_front();`
unfoldable pub trim : {A : Type 0} → ℕ → List A → List A
trim n [] = []
trim n (x ∷ xs) = let rest = trim n xs in if ltb n (suc (length xs)) then rest else x ∷ xs

abbrev pub history_or_new : {F : Type 0} → Option (List F) → List F
history_or_new none = []
history_or_new (some h) = h

module _ {F : Type 0} (d : Prices F) where
  unfoldable pub price_alert : String → F → F → Bool → ℕ → PriceAlert F
  price_alert symbol above below recurring cooldown = record {
    symbol = symbol;
    above = above;
    below = below;
    recurring = recurring;
    cooldown = cooldown;
    fired = false;
    fire_count = 0;
    last_fired_time = 0;
    last_price = d.zero;
    last_message = "";
  }

  abbrev pub is_above : PriceAlert F → Ticker F → Bool
  is_above p t = not (d.same p.above d.highest) && d.at_least t.last p.above

  abbrev pub is_below : PriceAlert F → Ticker F → Bool
  is_below p t = not (d.same p.below d.lowest) && d.at_least p.below t.last

  unfoldable pub build_message : PriceAlert F → Ticker F → F → String
  build_message p t prev =
      let head =
        if is_above p t
        then joined ("Price above $" ∷ d.text p.above ∷ " for " ∷ t.symbol ∷ [])
        else if is_below p t
        then joined ("Price below $" ∷ d.text p.below ∷ " for " ∷ t.symbol ∷ [])
        else joined ("Price alert: " ∷ t.symbol ∷ " = $" ∷ d.text t.last ∷ []) in
      if d.less d.zero prev
      then joined (
          head
          ∷ " (was $"
          ∷ d.text prev
          ∷ ", "
          ∷ d.text (d.change_percent t.last prev)
          ∷ "% change)"
          ∷ [])
      else head

  abbrev pub in_cooldown : PriceAlert F → ℕ → Bool
  in_cooldown p now =
      ltb 0 p.cooldown
      && (ltb 0 p.last_fired_time && ltb ((now - p.last_fired_time) / 1000000) p.cooldown)

  unfoldable pub check_price : PriceAlert F → Ticker F → ℕ → PriceAlert F × Bool
  check_price p t now =
      let p' = record p { last_price = t.last } in
      let triggered = (t.symbol == p.symbol) && (is_above p t || is_below p t) in
      if in_cooldown p now || (not p.recurring && p.fired)
      then (p, false)
      else if triggered
      then (
        record p' {
          fired = true;
          fire_count = (p.fire_count + 1) % 2 ^ 64;
          last_fired_time = now;
          last_message = build_message p' t p.last_price;
        },
        true,
      )
      else (p', false)

  unfoldable pub reset_price : PriceAlert F → PriceAlert F
  reset_price p = record p {
    fired = false;
    fire_count = 0;
    last_fired_time = 0;
    last_price = d.zero;
    last_message = "";
  }

  unfoldable pub get_price_message : PriceAlert F → Ticker F → String
  get_price_message p t = if p.last_message == "" then build_message p t d.zero else p.last_message

  unfoldable pub check_spread : SpreadAlert F → Ticker F → Bool
  check_spread s t =
      let spread = d.minus t.ask t.bid in
      if not (t.symbol == s.symbol)
      then false
      else d.less spread s.min_spread || d.less s.max_spread spread

  abbrev pub sum_all_but_last : F → List F → F
  sum_all_but_last acc [] = acc
  sum_all_but_last acc (x ∷ []) = acc
  sum_all_but_last acc (x ∷ y ∷ ys) = sum_all_but_last (d.plus acc x) (y ∷ ys)

  -- `none` is the read out of bounds of an empty history, where `size() - 1` wraps around.
  abbrev pub spikes : VolumeSpike F → F → List F → Option Bool
  spikes s volume [] = none
  spikes s volume (x ∷ xs) =
      some (
        d.less (d.times (d.over (sum_all_but_last d.zero (x ∷ xs)) (length xs)) s.multiplier)
          volume)

  unfoldable pub check_volume : VolumeSpike F → Ticker F → VolumeSpike F × Option Bool
  check_volume s t =
      let old = history_or_new (lookup t.symbol s.states) in
      let history = trim s.lookback (old ++ t.volume_24h ∷ []) in
      (
        record s { states = insert t.symbol history s.states },
        if ltb (length history) (s.lookback / 2) then some false else spikes s t.volume_24h history,
      )

  unfoldable pub reset_volume : VolumeSpike F → VolumeSpike F
  reset_volume s = record s { states = [] }
