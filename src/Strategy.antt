-- ===== src/Strategy.antt =====
-- The strategy engine: class StrategyEngine of src/internal/client_impl.hpp with
-- src/client/strategy_engine_impl.cpp, and the interface AlertStrategy of
-- include/kraken/strategies/base.hpp.
--
-- `F` stands for `double`. A strategy is an object behind a shared pointer, which two entries may
-- share: an entry holds its address, and the objects are a function from addresses to their states.
-- The virtual methods of the abstract class are the record `AlertStrategy` over such states. The
-- alerts handed to callbacks are returned in their order; callbacks are taken not to throw. The clock
-- is a function from the id of the entry that fires. The iteration order of the hash map is that of
-- the list of entries. Each call holds the mutex, and is one step.
pub mod Evaluation
pub mod Entries
pub mod Enabling
mod Tests
use Prim.Native.String.{len}
use kraken_sdk.Common.{
  ℕ, suc, ◌≡◌, String, Bool, true, false, not, ◌&&◌, nat_beq, ltb, if◌then◌else◌, Option, none,
  some, List, [], ◌∷◌, ◌++◌, contains, string_key, nat_key, ◌==◌, lookup, insert, erase, length,
  map,
}
use kraken_sdk.Book.{OrderBook}
use kraken_sdk.Market.{Ticker, Trade, Ohlc, Middle, mid_price}

pub record Alert (F : Type 0) : Type 0 where
  pub strategy_name : String
  pub symbol : String
  pub price : F
  pub message : String
  pub timestamp : ℕ

-- What an evaluation is given: the five overloads of `evaluate` and of `check`.
pub data Update (F : Type 0) : Type 0 where
  on_ticker : Ticker F → Update F
  on_book : OrderBook F → Update F
  on_trade : Trade F → Update F
  on_both : Ticker F → OrderBook F → Update F
  on_ohlc : Ohlc F → Update F

-- The virtual methods, on the state of an object; `check` may change it.
pub record AlertStrategy (F S : Type 0) : Type 0 where
  pub check : Update F → S → Bool × S
  pub name : S → String
  pub symbols : S → List String
  pub get_alert_message : S → Ticker F → String
  pub needs_orderbook : S → Bool
  pub needs_trades : S → Bool
  pub needs_ohlc : S → Bool
  pub is_enabled : S → Bool
  pub enable : S → S
  pub disable : S → S

pub record Entry : Type 0 where
  pub strategy : ℕ  -- the address of the object
  pub callback : ℕ
  pub enabled : Bool

pub record StrategyEngine : Type 0 where
  pub strategies : List (ℕ × Entry)
  pub next_id : ℕ

-- A call of the callback of the entry `id`.
pub record Fired (F : Type 0) : Type 0 where
  pub id : ℕ
  pub callback : ℕ
  pub alert : Alert F

abbrev pub store : {S : Type 0} → (ℕ → S) → ℕ → S → ℕ → S
store objects p s q = if nat_beq q p then s else objects q

unfoldable pub add : StrategyEngine → ℕ → ℕ → StrategyEngine × ℕ
add e strategy callback = (
  record {
    strategies =
        insert e.next_id (record { strategy = strategy; callback = callback; enabled = true })
          e.strategies;
    next_id = suc e.next_id;
  },
  e.next_id,
)

unfoldable pub remove : StrategyEngine → ℕ → StrategyEngine
remove e id = record e { strategies = erase id e.strategies }

unfoldable pub count : StrategyEngine → ℕ
count e = length e.strategies

module _ {F S : Type 0} (m : Middle F) (v : AlertStrategy F S) where
  -- `Ticker{}`, and the ticker made for a message.
  abbrev pub empty_ticker : Ticker F
  empty_ticker = record {
    symbol = "";
    bid = m.zero;
    ask = m.zero;
    last = m.zero;
    volume_24h = m.zero;
    high_24h = m.zero;
    low_24h = m.zero;
    timestamp = "";
  }

  abbrev pub symbol_of : Update F → String
  symbol_of (on_ticker t) = t.symbol
  symbol_of (on_book b) = b.symbol
  symbol_of (on_trade t) = t.symbol
  symbol_of (on_both t b) = t.symbol
  symbol_of (on_ohlc o) = o.symbol

  abbrev pub needs : Update F → S → Bool
  needs (on_ticker t) s = true
  needs (on_book b) s = v.needs_orderbook s
  needs (on_trade t) s = v.needs_trades s
  needs (on_both t b) s = true
  needs (on_ohlc o) s = v.needs_ohlc s

  abbrev pub price_of : Update F → F
  price_of (on_ticker t) = t.last
  price_of (on_book b) = mid_price m b
  price_of (on_trade t) = t.price
  price_of (on_both t b) = t.last
  price_of (on_ohlc o) = o.close

  abbrev pub message_ticker : Update F → Ticker F
  message_ticker (on_ticker t) = t
  message_ticker (on_book b) = empty_ticker
  message_ticker (on_trade t) = record empty_ticker { symbol = t.symbol; last = t.price }
  message_ticker (on_both t b) = t
  message_ticker (on_ohlc o) = record empty_ticker { symbol = o.symbol; last = o.close }

  abbrev pub default_message : Update F → String
  default_message (on_ticker t) = "Strategy condition met"
  default_message (on_book b) = "Strategy condition met (order book)"
  default_message (on_trade t) = "Strategy condition met (trade)"
  default_message (on_both t b) = "Strategy condition met (ticker + order book)"
  default_message (on_ohlc o) = "Strategy condition met (OHLC)"

  -- The alert, made from the state that `check` leaves.
  unfoldable pub alert_of : Update F → S → ℕ → Alert F
  alert_of u s now =
      let custom = v.get_alert_message s (message_ticker u) in
      record {
        strategy_name = v.name s;
        symbol = symbol_of u;
        price = price_of u;
        message = if ltb 0 (len custom) then custom else default_message u;
        timestamp = now;
      }

  -- The body of the loop, for one entry.
  unfoldable pub visit : Update F → (ℕ → ℕ) → ℕ × Entry → (ℕ → S) → (ℕ → S) × List (Fired F)
  visit u clock (id, entry) objects =
      let s = objects entry.strategy in
      let (hit, s') = v.check u s in
      if not (entry.enabled && v.is_enabled s)
      then (objects, [])
      else if not (needs u s)
      then (objects, [])
      else if not (contains (symbol_of u) (v.symbols s))
      then (objects, [])
      else (
        store objects entry.strategy s',
        (if hit
            then record { id = id; callback = entry.callback; alert = alert_of u s' (clock id) }
              ∷ []
            else []),
      )

  unfoldable pub evaluate :
      Update F → (ℕ → ℕ) → List (ℕ × Entry) → (ℕ → S) → (ℕ → S) × List (Fired F)
  evaluate u clock [] objects = (objects, [])
  evaluate u clock (entry ∷ entries) objects =
      let (objects', fired) = visit u clock entry objects in
      let (objects'', more) = evaluate u clock entries objects' in (objects'', fired ++ more)

  -- What `enable` and `disable` do to the entry that they find.
  abbrev pub switch :
      Bool → (S → S) → StrategyEngine → (ℕ → S) → ℕ → Option Entry → StrategyEngine × (ℕ → S)
  switch on f e objects id none = (e, objects)
  switch on f e objects id (some entry) = (
    record e { strategies = insert id (record entry { enabled = on }) e.strategies },
    store objects entry.strategy (f (objects entry.strategy)),
  )

  unfoldable pub enable : StrategyEngine → (ℕ → S) → ℕ → StrategyEngine × (ℕ → S)
  enable e objects id = switch true v.enable e objects id (lookup id e.strategies)

  unfoldable pub disable : StrategyEngine → (ℕ → S) → ℕ → StrategyEngine × (ℕ → S)
  disable e objects id = switch false v.disable e objects id (lookup id e.strategies)

  abbrev pub enabled_at : (ℕ → S) → Option Entry → Bool
  enabled_at objects none = false
  enabled_at objects (some entry) = entry.enabled && v.is_enabled (objects entry.strategy)

  unfoldable pub is_enabled : StrategyEngine → (ℕ → S) → ℕ → Bool
  is_enabled e objects id = enabled_at objects (lookup id e.strategies)

  unfoldable pub get_alerts : StrategyEngine → (ℕ → S) → List (ℕ × String)
  get_alerts e objects = map (λ entry. (entry.0, v.name (objects entry.1.strategy))) e.strategies
