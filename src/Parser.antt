-- ===== src/Parser.antt =====
-- The message parser: src/parser.cpp, without the request builder (see Subscription).
--
-- rapidjson is not part of the repository: what the source uses of a parsed value is the record
-- `Json`, an argument of the definitions. `find obj key` is `HasMember` followed by `operator[]`;
-- rapidjson leaves it undefined where `obj` is no object, and nothing is assumed of it there.
-- `std::stod`, which may throw, is `stod`. `F` stands for `double`.
pub mod Routing
pub mod Tags
pub mod Errors
mod Tests
use kraken_sdk.Common.{
  ℕ, ◌≡◌, String, Bool, true, false, not, ◌&&◌, ◌||◌, if◌then◌else◌, Option, none, some, List, [],
  ◌∷◌, string_key, ◌==◌, lookup, insert,
}
use kraken_sdk.Common.Int.{ℤ, pos}
use kraken_sdk.Common.Texts.{mentions}
use kraken_sdk.Book.{PriceLevel, OrderBook}
use kraken_sdk.Market.{
  Side, buy, sell, OrderType, market, limit, OrderStatus, pending, open_order, closed, cancelled,
  expired, Ticker, Trade, Ohlc, Order, OwnTrade, Balance, ErrorCode, parse_error,
  authentication_failed, invalid_symbol, rate_limited, Error, MessageType, ticker_type, trade_type,
  book_type, ohlc_type, order_type, own_trade_type, balance_type, error_type, subscribed_type,
  unsubscribed_type, heartbeat_type, Acknowledgement, MessageData, of_ticker, of_trade, of_book,
  of_ohlc, of_order, of_own_trade, of_balances, of_error, of_subscribed, of_unsubscribed,
  of_heartbeat, Message,
}

pub record Json (V F : Type 0) : Type 0 where
  pub parse : String → Option V  -- `none`: HasParseError
  pub is_object : V → Bool
  pub find : V → String → Option V
  pub as_string : V → Option String
  pub as_number : V → Option F
  pub as_bool : V → Option Bool
  pub as_uint : V → Option ℕ
  pub as_uint64 : V → Option ℕ
  pub as_int : V → Option ℤ
  pub as_int64 : V → Option ℤ
  pub as_array : V → Option (List V)
  pub as_members : V → Option (List (String × V))  -- GetObject: names are strings
  pub stod : String → Option F
  pub zero : F
  pub plus : F → F → F

abbrev pub or_default : {A : Type 0} → Option A → A → A
or_default none d = d
or_default (some a) d = a

abbrev pub first_of : {A : Type 0} → Option A → Option A → Option A
first_of none o = o
first_of (some a) o = some a

abbrev pub bind_option : {A B : Type 0} → Option A → (A → Option B) → Option B
bind_option none f = none
bind_option (some a) f = f a

module _ {V F : Type 0} (j : Json V F) where
  unfoldable pub get_string : V → String → String → String
  get_string obj key def = or_default (bind_option (j.find obj key) j.as_string) def

  -- The number, or the number that the string stands for.
  abbrev pub numeric : V → Option F
  numeric v = first_of (j.as_number v) (bind_option (j.as_string v) j.stod)

  unfoldable pub get_double : V → String → F → F
  get_double obj key def = or_default (bind_option (j.find obj key) numeric) def

  -- The result and `out`; `none` stands for the result false.
  abbrev pub strict_of : Option V → F → Option F
  strict_of none def = some def
  strict_of (some v) def = numeric v

  unfoldable pub get_double_strict : V → String → F → Option F
  get_double_strict obj key def = strict_of (j.find obj key) def

  -- `none` stands for `ok == false`; the source then drops the ticker.
  unfoldable pub parse_ticker : V → String → Option (Ticker F)
  parse_ticker v symbol = bind_option (get_double_strict v "bid" j.zero) λ bid.
      bind_option (get_double_strict v "ask" j.zero) λ ask.
        bind_option (get_double_strict v "last" j.zero) λ last.
          bind_option (get_double_strict v "volume" j.zero) λ volume.
            bind_option (get_double_strict v "high" j.zero) λ high.
              bind_option (get_double_strict v "low" j.zero) λ low. some (record {
                symbol = symbol;
                bid = bid;
                ask = ask;
                last = last;
                volume_24h = volume;
                high_24h = high;
                low_24h = low;
                timestamp = get_string v "timestamp" "";
              })

  unfoldable pub side_of : V → Side
  side_of v = if get_string v "side" "" == "sell" then sell else buy

  unfoldable pub parse_trade : V → String → Trade F
  parse_trade v symbol = record {
    symbol = symbol;
    price = get_double v "price" j.zero;
    quantity = get_double v "qty" j.zero;
    side = side_of v;
    timestamp = get_string v "timestamp" "";
  }

  -- The loop of `parse_levels`: items that are no objects are passed over.
  unfoldable pub levels_of : List V → List (PriceLevel F)
  levels_of [] = []
  levels_of (item ∷ items) =
      let rest = levels_of items in
      if j.is_object item
      then record {
        price = get_double item "price" j.zero;
        quantity = get_double item "qty" j.zero;
      }
        ∷ rest
      else rest

  unfoldable pub parse_levels : Option V → List (PriceLevel F)
  parse_levels v = levels_of (or_default (bind_option v j.as_array) [])

  unfoldable pub parse_book : V → String → OrderBook F
  parse_book v symbol = record {
    symbol = symbol;
    bids = parse_levels (j.find v "bids");
    asks = parse_levels (j.find v "asks");
    is_valid = true;
    checksum = or_default (bind_option (j.find v "checksum") j.as_uint) 0;
  }

  unfoldable pub parse_ohlc : V → String → Ohlc F
  parse_ohlc v symbol = record {
    symbol = symbol;
    opening = get_double v "open" j.zero;
    high = get_double v "high" j.zero;
    low = get_double v "low" j.zero;
    close = get_double v "close" j.zero;
    volume = get_double v "volume" j.zero;
    timestamp = or_default (bind_option (j.find v "timestamp") j.as_int64) (pos 0);
    interval = or_default (bind_option (j.find v "interval") j.as_int) (pos 0);
  }

  abbrev pub status_map : List (String × OrderStatus)
  status_map =
      ("pending", pending)
      ∷ ("open", open_order)
      ∷ ("closed", closed)
      ∷ ("cancelled", cancelled)
      ∷ ("expired", expired)
      ∷ []

  unfoldable pub parse_order : V → Order F
  parse_order v =
      let quantity = get_double v "qty" j.zero in
      record {
        order_id = get_string v "order_id" "";
        symbol = get_string v "symbol" "";
        side = side_of v;
        type = if get_string v "type" "" == "market" then market else limit;
        status = or_default (lookup (get_string v "status" "") status_map) open_order;
        price = get_double v "price" j.zero;
        quantity = quantity;
        filled = get_double v "filled" j.zero;
        remaining = get_double v "remaining" quantity;
        timestamp = get_string v "timestamp" "";
        userref = get_string v "userref" "";
      }

  unfoldable pub parse_own_trade : V → OwnTrade F
  parse_own_trade v = record {
    trade_id = get_string v "trade_id" "";
    order_id = get_string v "order_id" "";
    symbol = get_string v "symbol" "";
    side = side_of v;
    price = get_double v "price" j.zero;
    quantity = get_double v "qty" j.zero;
    fee = get_double v "fee" j.zero;
    fee_currency = get_string v "fee_currency" "";
    timestamp = get_string v "timestamp" "";
  }

  -- The loop of `parse_balances`: a later member of a name replaces an earlier one.
  unfoldable pub balances_of :
      List (String × V) → List (String × Balance F) → List (String × Balance F)
  balances_of [] out = out
  balances_of ((currency, v) ∷ members) out =
      let available = get_double v "available" j.zero in
      let reserved = get_double v "reserved" j.zero in
      balances_of members (
        if j.is_object v
        then insert currency
            (record {
              currency = currency;
              available = available;
              reserved = reserved;
              total = j.plus available reserved;
            })
            out
        else out)

  unfoldable pub parse_balances : V → List (String × Balance F)
  parse_balances v = if j.is_object v then balances_of (or_default (j.as_members v) []) [] else []
