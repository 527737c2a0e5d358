-- ===== src/Market.antt =====
-- The data of the client: include/kraken/core/types.hpp, struct Error of include/kraken/core/error.hpp,
-- and the messages of src/internal/client_impl.hpp.
--
-- `F` stands for `double`. A `std::variant` is a data type with a constructor for each alternative;
-- the tag `type` of a message is a field beside it, as in the source, and may disagree with it. The
-- alternative `std::monostate`, which no message of the client holds, is left out.
use kraken_sdk.Common.{ℕ, String, Bool, List, [], ◌∷◌}
use kraken_sdk.Common.Int.{ℤ}
use kraken_sdk.Book.{OrderBook, PriceLevel}

pub data Side : Type 0 where
  buy sell : Side

pub data OrderType : Type 0 where
  market limit : OrderType

pub data OrderStatus : Type 0 where
  pending open_order closed cancelled expired : OrderStatus

pub record Ticker (F : Type 0) : Type 0 where
  pub symbol : String
  pub bid : F
  pub ask : F
  pub last : F
  pub volume_24h : F
  pub high_24h : F
  pub low_24h : F
  pub timestamp : String

pub record Trade (F : Type 0) : Type 0 where
  pub symbol : String
  pub price : F
  pub quantity : F
  pub side : Side
  pub timestamp : String

-- The times are `int64_t` and `int`.
pub record Ohlc (F : Type 0) : Type 0 where
  pub symbol : String
  pub opening : F
  pub high : F
  pub low : F
  pub close : F
  pub volume : F
  pub timestamp : ℤ
  pub interval : ℤ

pub record Order (F : Type 0) : Type 0 where
  pub order_id : String
  pub symbol : String
  pub side : Side
  pub type : OrderType
  pub status : OrderStatus
  pub price : F
  pub quantity : F
  pub filled : F
  pub remaining : F
  pub timestamp : String
  pub userref : String

pub record OwnTrade (F : Type 0) : Type 0 where
  pub trade_id : String
  pub order_id : String
  pub symbol : String
  pub side : Side
  pub price : F
  pub quantity : F
  pub fee : F
  pub fee_currency : String
  pub timestamp : String

pub record Balance (F : Type 0) : Type 0 where
  pub currency : String
  pub available : F
  pub reserved : F
  pub total : F

pub data ErrorCode : Type 0 where
  no_error connection_failed connection_closed authentication_failed invalid_symbol : ErrorCode
  invalid_order rate_limited queue_overflow checksum_mismatch parse_error timeout : ErrorCode
  callback_error : ErrorCode

pub record Error : Type 0 where
  pub code : ErrorCode
  pub message : String
  pub details : String

pub data MessageType : Type 0 where
  ticker_type trade_type book_type ohlc_type order_type own_trade_type : MessageType
  balance_type error_type subscribed_type unsubscribed_type heartbeat_type : MessageType

-- SubscribedMsg and UnsubscribedMsg, which have the same fields.
pub record Acknowledgement : Type 0 where
  pub channel : String
  pub symbols : List String

pub data MessageData (F : Type 0) : Type 0 where
  of_ticker : Ticker F → MessageData F
  of_trade : Trade F → MessageData F
  of_book : OrderBook F → MessageData F
  of_ohlc : Ohlc F → MessageData F
  of_order : Order F → MessageData F
  of_own_trade : OwnTrade F → MessageData F
  of_balances : List (String × Balance F) → MessageData F
  of_error : Error → MessageData F
  of_subscribed : Acknowledgement → MessageData F
  of_unsubscribed : Acknowledgement → MessageData F
  of_heartbeat : MessageData F

-- `receive_time` stands with the readings of the clock.
pub record Message (F : Type 0) : Type 0 where
  pub type : MessageType
  pub content : MessageData F
  pub channel : String
  pub symbol : String
  pub sequence : ℕ
  pub has_sequence : Bool

module _ {F : Type 0} where
  -- Whether the variant holds the alternative that the tag names: what `holds` answers at the tag's
  -- branch of `dispatch`.
  abbrev pub tag : MessageData F → MessageType
  tag (of_ticker t) = ticker_type
  tag (of_trade t) = trade_type
  tag (of_book b) = book_type
  tag (of_ohlc o) = ohlc_type
  tag (of_order o) = order_type
  tag (of_own_trade t) = own_trade_type
  tag (of_balances b) = balance_type
  tag (of_error e) = error_type
  tag (of_subscribed a) = subscribed_type
  tag (of_unsubscribed a) = unsubscribed_type
  tag of_heartbeat = heartbeat_type

-- Operations on `double` that the client itself makes: `0.0`, `x + y`, `(x + y) / 2.0`.
pub record Middle (F : Type 0) : Type 0 where
  pub zero : F
  pub middle : F → F → F

abbrev pub mid_of : {F : Type 0} → Middle F → List (PriceLevel F) → List (PriceLevel F) → F
mid_of m [] asks = m.zero
mid_of m (b ∷ bids) [] = m.zero
mid_of m (b ∷ bids) (a ∷ asks) = m.middle b.price a.price

-- `OrderBook::mid_price`.
unfoldable pub mid_price : {F : Type 0} → Middle F → OrderBook F → F
mid_price m book = mid_of m book.bids book.asks
