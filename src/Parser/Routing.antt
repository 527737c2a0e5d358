-- ===== src/Parser/Routing.antt =====
-- `parse_message` of src/parser.cpp: which kind of message a text is.
use kraken_sdk.Common.{
  ℕ, String, Bool, true, false, not, ◌&&◌, ◌||◌, if◌then◌else◌, Option, none, some, List, [], ◌∷◌,
  string_key, ◌==◌,
}
use kraken_sdk.Common.Texts.{mentions}
use kraken_sdk.Market.{
  Ticker, ErrorCode, parse_error, authentication_failed, invalid_symbol, rate_limited, MessageType,
  ticker_type, trade_type, book_type, ohlc_type, order_type, own_trade_type, balance_type,
  error_type, subscribed_type, unsubscribed_type, heartbeat_type, Acknowledgement, MessageData,
  of_ticker, of_trade, of_book, of_ohlc, of_order, of_own_trade, of_balances, of_error,
  of_subscribed, of_unsubscribed, of_heartbeat, Message,
}
use kraken_sdk.Parser.{
  Json, bind_option, get_string, parse_ticker, parse_trade, parse_book, parse_ohlc, parse_order,
  parse_own_trade, parse_balances,
}

abbrev pub has_auth_keyword : String → Bool
has_auth_keyword e =
    mentions e "auth"
    || (mentions e "unauthorized" || (mentions e "api key" || mentions e "api secret"))

abbrev pub has_token_issue : String → Bool
has_token_issue e =
    mentions e "invalid token"
    || (mentions e "token"
        && (mentions e "invalid" || (mentions e "expired" || mentions e "missing")))

abbrev pub has_auth_status : String → Bool
has_auth_status e = mentions e "401" || mentions e "403"

abbrev pub has_rate_limit : String → Bool
has_rate_limit e =
    mentions e "rate limit"
    || (mentions e "ratelimit" || (mentions e "too many" || mentions e "429"))

-- The code of a refused subscription, by the words of its error text.
unfoldable pub error_code_of : String → ErrorCode
error_code_of e =
    if has_auth_keyword e || (has_token_issue e || has_auth_status e)
    then authentication_failed
    else if has_rate_limit e
    then rate_limited
    else invalid_symbol

abbrev pub push_string : Option String → List String → List String
push_string none rest = rest
push_string (some s) rest = s ∷ rest

module _ {V F : Type 0} (j : Json V F) where
  -- `Message msg` with the first assignments to it.
  abbrev pub blank : Message F
  blank = record {
    type = heartbeat_type;
    content = of_heartbeat;
    channel = "";
    symbol = "";
    sequence = 0;
    has_sequence = false;
  }

  abbrev pub holding : Message F → MessageType → MessageData F → Message F
  holding msg type content = record msg { type = type; content = content }

  abbrev pub failing : Message F → ErrorCode → String → String → Message F
  failing msg code message raw =
      holding msg error_type (of_error (record { code = code; message = message; details = raw }))

  -- The strings of an array; its other elements are passed over.
  unfoldable pub strings_of : List V → List String
  strings_of [] = []
  strings_of (v ∷ vs) = push_string (j.as_string v) (strings_of vs)

  -- The symbols of a result: one string, or the strings of an array.
  abbrev pub symbols_in : Option String → Option (List V) → List String
  symbols_in (some s) vs = s ∷ []
  symbols_in none (some vs) = strings_of vs
  symbols_in none none = []

  abbrev pub result_of : Option V → Acknowledgement
  result_of none = record { channel = ""; symbols = [] }
  result_of (some result) =
      if j.is_object result
      then record {
        channel = get_string j result "channel" "";
        symbols =
            symbols_in (bind_option (j.find result "symbol") j.as_string)
              (bind_option (j.find result "symbol") j.as_array);
      }
      else record { channel = ""; symbols = [] }

  -- An answer to a request, by its member `success`.
  unfoldable pub system_message : V → String → String → Option Bool → Message F
  system_message doc method raw none = blank
  system_message doc method raw (some true) =
      let ack = result_of (j.find doc "result") in
      if method == "subscribe"
      then holding blank subscribed_type (of_subscribed ack)
      else holding blank unsubscribed_type (of_unsubscribed ack)
  system_message doc method raw (some false) =
      let text = get_string j doc "error" "Subscription failed" in
      failing blank (error_code_of text) text raw

  abbrev pub ticker_message : Message F → String → Option (Ticker F) → Message F
  ticker_message msg raw none = failing msg parse_error "Ticker contains non-numeric fields" raw
  ticker_message msg raw (some t) = holding msg ticker_type (of_ticker t)

  -- The root's `data` is an array here, so that the code's second try, at the root, never applies.
  abbrev pub balance_message : Message F → V → Message F
  balance_message msg v =
      if j.is_object v
      then holding msg balance_type (of_balances (parse_balances j v))
      else record msg { type = balance_type }

  -- By the channel.
  unfoldable pub route : Message F → String → V → String → String → Message F
  route msg channel v symbol raw =
      if channel == "ticker"
      then ticker_message msg raw (parse_ticker j v symbol)
      else if channel == "trade"
      then holding msg trade_type (of_trade (parse_trade j v symbol))
      else if channel == "book"
      then holding msg book_type (of_book (parse_book j v symbol))
      else if channel == "ohlc"
      then holding msg ohlc_type (of_ohlc (parse_ohlc j v symbol))
      else if channel == "openOrders"
      then holding msg order_type (of_order (parse_order j v))
      else if channel == "ownTrades"
      then holding msg own_trade_type (of_own_trade (parse_own_trade j v))
      else if channel == "balances"
      then balance_message msg v
      else msg

  abbrev pub numbered : Message F → Option ℕ → Message F
  numbered msg none = msg
  numbered msg (some n) = record msg { sequence = n; has_sequence = true }

  -- By the member `data`: only its first element is read.
  unfoldable pub data_message : V → String → String → Option (List V) → Message F
  data_message doc channel raw none = blank
  data_message doc channel raw (some []) = blank
  data_message doc channel raw (some (v ∷ vs)) =
      let symbol = get_string j v "symbol" "" in
      let msg =
        numbered (record blank { channel = channel; symbol = symbol })
          (bind_option (j.find doc "sequence") j.as_uint64) in
      route msg channel v symbol raw

  unfoldable pub parse_object : V → String → Message F
  parse_object doc raw =
      let method = get_string j doc "method" "" in
      let channel = get_string j doc "channel" "" in
      if (method == "") && (channel == "")
      then failing blank parse_error "Invalid message format (missing method/channel)" raw
      else if (method == "subscribe") || (method == "unsubscribe")
      then system_message doc method raw (bind_option (j.find doc "success") j.as_bool)
      else if channel == "heartbeat"
      then blank
      else data_message doc channel raw (bind_option (j.find doc "data") j.as_array)

  abbrev pub parse_document : String → Option V → Message F
  parse_document raw none = failing blank parse_error "Failed to parse JSON" raw
  parse_document raw (some doc) =
      if not (j.is_object doc)
      then failing blank parse_error "Invalid message format (not an object)" raw
      else parse_object doc raw

  unfoldable pub parse_message : String → Message F
  parse_message raw = parse_document raw (j.parse raw)
