-- ===== src/Parser/Tests.antt =====
-- The theorems about the parser at concrete documents; whole numbers stand for doubles.
use kraken_sdk.Common.{
  ℕ, ◌+◌, ◌≡◌, refl, String, Bool, true, false, if◌then◌else◌, Option, none, some, List, [], ◌∷◌,
  string_key, ◌==◌,
}
use kraken_sdk.Market.{
  of_trade, of_subscribed, authentication_failed, rate_limited, trade_type, sell,
}
use kraken_sdk.Parser.{Json}
use kraken_sdk.Parser.Routing.{parse_message, error_code_of}
use kraken_sdk.Parser.Tags.{IsTagged, parse_message-IsTagged}
use kraken_sdk.Parser.Errors.{
  is_parse_error, error_of, malformed, KeepsText, parse_message-malformed,
}

mutual
  data Tree : Type 0 where
    text : String → Tree
    number : ℕ → Tree
    flag : Bool → Tree
    array : Trees → Tree
    object : Members → Tree

  data Trees : Type 0 where
    nil : Trees
    cons : Tree → Trees → Trees

  data Members : Type 0 where
    end : Members
    member : String → Tree → Members → Members

abbrev elements : Trees → List Tree
elements nil = []
elements (cons t ts) = t ∷ elements ts

abbrev members : Members → List (String × Tree)
members end = []
members (member k t ms) = (k, t) ∷ members ms

abbrev member_of : Members → String → Option Tree
member_of end key = none
member_of (member k t ms) key = let rest = member_of ms key in if k == key then some t else rest

abbrev find_in : Tree → String → Option Tree
find_in (object ms) key = member_of ms key
find_in _ key = none

abbrev string_in : Tree → Option String
string_in (text s) = some s
string_in _ = none

abbrev number_in : Tree → Option ℕ
number_in (number n) = some n
number_in _ = none

abbrev flag_in : Tree → Option Bool
flag_in (flag b) = some b
flag_in _ = none

abbrev array_in : Tree → Option (List Tree)
array_in (array ts) = some (elements ts)
array_in _ = none

abbrev members_in : Tree → Option (List (String × Tree))
members_in (object ms) = some (members ms)
members_in _ = none

abbrev is_object_tree : Tree → Bool
is_object_tree (object ms) = true
is_object_tree _ = false

abbrev one_trade : Tree
one_trade = object (
    member "channel" (text "trade") (
      member "sequence" (number 7) (
        member "data"
          (array (
            cons
              (object (
                member "symbol" (text "BTC/USD") (
                  member "price" (number 100)
                    (member "qty" (text "2") (member "side" (text "sell") end)))))
              nil))
          end)))

abbrev bad_ticker_text : Tree
bad_ticker_text = object (
    member "channel" (text "ticker")
      (member "data" (array (cons (object (member "bid" (flag true) end)) nil)) end))

abbrev accepted : Tree
accepted = object (
    member "method" (text "subscribe") (
      member "success" (flag true) (
        member "result"
          (object (
            member "channel" (text "book")
              (member "symbol" (array (cons (text "BTC/USD") (cons (number 1) nil))) end)))
          end)))

-- The parser knows three texts.
abbrev trees : Json Tree ℕ
trees = record {
  parse = λ raw.
      if raw == "trade"
      then some one_trade
      else if raw == "ticker"
      then some bad_ticker_text
      else if raw == "accepted"
      then some accepted
      else none;
  is_object = is_object_tree;
  find = find_in;
  as_string = string_in;
  as_number = number_in;
  as_bool = flag_in;
  as_uint = number_in;
  as_uint64 = number_in;
  as_int = λ t. none;
  as_int64 = λ t. none;
  as_array = array_in;
  as_members = members_in;
  stod = λ s. if s == "2" then some 2 else none;
  zero = 0;
  plus = λ x y. x + y;
}

-- A trade, with a quantity that is written as a string, and its sequence number.
parses_trade : parse_message trees "trade" ≡ record {
  type = trade_type;
  content =
      of_trade
        (record { symbol = "BTC/USD"; price = 100; quantity = 2; side = sell; timestamp = "" });
  channel = "trade";
  symbol = "BTC/USD";
  sequence = 7;
  has_sequence = true;
}
unfolding parse_message kraken_sdk.Parser.Routing.parse_object
    kraken_sdk.Parser.Routing.data_message kraken_sdk.Parser.Routing.route
    kraken_sdk.Parser.get_string kraken_sdk.Parser.parse_trade kraken_sdk.Parser.get_double
    kraken_sdk.Parser.side_of
parses_trade = refl

parses_answer :
    (parse_message trees "accepted").content
    ≡ of_subscribed (record { channel = "book"; symbols = "BTC/USD" ∷ [] })
unfolding parse_message kraken_sdk.Parser.Routing.parse_object
    kraken_sdk.Parser.Routing.system_message kraken_sdk.Parser.Routing.strings_of
    kraken_sdk.Parser.get_string
parses_answer = refl

codes_of_errors :
    (error_code_of "Invalid API key" ≡ authentication_failed)
    × (error_code_of "Too Many Requests" ≡ rate_limited)
unfolding error_code_of kraken_sdk.Common.Texts.mentions
codes_of_errors = (refl, refl)

parse_message-IsTagged_example : IsTagged (parse_message trees "trade")
parse_message-IsTagged_example = parse_message-IsTagged trees "trade"

parse_message-malformed_example :
    (is_parse_error (error_of (parse_message trees "ticker").content)
      ≡ malformed trees (some bad_ticker_text))
    × KeepsText "ticker" (error_of (parse_message trees "ticker").content)
parse_message-malformed_example = parse_message-malformed trees "ticker"
