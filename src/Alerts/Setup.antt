-- ===== src/Alerts/Setup.antt =====
-- Strategies from key-value pairs: src/strategies/strategy_config.cpp and
-- include/kraken/strategies/strategy_config.hpp.
--
-- A `std::map` is an association list. The library's readers of numbers and the constants of type
-- `double` are a record.
use kraken_sdk.Common.{
  ℕ, String, Bool, true, false, nat_beq, if◌then◌else◌, Option, none, some, List, [], ◌∷◌, map,
  string_key, lookup, insert,
}
use Prim.Native.Char.{code}
use kraken_sdk.Common.Int.{ℤ, pos, negsuc, cast_u64}
use kraken_sdk.Common.Texts.{codes, lower, joined, begins_with}
use kraken_sdk.Connection.Address.{same_text}
use kraken_sdk.Config.Environment.{parsed_or, is_true_text}
use kraken_sdk.Alerts.{Prices, PriceAlert, SpreadAlert, VolumeSpike, price_alert}
use kraken_sdk.Alerts.Composite.{Composite}
use kraken_sdk.Alerts.Presets.{Condition, LevelKind, support, resistance, LevelStrategy, breakout}
use kraken_sdk.Alerts.Symbols.{listed_symbols}

pub record Readers (F : Type 0) : Type 0 where
  pub stod : String → Option F
  pub stoi : String → Option ℤ
  pub one : F
  pub two : F
  pub ten : F

-- The exceptions, all `std::invalid_argument`; `missing_key` has the name of the key.
pub data SetupError : Type 0 where
  missing_type no_symbols unknown_type : SetupError
  missing_key : String → SetupError

pub data AnyStrategy (F : Type 0) : Type 0 where
  price : PriceAlert F → AnyStrategy F
  volume : VolumeSpike F → AnyStrategy F
  spread : SpreadAlert F → AnyStrategy F
  combined : Composite (Condition F) → AnyStrategy F
  level : LevelStrategy F → AnyStrategy F

pub data Setup (F : Type 0) : Type 0 where
  setup_error : SetupError → Setup F
  made : AnyStrategy F → Setup F

abbrev pub positive_int : ℤ → ℕ
positive_int (pos n) = n
positive_int (negsuc n) = 0

unfoldable pub parse_bool : String → Bool
parse_bool text = is_true_text text

abbrev pub parse_bool_or : Option String → Bool
parse_bool_or none = false
parse_bool_or (some text) = parse_bool text

-- The texts without regard to capitals in the first.
abbrev pub is_type : String → String → Bool
is_type text name = same_text (map lower (codes text)) (codes name)

-- The map and the prefix of its keys.
module _ {F : Type 0} (d : Prices F) (r : Readers F) (config : List (String × String))
    (prefix : String) where
  unfoldable pub key : String → String
  key name = joined (prefix ∷ name ∷ [])

  unfoldable pub parse_double : String → F → F
  parse_double name default = parsed_or (lookup (key name) config) r.stod default

  unfoldable pub parse_int : String → ℤ → ℤ
  parse_int name default = parsed_or (lookup (key name) config) r.stoi default

  unfoldable pub get_required : String → Option String
  get_required name = lookup (key name) config

  abbrev pub for_symbol : Option String → (String → AnyStrategy F) → Setup F
  for_symbol none make = setup_error (missing_key (key "SYMBOL"))
  for_symbol (some symbol) make = made (make symbol)

  -- The setters that leave the default value leave it as it is.
  unfoldable pub create_price_alert : Setup F
  create_price_alert = for_symbol (get_required "SYMBOL") (λ symbol. price (
      price_alert d symbol (parse_double "ABOVE" d.highest) (parse_double "BELOW" d.lowest)
        (parse_bool_or (lookup (key "RECURRING") config))
        (positive_int (parse_int "COOLDOWN_MS" (pos 0)))))

  abbrev pub volume_for : List String → Setup F
  volume_for [] = setup_error no_symbols
  volume_for (symbol ∷ symbols) = made (
      volume (record {
        symbols = symbol ∷ symbols;
        multiplier = parse_double "MULTIPLIER" r.two;
        lookback = cast_u64 (parse_int "LOOKBACK" (pos 50));
        states = [];
      }))

  abbrev pub volume_from : Option String → Setup F
  volume_from none = setup_error (missing_key (key "SYMBOLS"))
  volume_from (some text) = volume_for (listed_symbols text)

  unfoldable pub create_volume_spike : Setup F
  create_volume_spike = volume_from (get_required "SYMBOLS")

  unfoldable pub create_spread_alert : Setup F
  create_spread_alert = for_symbol (get_required "SYMBOL") (λ symbol.
      let least = parse_double "MIN_SPREAD" d.zero in
      spread (record {
        symbol = symbol;
        min_spread = if d.less d.zero least then least else d.zero;
        max_spread = parse_double "MAX_SPREAD" d.highest;
      }))

  unfoldable pub create_breakout : Setup F
  create_breakout = for_symbol (get_required "SYMBOL") (λ symbol. combined (
      breakout d symbol (parse_double "THRESHOLD" d.zero) (parse_double "VOLUME_MULTIPLIER" r.two)))

  unfoldable pub create_level : LevelKind → Setup F
  create_level kind = for_symbol (get_required "SYMBOL") (λ symbol. level (record {
    kind = kind;
    symbol = symbol;
    level = parse_double "LEVEL" d.zero;
    tolerance = parse_double "TOLERANCE" r.one;
    min_liquidity = parse_double "MIN_LIQUIDITY" r.ten;
  }))

  abbrev pub from_type : Option String → Setup F
  from_type none = setup_error missing_type
  from_type (some text) =
      if is_type text "price_alert"
      then create_price_alert
      else if is_type text "volume_spike"
      then create_volume_spike
      else if is_type text "spread_alert"
      then create_spread_alert
      else if is_type text "breakout"
      then create_breakout
      else if is_type text "support_level"
      then create_level support
      else if is_type text "resistance_level"
      then create_level resistance
      else setup_error unknown_type

  unfoldable pub from_map : Setup F
  from_map = from_type (lookup (key "TYPE") config)

abbrev pub or_null : {F : Type 0} → Setup F → Option (AnyStrategy F)
or_null (setup_error e) = none
or_null (made s) = some s

-- A line of the environment, split at the first `=`.
unfoldable pub split_line : String → Option (String × String)
split_line String.[] = none
split_line (String.◌∷◌ c s) =
    let rest = split_line s in
    if nat_beq (code c) b'='
    then some ("", s)
    else elim rest [ none ↦ none | some pair ↦ some (String.◌∷◌ c pair.0, pair.1) ]

abbrev pub put_entry :
    String → Option (String × String) → List (String × String) → List (String × String)
put_entry prefix none config = config
put_entry prefix (some (key, value)) config =
    if begins_with (codes key) (codes prefix) then insert key value config else config

-- The lines in their order; a later one replaces the value of an earlier one.
unfoldable pub read_lines : String → List String → List (String × String) → List (String × String)
read_lines prefix [] config = config
read_lines prefix (line ∷ lines) config =
    read_lines prefix lines (put_entry prefix (split_line line) config)

abbrev pub is_empty_map : List (String × String) → Bool
is_empty_map [] = true
is_empty_map (entry ∷ entries) = false

-- `none` is the null pointer.
unfoldable pub from_env :
    {F : Type 0} → Prices F → Readers F → String → List String → Option (AnyStrategy F)
from_env d r prefix lines =
    let config = read_lines prefix lines [] in
    if is_empty_map config then none else or_null (from_map d r config prefix)
