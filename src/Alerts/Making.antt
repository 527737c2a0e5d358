-- ===== src/Alerts/Making.antt =====
-- What `StrategyConfig::from_map` gives.
use kraken_sdk.Common.{
  ℕ, ap, ◌∙◌, map, any_of, ◌≡◌, ◌≢◌, refl, String, Bool, true, false, if◌then◌else◌, Option, none,
  some, List, [], ◌∷◌, arith, All, lookup, string_key,
}
use kraken_sdk.Common.Texts.{codes, lower, joined}
use kraken_sdk.Connection.Address.{same_text}
use kraken_sdk.Connection.Explanation.{same_text-eq}
use kraken_sdk.Alerts.{Prices, price_alert}
use kraken_sdk.Alerts.Presets.{LevelKind, support, resistance}
use kraken_sdk.Alerts.Symbols.{listed_symbols}
use kraken_sdk.Alerts.Setup.{
  Readers, missing_type, missing_key, no_symbols, unknown_type, AnyStrategy, price, volume, spread,
  combined, level, Setup, setup_error, made, key, get_required, for_symbol, create_price_alert,
  volume_for, volume_from, create_volume_spike, create_spread_alert, create_breakout, create_level,
  is_type, from_type, from_map,
}
use kraken_sdk.Alerts.Presets.{breakout}

abbrev pub type_of_level : LevelKind → String
type_of_level support = "support_level"
type_of_level resistance = "resistance_level"

-- The name of the type in the configuration.
abbrev pub type_of : {F : Type 0} → AnyStrategy F → String
type_of (price p) = "price_alert"
type_of (volume v) = "volume_spike"
type_of (spread s) = "spread_alert"
type_of (combined c) = "breakout"
type_of (level l) = type_of_level l.kind

abbrev pub type_names : List String
type_names =
    "price_alert" ∷ "volume_spike" ∷ "spread_alert" ∷ "breakout" ∷ "support_level"
    ∷ "resistance_level" ∷ []

abbrev pub is_volume : String → Bool
is_volume text = is_type text "volume_spike"

-- The key that a type asks for.
abbrev pub needed : String → String
needed text = if is_volume text then "SYMBOLS" else "SYMBOL"

abbrev pub is_known : String → Bool
is_known text = any_of (is_type text) type_names

same_text-wrong :
    (xs ys zs : List ℕ) → same_text xs ys ≡ true → same_text ys zs ≡ false → same_text xs zs ≡ false
same_text-wrong xs ys zs h k = ap (λ t. same_text t zs) (same_text-eq xs ys h) ∙ k

price-is_volume : (text : String) → is_type text "price_alert" ≡ true → is_volume text ≡ false
unfolding codes
price-is_volume text h =
    same_text-wrong (map lower (codes text)) (codes "price_alert") (codes "volume_spike") h refl

module _ {F : Type 0} (d : Prices F) (r : Readers F) (config : List (String × String))
    (prefix : String) where
  abbrev required : String → Option String
  required = get_required d r config prefix

  -- Where its symbols come from.
  abbrev pub Watches : AnyStrategy F → Type 0
  Watches (price p) = required "SYMBOL" ≡ some p.symbol
  Watches (volume v) =
      (text : String) × (required "SYMBOLS" ≡ some text)
      × (listed_symbols text ≡ v.symbols)
      × (v.symbols ≢ [])
  Watches (spread s) = required "SYMBOL" ≡ some s.symbol
  Watches (combined c) =
      (symbol : String) × (threshold multiplier : F) × (required "SYMBOL" ≡ some symbol)
      × (c ≡ breakout d symbol threshold multiplier)
  Watches (level l) = required "SYMBOL" ≡ some l.symbol

  abbrev pub Explained : Option String → Setup F → Type 0
  Explained type (setup_error missing_type) = type ≡ none
  Explained type (setup_error (missing_key name)) =
      (text : String) × (type ≡ some text)
      × (is_known text ≡ true)
      × (name ≡ joined (prefix ∷ needed text ∷ []))
      × (lookup name config ≡ none)
  Explained type (setup_error no_symbols) =
      (text : String) × (type ≡ some text)
      × (is_volume text ≡ true)
      × (listed : String) × (required "SYMBOLS" ≡ some listed)
      × (listed_symbols listed ≡ [])
  Explained type (setup_error unknown_type) =
      (text : String) × (type ≡ some text) × All (λ name. is_type text name ≡ false) type_names
  Explained type (made s) =
      (text : String) × (type ≡ some text) × (is_type text (type_of s) ≡ true) × Watches s

  for_symbol-Explained :
      (text : String) (symbol : Option String) (make : String → AnyStrategy F)
      → required "SYMBOL" ≡ symbol
      → is_volume text ≡ false
      → is_known text ≡ true
      → ((s : String) → is_type text (type_of (make s)) ≡ true)
      → ((s : String) → symbol ≡ some s → Watches (make s))
      → Explained (some text) (for_symbol d r config prefix symbol make)
  unfolding key get_required
  for_symbol-Explained text none make given other known kind watches =
      (text, refl, known, rw other refl, given)
  for_symbol-Explained text (some s) make given other known kind watches =
      (text, refl, kind s, watches s refl)

  volume_for-Explained :
      (text symbols : String) (ss : List String)
      → required "SYMBOLS" ≡ some symbols
      → listed_symbols symbols ≡ ss
      → is_volume text ≡ true
      → Explained (some text) (volume_for d r config prefix ss)
  volume_for-Explained text symbols [] given parts kind = (text, refl, kind, symbols, given, parts)
  volume_for-Explained text symbols (s ∷ ss) given parts kind =
      (text, refl, kind, (symbols, given, parts, λ e. ground arith))

  volume_from-Explained :
      (text : String) (symbols : Option String)
      → required "SYMBOLS" ≡ symbols
      → is_volume text ≡ true
      → is_known text ≡ true
      → Explained (some text) (volume_from d r config prefix symbols)
  unfolding key get_required
  volume_from-Explained text none given kind known = (text, refl, known, rw kind refl, given)
  volume_from-Explained text (some symbols) given kind known =
      volume_for-Explained text symbols (listed_symbols symbols) given refl kind

  create_level-Explained :
      (text : String) (kind : LevelKind)
      → is_volume text ≡ false
      → is_known text ≡ true
      → is_type text (type_of_level kind) ≡ true
      → Explained (some text) (create_level d r config prefix kind)
  unfolding create_level
  create_level-Explained text kind other known h =
      for_symbol-Explained text (required "SYMBOL") _ refl other known (λ s. h) (λ s e. e)

  branch :
      (text : String) (b : Bool) (x y : Setup F)
      → (b ≡ true → Explained (some text) x)
      → (b ≡ false → Explained (some text) y)
      → Explained (some text) (if b then x else y)
  branch text true x y h k = h refl
  branch text false x y h k = k refl

  from_type-Explained : (type : Option String) → Explained type (from_type d r config prefix type)
  unfolding create_price_alert price_alert create_volume_spike create_spread_alert create_breakout
  from_type-Explained none = refl
  from_type-Explained (some text) =
      branch text (is_type text "price_alert") _ _
        (λ h.
          for_symbol-Explained text (required "SYMBOL") _ refl (price-is_volume text h) (rw h refl)
            (λ s. h) (λ s e. e))
        (λ n1.
          branch text (is_volume text) _ _
            (λ h. volume_from-Explained text (required "SYMBOLS") refl h (rw (n1, h) refl))
            (λ n2.
              branch text (is_type text "spread_alert") _ _
                (λ h.
                  for_symbol-Explained text (required "SYMBOL") _ refl n2 (rw (n1, n2, h) refl)
                    (λ s. h) (λ s e. e))
                (λ n3.
                  branch text (is_type text "breakout") _ _
                    (λ h.
                      for_symbol-Explained text (required "SYMBOL") _ refl n2
                        (rw (n1, n2, n3, h) refl) (λ s. h) (λ s e. (s, _, _, e, refl)))
                    (λ n4.
                      branch text (is_type text "support_level") _ _
                        (λ h.
                          create_level-Explained text support n2 (rw (n1, n2, n3, n4, h) refl) h)
                        (λ n5.
                          branch text (is_type text "resistance_level") _ _
                            (λ h.
                              create_level-Explained text resistance n2
                                (rw (n1, n2, n3, n4, n5, h) refl) h)
                            (λ n6. (text, refl, (n1, (n2, (n3, (n4, (n5, (n6, tt)))))))))))))

  -- For every map and prefix: a strategy is made of the type that the map names, capitals aside, for
  -- the symbol or the non-empty list of symbols of the map. It is refused without a type; for a type
  -- that is none of the six; for a known type whose own key, SYMBOLS for a volume strategy and
  -- SYMBOL for the others, is missing, with the name of that key; and for a volume strategy whose
  -- list has no symbol.
  pub from_map-Explained :
      Explained (lookup (key d r config prefix "TYPE") config) (from_map d r config prefix)
  unfolding from_map
  from_map-Explained = from_type-Explained (lookup (key d r config prefix "TYPE") config)
