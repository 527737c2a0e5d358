-- ===== src/Alerts/Symbols.antt =====
-- Texts in the configuration of strategies: the list of symbols of `create_volume_spike` and the
-- lines of the environment, of src/strategies/strategy_config.cpp.
use kraken_sdk.Common.{
  ℕ, ◌≡◌, refl, ◌∙◌, String, Bool, true, false, not, ◌&&◌, ◌||◌, nat_beq, if◌then◌else◌, List, [],
  ◌∷◌, string_key, ◌==◌, arith, All,
}
use Prim.Native.Char.{code}

abbrev pub is_blank : ℕ → Bool
is_blank c = nat_beq c b' ' || nat_beq c b'\t'

-- `symbol.erase(0, symbol.find_first_not_of(" \t"))`.
unfoldable pub trim_front : String → String
trim_front String.[] = ""
trim_front (String.◌∷◌ c s) =
    let rest = trim_front s in if is_blank (code c) then rest else String.◌∷◌ c s

abbrev pub is_nil : String → Bool
is_nil String.[] = true
is_nil (String.◌∷◌ c s) = false

-- `symbol.erase(symbol.find_last_not_of(" \t") + 1)`.
unfoldable pub trim_back : String → String
trim_back String.[] = ""
trim_back (String.◌∷◌ c s) =
    let rest = trim_back s in if is_blank (code c) && is_nil rest then "" else String.◌∷◌ c rest

abbrev pub put_first : List String → String → String × List String
put_first rest s = (s, rest)

-- The text before the first comma, and the texts behind it (`std::getline`).
unfoldable pub split_commas : String → String × List String
split_commas String.[] = ("", [])
split_commas (String.◌∷◌ c s) =
    let (first, rest) = split_commas s in
    if nat_beq (code c) b',' then ("", first ∷ rest) else (String.◌∷◌ c first, rest)

-- Trims each text, and leaves out the empty ones.
unfoldable pub trim_all : List String → List String
trim_all [] = []
trim_all (s ∷ ss) =
    let rest = trim_all ss in
    let trimmed = trim_back (trim_front s) in if is_nil trimmed then rest else trimmed ∷ rest

unfoldable pub listed_symbols : String → List String
listed_symbols text = let (first, rest) = split_commas text in trim_all (first ∷ rest)

-- The texts with commas between them.
unfoldable pub with_commas : String → String → String
with_commas String.[] rest = String.◌∷◌ "," rest
with_commas (String.◌∷◌ c s) rest = String.◌∷◌ c (with_commas s rest)

unfoldable pub join_symbols : String → List String → String
join_symbols s [] = s
join_symbols s (t ∷ ts) = with_commas s (join_symbols t ts)

unfoldable pub has_no_comma : String → Bool
has_no_comma String.[] = true
has_no_comma (String.◌∷◌ c s) = not (nat_beq (code c) b',') && has_no_comma s

-- No comma, not empty, and no blank at an end.
unfoldable pub is_symbol : String → Bool
is_symbol s = has_no_comma s && (not (is_nil s) && (trim_front s == s && trim_back s == s))

abbrev pub IsSymbol : String → Type 0
IsSymbol s = is_symbol s ≡ true

has_no_comma-both : (a b : Bool) → (not a && b) ≡ true → (a ≡ false) × (b ≡ true)
has_no_comma-both a b h = ground arith

split_commas-with_commas :
    (s t : String)
    → has_no_comma s ≡ true
    → split_commas (with_commas s t) ≡ (s, (split_commas t).0 ∷ (split_commas t).1)
unfolding split_commas with_commas has_no_comma
split_commas-with_commas String.[] t h = refl
split_commas-with_commas (String.◌∷◌ c s) t h =
    let (here, rest) = has_no_comma-both (nat_beq (code c) b',') (has_no_comma s) h in
    rw (here, split_commas-with_commas s t rest) refl

split_commas-alone : (s : String) → has_no_comma s ≡ true → split_commas s ≡ (s, [])
unfolding split_commas has_no_comma
split_commas-alone String.[] h = refl
split_commas-alone (String.◌∷◌ c s) h =
    let (here, rest) = has_no_comma-both (nat_beq (code c) b',') (has_no_comma s) h in
    rw (here, split_commas-alone s rest) refl

symbol-parts :
    (a b c d : Bool)
    → (a && (not b && (c && d))) ≡ true
    → (a ≡ true) × (b ≡ false) × (c ≡ true) × (d ≡ true)
symbol-parts a b c d h = ground arith

IsSymbol-parts :
    (s : String)
    → IsSymbol s
    → (has_no_comma s ≡ true) × (is_nil s ≡ false) × (trim_front s ≡ s) × (trim_back s ≡ s)
unfolding is_symbol
IsSymbol-parts s h =
    let (comma, nil, front, back) =
      symbol-parts (has_no_comma s) (is_nil s) (trim_front s == s) (trim_back s == s) h in
    (
      comma,
      nil,
      (string_key.same_key_iff (trim_front s) s).0 front,
      (string_key.same_key_iff (trim_back s) s).0 back,
    )

split_commas-join_symbols :
    (s : String) (ts : List String)
    → IsSymbol s
    → All IsSymbol ts
    → split_commas (join_symbols s ts) ≡ (s, ts)
unfolding join_symbols
split_commas-join_symbols s [] h hs = split_commas-alone s (IsSymbol-parts s h).0
split_commas-join_symbols s (t ∷ ts) h (k, ks) =
    split_commas-with_commas s (join_symbols t ts) (IsSymbol-parts s h).0
    ∙ rw (split_commas-join_symbols t ts k ks) refl

trim_all-IsSymbol : (ss : List String) → All IsSymbol ss → trim_all ss ≡ ss
unfolding trim_all
trim_all-IsSymbol [] h = refl
trim_all-IsSymbol (s ∷ ss) (h, hs) =
    let (comma, nil, front, back) = IsSymbol-parts s h in
    rw (front, back, nil, trim_all-IsSymbol ss hs) refl

-- A list of symbols is read back from the text that has commas between them, if no symbol is empty,
-- has a comma, or has a blank or a tab at an end.
pub listed_symbols-join_symbols :
    (s : String) (ts : List String)
    → IsSymbol s
    → All IsSymbol ts
    → listed_symbols (join_symbols s ts) ≡ s ∷ ts
unfolding listed_symbols
listed_symbols-join_symbols s ts h hs =
    rw (split_commas-join_symbols s ts h hs) (trim_all-IsSymbol (s ∷ ts) (h, hs))
