-- ===== src/Common/Texts.antt =====
-- Texts as lists of codes: case folding and search, as the standard library's `tolower` (in the "C"
-- locale) and `std::string::find`.
use Prim.Native.Nat.{ℕ, ◌+◌}
use Prim.Native.Char.{code}
use Prim.Native.String.{String, ◌++◌}
use mathlib.Core.Bool.{Bool, true, false, ◌&&◌, ◌||◌}
use mathlib.Core.List.{List, [], ◌∷◌, map}
use kraken_sdk.Common.Tests.{if◌then◌else◌, leb, nat_beq}

unfoldable pub codes : String → List ℕ
codes String.[] = []
codes (String.◌∷◌ c s) = code c ∷ codes s

unfoldable pub lower : ℕ → ℕ
lower c = if leb b'A' c && leb c b'Z' then c + 32 else c

unfoldable pub begins_with : List ℕ → List ℕ → Bool
begins_with cs [] = true
begins_with [] (x ∷ xs) = false
begins_with (c ∷ cs) (x ∷ xs) = nat_beq c x && begins_with cs xs

unfoldable pub has_text : List ℕ → List ℕ → Bool
has_text [] xs = begins_with [] xs
has_text (c ∷ cs) xs = begins_with (c ∷ cs) xs || has_text cs xs

-- The text with small letters has `word`.
unfoldable pub mentions : String → String → Bool
unfolding codes lower has_text begins_with
mentions text word = has_text (map lower (codes text)) (codes word)

-- `+` and `+=` on `std::string`.
unfoldable pub joined : List String → String
joined [] = ""
joined (s ∷ ss) = s ++ joined ss
