-- ===== src/Book/LevelSpec.antt =====
-- What a batch of levels says of a price: the specification of the price maps.
use kraken_sdk.Common.{
  ◌≡◌, Bool, false, not, ◌&&◌, if◌then◌else◌, Option, none, some, List, [], ◌∷◌, All,
}
use kraken_sdk.Book.Levels.{PriceLevel}

module _ {F : Type 0} (before : F → F → Bool) where
  -- Neither price lies before the other.
  abbrev pub same : F → F → Bool
  same a b = not (before a b) && not (before b a)

  -- The quantity that the last level of a batch for the price `p` gives.
  abbrev pub latest : F → List (PriceLevel F) → Option F
  latest p [] = none
  latest p (l ∷ ls) = elim (latest p ls) [
    | some q ↦ some q
    | none ↦ if same l.price p then some l.quantity else none
  ]

module _ {F : Type 0} (is_zero : F → Bool) where
  -- What a map holds at a price, after a batch that says the first of it: a quantity 0 removes.
  abbrev pub outcome : Option F → Option F → Option F
  outcome none held = held
  outcome (some q) held = if is_zero q then none else some q

  -- No entry of the map has quantity 0.
  abbrev pub HasNoZero : List (PriceLevel F) → Type 0
  HasNoZero m = All (λ l. is_zero l.quantity ≡ false) m
