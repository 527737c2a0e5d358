-- ===== src/Book/Levels.antt =====
-- The price maps of src/book_engine.cpp: `std::map<double, double, Compare>` as a list sorted by the
-- comparison, and the helpers that update and read it.
--
-- `before` is the map's comparison: `std::greater` for bids, `std::less` for asks. A double is an
-- element of a type `F` of which the book uses only the comparison and the test against 0.0. That
-- the comparison is a strict linear order is the hypothesis `IsStrict`: the prices are no NaN, and
-- a zero price has one sign.
use kraken_sdk.Common.{
  ◌≡◌, Bool, true, false, if◌then◌else◌, Option, none, some, List, [], ◌∷◌, All,
}

-- struct PriceLevel.
pub record PriceLevel (F : Type 0) : Type 0 where
  pub price : F
  pub quantity : F

pub record IsStrict {F : Type 0} (before : F → F → Bool) : Type 0 where
  pub irrefl : (a : F) → before a a ≡ false
  pub trans : (a b c : F) → before a b ≡ true → before b c ≡ true → before a c ≡ true
  pub connex : (a b : F) → before a b ≡ false → before b a ≡ false → a ≡ b

module _ {F : Type 0} (before : F → F → Bool) where
  -- `map[price] = quantity`: the key of an entry that is there stays.
  unfoldable pub put : F → F → List (PriceLevel F) → List (PriceLevel F)
  put p q [] = record { price = p; quantity = q } ∷ []
  put p q (l ∷ m) =
      if before p l.price
      then record { price = p; quantity = q } ∷ l ∷ m
      else if before l.price p
      then l ∷ put p q m
      else record l { quantity = q } ∷ m

  -- `map.erase(price)`.
  unfoldable pub cut : F → List (PriceLevel F) → List (PriceLevel F)
  cut p [] = []
  cut p (l ∷ m) = if before p l.price then l ∷ m else if before l.price p then l ∷ cut p m else m

  -- What the map holds at a price.
  unfoldable pub find : F → List (PriceLevel F) → Option F
  find p [] = none
  find p (l ∷ m) =
      if before p l.price then none else if before l.price p then find p m else some l.quantity

  -- Every entry lies behind the price `p`.
  abbrev pub Behind : F → List (PriceLevel F) → Type 0
  Behind p m = All (λ l. before p l.price ≡ true) m

  abbrev pub IsSorted : List (PriceLevel F) → Type 0
  IsSorted [] = Unit
  IsSorted (l ∷ m) = Behind l.price m × IsSorted m

module _ {F : Type 0} (is_zero : F → Bool) (before : F → F → Bool) where
  unfoldable pub update_level : PriceLevel F → List (PriceLevel F) → List (PriceLevel F)
  update_level l m =
      if is_zero l.quantity then cut before l.price m else put before l.price l.quantity m

  -- The template `apply_level_updates`.
  unfoldable pub apply_level_updates :
      List (PriceLevel F) → List (PriceLevel F) → List (PriceLevel F)
  apply_level_updates m [] = m
  apply_level_updates m (l ∷ ls) = apply_level_updates (update_level l m) ls
