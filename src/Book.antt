-- ===== src/Book.antt =====
-- The order book engine: src/book_engine.cpp and src/internal/book_engine.hpp.
--
-- A method returns the new engine. Symbols are strings; the two hash maps are association lists, of
-- which only `find`, `operator[]`, `erase` and `clear` are used. What the engine needs of `double` is
-- the record `Doubles`. The pointer that `get` returns is its target, or `none`.
mod Levels
mod LevelSpec
mod LevelLaws
mod Checksum
pub mod ChecksumText
pub mod ChecksumLaws
pub mod Crc
pub mod Engine
pub mod Contract
pub mod Validity
mod Tests
unfoldable pub use Levels.*
unfoldable pub use Checksum.*
use kraken_sdk.Common.{
  ℕ, ◌≡◌, String, Bool, true, false, nat_beq, if◌then◌else◌, Option, none, some, List, [], ◌∷◌,
  string_key, lookup, insert, erase,
}

-- The operations on doubles: `<`, the test `== 0.0`, and `snprintf("%.10f")`.
pub record Doubles (F : Type 0) : Type 0 where
  pub less : F → F → Bool
  pub is_zero : F → Bool
  pub print : F → List ℕ

-- struct OrderBook of include/kraken/core/types.hpp.
pub record OrderBook (F : Type 0) : Type 0 where
  pub symbol : String
  pub bids : List (PriceLevel F)
  pub asks : List (PriceLevel F)
  pub is_valid : Bool
  pub checksum : ℕ

-- struct BookEngine::InternalBook: the levels are the two maps.
pub record InternalBook (F : Type 0) : Type 0 where
  pub symbol : String
  pub bids : List (PriceLevel F)
  pub asks : List (PriceLevel F)
  pub checksum : ℕ
  pub is_valid : Bool

pub record BookEngine (F : Type 0) : Type 0 where
  pub books : List (String × InternalBook F)
  pub book_cache : List (String × OrderBook F)

module _ {F : Type 0} where
  unfoldable pub book_engine : BookEngine F
  book_engine = record { books = []; book_cache = [] }

  -- What `books_[symbol]` makes of a symbol that is not there.
  abbrev pub no_book : InternalBook F
  no_book = record { symbol = ""; bids = []; asks = []; checksum = 0; is_valid = true }

  abbrev pub book_or_new : Option (InternalBook F) → InternalBook F
  book_or_new none = no_book
  book_or_new (some b) = b

  unfoldable pub map_to_vector : List (PriceLevel F) → List (PriceLevel F)
  map_to_vector [] = []
  map_to_vector (l ∷ m) = record { price = l.price; quantity = l.quantity } ∷ map_to_vector m

  unfoldable pub to_order_book : InternalBook F → OrderBook F
  to_order_book b = record {
    symbol = b.symbol;
    bids = map_to_vector b.bids;
    asks = map_to_vector b.asks;
    is_valid = b.is_valid;
    checksum = b.checksum;
  }

  unfoldable pub get : BookEngine F → String → BookEngine F × Option (OrderBook F)
  get e symbol = elim (lookup symbol e.books) [
    | none ↦ (e, none)
    | some b ↦ (
      record e { book_cache = insert symbol (to_order_book b) e.book_cache },
      some (to_order_book b),
    )
  ]

  unfoldable pub clear : BookEngine F → BookEngine F
  clear e = record { books = []; book_cache = [] }

  unfoldable pub remove : BookEngine F → String → BookEngine F
  remove e symbol = record { books = erase symbol e.books; book_cache = erase symbol e.book_cache }

module _ {F : Type 0} (d : Doubles F) where
  -- `std::greater<double>`, the order of the bids.
  abbrev pub greater : F → F → Bool
  greater a b = d.less b a

  unfoldable pub apply_updates :
      InternalBook F → List (PriceLevel F) → List (PriceLevel F) → InternalBook F
  apply_updates b bids asks = record b {
    bids = apply_level_updates d.is_zero greater b.bids bids;
    asks = apply_level_updates d.is_zero d.less b.asks asks;
  }

  -- `books_[symbol]`, cleared for a snapshot.
  unfoldable pub starting_book : BookEngine F → String → Bool → InternalBook F
  starting_book e symbol is_snapshot =
      let b = record (book_or_new (lookup symbol e.books)) { symbol = symbol } in
      if is_snapshot then record b { bids = []; asks = [] } else b

  -- The book of a symbol after the levels are applied, before the checksum is looked at.
  unfoldable pub updated_book :
      BookEngine F → String → List (PriceLevel F) → List (PriceLevel F) → Bool → InternalBook F
  updated_book e symbol bids asks is_snapshot =
      apply_updates (starting_book e symbol is_snapshot) bids asks

  -- The static method, on an order book.
  unfoldable pub book_checksum : OrderBook F → ℕ
  book_checksum b = calculate_checksum d.print b.bids b.asks

  unfoldable pub validate : InternalBook F → ℕ → InternalBook F × Bool
  validate b expected =
      let calc = book_checksum (to_order_book b) in
      let good = nat_beq calc expected in (record b { checksum = calc; is_valid = good }, good)

  -- The map holds the book by reference, so what is changed in it is stored.
  unfoldable pub apply :
      BookEngine F
      → String
      → List (PriceLevel F)
      → List (PriceLevel F)
      → Bool
      → ℕ
      → BookEngine F × Bool
  unfolding validate
  apply e symbol bids asks is_snapshot expected_checksum =
      let b = updated_book e symbol bids asks is_snapshot in
      let (checked, good) = validate b expected_checksum in
      if nat_beq expected_checksum 0
      then (
        record { books = insert symbol b e.books; book_cache = erase symbol e.book_cache },
        true,
      )
      else (record e { books = insert symbol checked e.books }, good)
