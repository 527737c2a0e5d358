-- ===== src/Book/Engine.antt =====
-- The engine against its contract: what `get` shows after `apply`, for which symbols, and what the
-- checksum decides.
use kraken_sdk.Common.{
  ℕ, ◌≡◌, refl, ap, String, Bool, true, false, nat_beq, if◌then◌else◌, Option, some, List, [], ◌∷◌,
  string_key, lookup, insert, arith, inl, inr, Bool-cases, Option-cases,
}
use kraken_sdk.Book.{
  PriceLevel, IsStrict, IsSorted, Doubles, OrderBook, InternalBook, BookEngine, map_to_vector,
  to_order_book, get, greater, apply_updates, starting_book, updated_book, validate, apply,
}
use kraken_sdk.Book.LevelSpec.{HasNoZero}
use kraken_sdk.Book.LevelLaws.{apply_level_updates-IsSorted, apply_level_updates-HasNoZero}

module _ {F : Type 0} where
  pub map_to_vector_lem : (m : List (PriceLevel F)) → map_to_vector m ≡ m
  unfolding map_to_vector
  map_to_vector_lem [] = refl
  map_to_vector_lem (l ∷ m) = ap (◌∷◌ l) (map_to_vector_lem m)

  -- What `get` returns.
  abbrev pub shown : BookEngine F → String → Option (OrderBook F)
  shown e symbol = (get e symbol).1

  pub shown-lookup :
      (e : BookEngine F) (symbol : String) (b : InternalBook F)
      → lookup symbol e.books ≡ some b
      → shown e symbol ≡ some (to_order_book b)
  unfolding get
  shown-lookup e symbol b h = ground arith

module _ {F : Type 0} (d : Doubles F) where
  -- The comparison of the bids is strict where that of the asks is.
  pub greater-IsStrict : IsStrict d.less → IsStrict (greater d)
  greater-IsStrict o = record {
    irrefl = o.irrefl;
    trans = λ a b c h k. o.trans c b a k h;
    connex = λ a b h k. o.connex a b k h;
  }

  -- The maps of a book are sorted and hold no quantity 0.
  pub record IsValid (b : InternalBook F) : Type 0 where
    pub bids_sorted : IsSorted (greater d) b.bids
    pub asks_sorted : IsSorted d.less b.asks
    pub bids_positive : HasNoZero d.is_zero b.bids
    pub asks_positive : HasNoZero d.is_zero b.asks

  -- So is every book that the engine holds.
  abbrev pub AllValid : BookEngine F → Type 0
  AllValid e = (s : String) (b : InternalBook F) → lookup s e.books ≡ some b → IsValid b

  pub starting_book-IsValid :
      (e : BookEngine F) (s : String) (snap : Bool)
      → AllValid e
      → IsValid (starting_book d e s snap)
  unfolding starting_book
  starting_book-IsValid e s true v = record {
    bids_sorted = tt;
    asks_sorted = tt;
    bids_positive = tt;
    asks_positive = tt;
  }
  starting_book-IsValid e s false v = elim (Option-cases (lookup s e.books)) [
    | inl n ↦
        rw n (record { bids_sorted = tt; asks_sorted = tt; bids_positive = tt; asks_positive = tt })
    | inr (b, h) ↦ rw h (record {
      bids_sorted = (v s b h).bids_sorted;
      asks_sorted = (v s b h).asks_sorted;
      bids_positive = (v s b h).bids_positive;
      asks_positive = (v s b h).asks_positive;
    })
  ]

  module _ (o : IsStrict d.less) where
    apply_updates-IsValid :
        (b : InternalBook F) (bids asks : List (PriceLevel F))
        → IsValid b
        → IsValid (apply_updates d b bids asks)
    unfolding apply_updates
    apply_updates-IsValid b bids asks v = record {
      bids_sorted =
          apply_level_updates-IsSorted (greater-IsStrict o) d.is_zero b.bids bids v.bids_sorted;
      asks_sorted = apply_level_updates-IsSorted o d.is_zero b.asks asks v.asks_sorted;
      bids_positive =
          apply_level_updates-HasNoZero (greater d) d.is_zero b.bids bids v.bids_positive;
      asks_positive = apply_level_updates-HasNoZero d.less d.is_zero b.asks asks v.asks_positive;
    }

    pub updated_book-IsValid :
        (e : BookEngine F) (s : String) (bids asks : List (PriceLevel F)) (snap : Bool)
        → AllValid e
        → IsValid (updated_book d e s bids asks snap)
    unfolding updated_book
    updated_book-IsValid e s bids asks snap v =
        apply_updates-IsValid (starting_book d e s snap) bids asks
          (starting_book-IsValid e s snap v)

  -- The book that `apply` stores: the updated one, with a new checksum and flag if one was expected.
  unfoldable pub stored_book : InternalBook F → ℕ → InternalBook F
  unfolding validate
  stored_book b sum = if nat_beq sum 0 then b else (validate d b sum).0

  pub books-apply :
      (e : BookEngine F) (s : String) (bids asks : List (PriceLevel F)) (snap : Bool) (sum : ℕ)
      → (apply d e s bids asks snap sum).0.books
        ≡ insert s (stored_book (updated_book d e s bids asks snap) sum) e.books
  unfolding apply stored_book
  books-apply e s bids asks snap sum = ground arith

  pub stored_book-IsValid : (b : InternalBook F) (sum : ℕ) → IsValid b → IsValid (stored_book b sum)
  unfolding stored_book
  stored_book-IsValid b sum v = elim (Bool-cases (nat_beq sum 0)) [
    | inl z ↦ rw (z, stored_book) v
    | inr n ↦
        rw (n, stored_book)
          (record {
            bids_sorted = v.bids_sorted;
            asks_sorted = v.asks_sorted;
            bids_positive = v.bids_positive;
            asks_positive = v.asks_positive;
          })
  ]
