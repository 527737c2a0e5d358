-- ===== src/Book/Validity.antt =====
-- What the checksum of a message decides, and which books a message leaves alone.
use kraken_sdk.Common.{
  ℕ, ◌≡◌, ◌≢◌, refl, ◌∙◌, ap, String, Bool, true, false, nat_beq, some, List, string_key, lookup,
  lookup-insert, lookup-insert_self, arith,
}
use kraken_sdk.Book.{
  PriceLevel, Doubles, OrderBook, InternalBook, BookEngine, book_or_new, to_order_book, get,
  apply_updates, starting_book, updated_book, book_checksum, validate, apply,
}
use kraken_sdk.Book.Engine.{shown, shown-lookup, stored_book, books-apply}

module _ {F : Type 0} (d : Doubles F) where
  -- A message for one symbol changes nothing of what `get` shows for another.
  pub shown-apply_other :
      (e : BookEngine F) (s other : String) (bids asks : List (PriceLevel F)) (snap : Bool)
      (sum : ℕ)
      → s ≢ other
      → shown (apply d e s bids asks snap sum).0 other ≡ shown e other
  unfolding get
  shown-apply_other e s other bids asks snap sum ne =
      let stored = stored_book d (updated_book d e s bids asks snap) sum in
      ground (
        arith,
        books-apply d e s bids asks snap sum,
        lookup-insert s other stored e.books,
        string_key.same_key_iff s other,
      )

  kept_flag :
      (e : BookEngine F) (s : String) (bids asks : List (PriceLevel F)) (snap : Bool)
      → ((updated_book d e s bids asks snap).is_valid ≡ (book_or_new (lookup s e.books)).is_valid)
        × ((updated_book d e s bids asks snap).checksum ≡ (book_or_new (lookup s e.books)).checksum)
  unfolding updated_book apply_updates starting_book
  kept_flag e s bids asks true = (refl, refl)
  kept_flag e s bids asks false = (refl, refl)

  shown-stored :
      (e : BookEngine F) (s : String) (bids asks : List (PriceLevel F)) (snap : Bool) (sum : ℕ)
      → shown (apply d e s bids asks snap sum).0 s
        ≡ some (to_order_book (stored_book d (updated_book d e s bids asks snap) sum))
  shown-stored e s bids asks snap sum =
      let stored = stored_book d (updated_book d e s bids asks snap) sum in
      shown-lookup _ s stored
        (ground (arith, books-apply d e s bids asks snap sum, lookup-insert_self s stored e.books))

  stored_expected :
      (b : InternalBook F) (sum : ℕ) → sum ≢ 0 → stored_book d b sum ≡ (validate d b sum).0
  unfolding stored_book
  stored_expected b sum ne = ground arith

  result_expected :
      (e : BookEngine F) (s : String) (bids asks : List (PriceLevel F)) (snap : Bool) (sum : ℕ)
      → sum ≢ 0
      → (apply d e s bids asks snap sum).1
        ≡ (validate d (updated_book d e s bids asks snap) sum).0.is_valid
  unfolding apply
  result_expected e s bids asks snap sum ne = ground arith

  -- With an expected checksum, `apply` returns whether the book that `get` then shows has it, the
  -- shown book carries its own checksum, and its flag is the result.
  pub apply-expected :
      (e : BookEngine F) (s : String) (bids asks : List (PriceLevel F)) (snap : Bool) (sum : ℕ)
      → sum ≢ 0
      → let after = apply d e s bids asks snap sum in
        (b : OrderBook F) × (shown after.0 s ≡ some b)
        × (b.checksum ≡ book_checksum d b)
        × (b.is_valid ≡ nat_beq b.checksum sum)
        × (after.1 ≡ b.is_valid)
  unfolding validate to_order_book book_checksum
  apply-expected e s bids asks snap sum ne =
      let updated = updated_book d e s bids asks snap in
      (
        to_order_book (validate d updated sum).0,
        shown-stored e s bids asks snap sum
            ∙ ap (λ b. some (to_order_book b)) (stored_expected updated sum ne),
        refl,
        refl,
        result_expected e s bids asks snap sum ne,
      )

  -- Without one (0), `apply` returns true, whatever the flag of the book is: a book that failed its
  -- last checksum is still shown as invalid, also after a snapshot, and with the old checksum.
  pub apply_unchecked :
      (e : BookEngine F) (s : String) (bids asks : List (PriceLevel F)) (snap : Bool)
      → let after = apply d e s bids asks snap 0 in
        let before = book_or_new (lookup s e.books) in
        (after.1 ≡ true)
        × ((b : OrderBook F) × (shown after.0 s ≡ some b)
            × (b.is_valid ≡ before.is_valid)
            × (b.checksum ≡ before.checksum))
  unfolding apply stored_book to_order_book
  apply_unchecked e s bids asks snap = (
    refl,
    (
      to_order_book (stored_book d (updated_book d e s bids asks snap) 0),
      shown-stored e s bids asks snap 0,
      (kept_flag e s bids asks snap).0,
      (kept_flag e s bids asks snap).1,
    ),
  )
