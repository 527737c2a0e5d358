-- ===== src/Book/Contract.antt =====
-- What a client of the engine may rely on.
use kraken_sdk.Common.{
  ℕ, ◌≡◌, refl, subst, ◌∙◌, ap, String, Bool, true, false, if◌then◌else◌, Option, none, some, List,
  [], ◌∷◌, string_key, lookup, lookup-insert, lookup-insert_self, lookup-nil, lookup-erase, arith,
  inl, inr, Bool-cases, Option-cases, ◌==◌,
}
use kraken_sdk.Book.{
  PriceLevel, IsStrict, find, IsSorted, Doubles, OrderBook, InternalBook, BookEngine, book_engine,
  book_or_new, to_order_book, get, clear, remove, greater, apply_updates, starting_book,
  updated_book, validate, apply,
}
use kraken_sdk.Book.LevelSpec.{latest, outcome, HasNoZero}
use kraken_sdk.Book.LevelLaws.{find-apply_level_updates}
use kraken_sdk.Book.Engine.{
  map_to_vector_lem, shown, shown-lookup, greater-IsStrict, IsValid, AllValid, updated_book-IsValid,
  starting_book-IsValid, stored_book, books-apply, stored_book-IsValid,
}

-- The calls that change an engine.
pub data Call (F : Type 0) : Type 0 where
  applies : String → List (PriceLevel F) → List (PriceLevel F) → Bool → ℕ → Call F
  gets : String → Call F
  clears : Call F
  removes : String → Call F

module _ {F : Type 0} (d : Doubles F) where
  unfoldable pub step : BookEngine F → Call F → BookEngine F
  step e (applies s bids asks snap sum) = (apply d e s bids asks snap sum).0
  step e (gets s) = (get e s).0
  step e clears = clear e
  step e (removes s) = remove e s

  unfoldable pub run : BookEngine F → List (Call F) → BookEngine F
  run e [] = e
  run e (c ∷ cs) = run (step e c) cs

  -- The prices a side of an order book shows run strictly from best to worst, no quantity is 0.
  abbrev pub IsProper : OrderBook F → Type 0
  IsProper b =
      IsSorted (greater d) b.bids
      × IsSorted d.less b.asks
      × HasNoZero d.is_zero b.bids
      × HasNoZero d.is_zero b.asks

  books-get : (e : BookEngine F) (s : String) → (get e s).0.books ≡ e.books
  unfolding get
  books-get e s = ground arith

  module _ (o : IsStrict d.less) where
    apply-AllValid :
        (e : BookEngine F) (s : String) (bids asks : List (PriceLevel F)) (snap : Bool) (sum : ℕ)
        → AllValid d e
        → AllValid d (apply d e s bids asks snap sum).0
    apply-AllValid e s bids asks snap sum v j b h =
        let updated = updated_book d e s bids asks snap in
        let stored = stored_book d updated sum in
        let known = lookup-insert s j stored e.books in
        let kept = books-apply d e s bids asks snap sum in
        let valid =
          stored_book-IsValid d updated sum (updated_book-IsValid d o e s bids asks snap v) in
        elim (Bool-cases (s == j)) [
          | inl hit ↦
              let same_book : stored ≡ b = ground (arith, known, kept) in
              subst (IsValid d) same_book valid
          | inr miss ↦ v j b (ground (arith, known, kept))
        ]

    step-AllValid : (e : BookEngine F) (c : Call F) → AllValid d e → AllValid d (step e c)
    unfolding step clear remove
    step-AllValid e (applies s bids asks snap sum) v = apply-AllValid e s bids asks snap sum v
    step-AllValid e (gets s) v = λ j b h. v j b (ground (arith, books-get e s))
    step-AllValid e clears v =
        λ j b h. absurd (ground (arith, lookup-nil {Value = InternalBook F} j))
    step-AllValid e (removes s) v = λ j b h. v j b (ground (arith, lookup-erase s j e.books))

    run-AllValid : (e : BookEngine F) (cs : List (Call F)) → AllValid d e → AllValid d (run e cs)
    unfolding run
    run-AllValid e [] v = v
    run-AllValid e (c ∷ cs) v = run-AllValid (step e c) cs (step-AllValid e c v)

    pub empty-AllValid : AllValid d book_engine
    unfolding book_engine
    empty-AllValid = λ s b h. absurd (ground (arith, lookup-nil {Value = InternalBook F} s))

    to_order_book-IsProper : (b : InternalBook F) → IsValid d b → IsProper (to_order_book b)
    unfolding to_order_book
    to_order_book-IsProper b v =
        rw (map_to_vector_lem b.bids, map_to_vector_lem b.asks)
          (v.bids_sorted, v.asks_sorted, v.bids_positive, v.asks_positive)

    not_shown : (e : BookEngine F) (s : String) → lookup s e.books ≡ none → shown e s ≡ none
    unfolding get
    not_shown e s h = ground arith

    shown-IsProper :
        (e : BookEngine F) (s : String) (b : OrderBook F)
        → AllValid d e
        → shown e s ≡ some b
        → IsProper b
    shown-IsProper e s b v h = elim (Option-cases (lookup s e.books)) [
      | inl n ↦ absurd (ground (arith, not_shown e s n))
      | inr (x, k) ↦
          let same_book : to_order_book x ≡ b = ground (arith, shown-lookup e s x k) in
          subst IsProper same_book (to_order_book-IsProper x (v s x k))
    ]

    -- Whatever calls a new engine has seen, every book that `get` shows has its bids strictly falling
    -- and its asks strictly rising in price, and no level of quantity 0.
    pub run-IsProper :
        (cs : List (Call F)) (s : String) (b : OrderBook F)
        → shown (run book_engine cs) s ≡ some b
        → IsProper b
    run-IsProper cs s b h =
        shown-IsProper (run book_engine cs) s b (run-AllValid book_engine cs empty-AllValid) h

    -- What the engine holds of a symbol at a price, on either side.
    abbrev pub bid_at : BookEngine F → String → F → Option F
    bid_at e s p = find (greater d) p (book_or_new (lookup s e.books)).bids

    abbrev pub ask_at : BookEngine F → String → F → Option F
    ask_at e s p = find d.less p (book_or_new (lookup s e.books)).asks

    stored_levels :
        (b : InternalBook F) (sum : ℕ)
        → ((stored_book d b sum).bids ≡ b.bids) × ((stored_book d b sum).asks ≡ b.asks)
    unfolding stored_book validate
    stored_levels b sum = ground arith

    starting_levels :
        (e : BookEngine F) (s : String) (snap : Bool) (p : F)
        → (find (greater d) p (starting_book d e s snap).bids
            ≡ (if snap then none else bid_at e s p))
          × (find d.less p (starting_book d e s snap).asks ≡ (if snap then none else ask_at e s p))
    unfolding starting_book find
    starting_levels e s true p = (refl, refl)
    starting_levels e s false p = (refl, refl)

    lookup-apply :
        (e : BookEngine F) (s : String) (bids asks : List (PriceLevel F)) (snap : Bool) (sum : ℕ)
        → lookup s (apply d e s bids asks snap sum).0.books
          ≡ some (stored_book d (updated_book d e s bids asks snap) sum)
    lookup-apply e s bids asks snap sum =
        rw (books-apply d e s bids asks snap sum) (lookup-insert_self s _ e.books)

    -- After `apply` to a symbol the engine holds at each price, on each side, what the last level of
    -- the message for that price says (nothing, if its quantity is 0), and else what it held before
    -- the message, or, if the message is a snapshot, nothing.
    pub level-apply :
        (e : BookEngine F) (s : String) (bids asks : List (PriceLevel F)) (snap : Bool) (sum : ℕ)
        → (p : F) → AllValid d e
        → let after = (apply d e s bids asks snap sum).0 in
          (bid_at after s p
            ≡ outcome d.is_zero (latest (greater d) p bids) (if snap then none else bid_at e s p))
          × (ask_at after s p
              ≡ outcome d.is_zero (latest d.less p asks) (if snap then none else ask_at e s p))
    unfolding updated_book apply_updates
    level-apply e s bids asks snap sum p v =
        let start = starting_book d e s snap in
        let valid = starting_book-IsValid d e s snap v in
        let updated = updated_book d e s bids asks snap in
        let stored = stored_levels updated sum in
        let starts = starting_levels e s snap p in
        rw (lookup-apply e s bids asks snap sum, stored.0, stored.1)
          (
            find-apply_level_updates (greater-IsStrict d o) d.is_zero p start.bids bids
                  valid.bids_sorted
                ∙ ap (outcome d.is_zero (latest (greater d) p bids)) starts.0,
            find-apply_level_updates o d.is_zero p start.asks asks valid.asks_sorted
                ∙ ap (outcome d.is_zero (latest d.less p asks)) starts.1,
          )
