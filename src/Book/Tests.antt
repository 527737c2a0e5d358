-- ===== src/Book/Tests.antt =====
-- The theorems about the order book at concrete inputs, and runs of the model. The doubles are whole
-- numbers of one digit, printed as `snprintf` prints them.
use kraken_sdk.Common.{
  ℕ, ◌+◌, ◌%◌, ◌<◌, ◌≡◌, ◌≢◌, refl, true, false, ltb, nat_beq, none, some, List, [], ◌∷◌, ◌++◌,
  get_elem?-append, string_key, lookup, insert, erase, arith, get_elem?,
}
use kraken_sdk.Book.{
  PriceLevel, IsStrict, find, Doubles, OrderBook, BookEngine, book_engine, book_or_new, get,
  book_checksum, apply, crc32_table, table_at, crc32_update, format_for_checksum,
  calculate_checksum, to_order_book, put, cut, apply_level_updates, updated_book, starting_book,
  apply_updates, map_to_vector, no_book, greater,
}
use kraken_sdk.Book.LevelSpec.{latest, outcome}
use kraken_sdk.Book.Crc.{
  is_damaged, crc_rounds, crc32_table_damaged, AvoidsDamage, crc32_reference,
  crc32_update-reference,
}
use kraken_sdk.Book.ChecksumText.{or_zero, strip_back, strip_front, digits, dots}
use kraken_sdk.Book.ChecksumLaws.{format_for_checksum-digits}
use kraken_sdk.Book.Engine.{shown}
use kraken_sdk.Book.Contract.{
  Call, applies, gets, clears, removes, run, IsProper, run-IsProper, bid_at, ask_at, level-apply,
  empty-AllValid,
}
use kraken_sdk.Book.Validity.{apply-expected}

abbrev small : Doubles ℕ
small = record {
  less = ltb;
  is_zero = λ q. nat_beq q 0;
  print = λ q. (48 + q % 10) ∷ 46 ∷ 48 ∷ 48 ∷ [];
}

ltb-IsStrict : IsStrict small.less
ltb-IsStrict = record {
  irrefl = λ a. ground arith;
  trans = λ a b c h k. ground arith;
  connex = λ a b h k. ground arith;
}

abbrev level : ℕ → ℕ → PriceLevel ℕ
level p q = record { price = p; quantity = q }

abbrev snapshot : Call ℕ
snapshot = applies "BTC/USD" (level 5 1 ∷ level 4 2 ∷ []) (level 6 1 ∷ level 7 3 ∷ []) true 0

abbrev update : Call ℕ
update = applies "BTC/USD" (level 4 0 ∷ level 3 9 ∷ []) (level 7 4 ∷ []) false 0

abbrev final_book : OrderBook ℕ
final_book = record {
  symbol = "BTC/USD";
  bids = level 5 1 ∷ level 3 9 ∷ [];
  asks = level 6 1 ∷ level 7 4 ∷ [];
  is_valid = true;
  checksum = 0;
}

final_shown : shown (run small book_engine (snapshot ∷ update ∷ [])) "BTC/USD" ≡ some final_book
unfolding run kraken_sdk.Book.Contract.step book_engine apply updated_book starting_book
    apply_updates apply_level_updates kraken_sdk.Book.Levels.update_level put cut lookup insert
    erase get to_order_book map_to_vector
final_shown = refl

-- The checksum of "123456789", and of "5005", whose last character leads to a damaged entry.
abbrev standard_text : List ℕ
standard_text = b'1' ∷ b'2' ∷ b'3' ∷ b'4' ∷ b'5' ∷ b'6' ∷ b'7' ∷ b'8' ∷ b'9' ∷ []

abbrev damaged_text : List ℕ
damaged_text = b'5' ∷ b'0' ∷ b'0' ∷ b'5' ∷ []

standard_crc : crc32_update 0xFFFFFFFF standard_text ≡ 0x340BC6D9
unfolding crc32_update crc32_table
standard_crc = refl

damaged_crc :
    nat_beq (crc32_update 0xFFFFFFFF damaged_text) (crc32_reference 0xFFFFFFFF damaged_text) ≡ false
unfolding crc32_update crc32_table crc32_reference crc_rounds
damaged_crc = refl

-- 12.5000000000 and 0.0000000000.
formatted : format_for_checksum (b'1' ∷ b'2' ∷ b'.' ∷ b'5' ∷ b'0' ∷ []) ≡ b'1' ∷ b'2' ∷ b'5' ∷ []
unfolding format_for_checksum kraken_sdk.Book.scan kraken_sdk.Book.scan_char kraken_sdk.Book.emit
formatted = refl

crc32_table_damaged_example :
    (is_damaged 240 ≡ true → table_at crc32_table 240 ≢ crc_rounds 8 240)
    × (is_damaged 240 ≡ false → table_at crc32_table 240 ≡ crc_rounds 8 240)
crc32_table_damaged_example = crc32_table_damaged 240 (omega arith)

standard_avoids : AvoidsDamage 0xFFFFFFFF standard_text
unfolding crc_rounds
standard_avoids = (refl, (refl, (refl, (refl, (refl, (refl, (refl, (refl, (refl, tt)))))))))

crc32_update-reference_example :
    crc32_update 0xFFFFFFFF standard_text ≡ crc32_reference 0xFFFFFFFF standard_text
crc32_update-reference_example = crc32_update-reference 0xFFFFFFFF standard_text standard_avoids

format_for_checksum-digits_example :
    format_for_checksum (b'0' ∷ b'.' ∷ b'5' ∷ [])
    ≡ or_zero (strip_back (strip_front (digits (b'0' ∷ b'.' ∷ b'5' ∷ []))))
unfolding dots
format_for_checksum-digits_example =
    format_for_checksum-digits (b'0' ∷ b'.' ∷ b'5' ∷ []) (omega arith)

abbrev ten : List (PriceLevel ℕ)
ten =
    level 9 1
    ∷ level 9 2
    ∷ level 9 3
    ∷ level 9 4
    ∷ level 9 5
    ∷ level 9 6
    ∷ level 9 7
    ∷ level 9 8
    ∷ level 9 9
    ∷ level 8 1
    ∷ []

same_top_ten : (j : ℕ) → j < 10 → get_elem? (ten ++ level 7 7 ∷ []) j ≡ get_elem? ten j
same_top_ten j h = get_elem?-append ten (level 7 7 ∷ []) j h

run-IsProper_example : IsProper small final_book
run-IsProper_example =
    run-IsProper small ltb-IsStrict (snapshot ∷ update ∷ []) "BTC/USD" final_book final_shown

level-apply_example :
    let after = (apply small book_engine "BTC/USD" (level 5 1 ∷ level 5 2 ∷ []) [] true 0).0 in
    (bid_at small ltb-IsStrict after "BTC/USD" 5
      ≡ outcome small.is_zero (latest (greater small) 5 (level 5 1 ∷ level 5 2 ∷ [])) none)
    × (ask_at small ltb-IsStrict after "BTC/USD" 5 ≡ outcome small.is_zero none none)
level-apply_example =
    level-apply small ltb-IsStrict book_engine "BTC/USD" (level 5 1 ∷ level 5 2 ∷ []) [] true 0 5
      (empty-AllValid small ltb-IsStrict)

apply-expected_example :
    let after = apply small book_engine "BTC/USD" (level 5 1 ∷ []) [] true 77 in
    (b : OrderBook ℕ) × (shown after.0 "BTC/USD" ≡ some b)
    × (b.checksum ≡ book_checksum small b)
    × (b.is_valid ≡ nat_beq b.checksum 77)
    × (after.1 ≡ b.is_valid)
apply-expected_example =
    apply-expected small book_engine "BTC/USD" (level 5 1 ∷ []) [] true 77 (omega arith)
