-- ===== src/Book/Crc.antt =====
-- The checksum table against its definition: entry `i` is `i` after eight rounds of the reflected
-- CRC-32 polynomial 0xEDB88320.
use Prim.Native.Nat.{bit_xor}
use kraken_sdk.Common.{
  ℕ, zero, suc, ◌/◌, ◌%◌, ◌<◌, ◌≡◌, ◌≢◌, refl, Bool, true, false, not, ◌&&◌, leb, nat_beq,
  nat_beq_iff, if◌then◌else◌, List, [], ◌∷◌, arith,
}
use kraken_sdk.Book.{crc32_table, table_at, crc32_update}

-- One bit of the polynomial division.
abbrev crc_round : ℕ → ℕ
crc_round c = if nat_beq (c % 2) 1 then bit_xor (c / 2) 0xEDB88320 else c / 2

unfoldable pub crc_rounds : ℕ → ℕ → ℕ
crc_rounds zero c = c
crc_rounds (suc n) c = crc_rounds n (crc_round c)

-- Whether a test passes at every number below the second argument.
check_up : (ℕ → Bool) → ℕ → Bool
check_up p zero = true
check_up p (suc k) = check_up p k && p k

check_up_lem : (p : ℕ → Bool) (k i : ℕ) → i < k → check_up p k ≡ true → p i ≡ true
unfolding check_up
check_up_lem p zero i lt passed = elim lt [ ]
check_up_lem p (suc k) i lt passed = ground (arith, check_up_lem p k i)

-- The entries from 237 to 253.
abbrev pub is_damaged : ℕ → Bool
is_damaged i = leb 237 i && leb i 253

-- The entry is right just where it is not damaged.
abbrev entry_agrees : ℕ → Bool
entry_agrees i =
    if nat_beq (table_at crc32_table i) (crc_rounds 8 i) then not (is_damaged i) else is_damaged i

table_checked : check_up entry_agrees 256 ≡ true
unfolding check_up crc32_table crc_rounds
table_checked = refl

-- The 17 entries 237 to 253 of the table differ from the CRC-32 of the polynomial; the other 239
-- entries are right.
pub crc32_table_damaged :
    (i : ℕ)
    → i < 256
    → ((is_damaged i ≡ true → table_at crc32_table i ≢ crc_rounds 8 i)
        × (is_damaged i ≡ false → table_at crc32_table i ≡ crc_rounds 8 i))
crc32_table_damaged i h = ground (
  arith,
  check_up_lem entry_agrees 256 i h table_checked,
  nat_beq_iff (table_at crc32_table i) (crc_rounds 8 i),
)

-- The reference: the same loop with the right entries.
unfoldable pub crc32_reference : ℕ → List ℕ → ℕ
crc32_reference crc [] = crc
crc32_reference crc (c ∷ cs) =
    crc32_reference (bit_xor (crc_rounds 8 (bit_xor crc c % 256)) (crc / 256)) cs

-- No character leads to a damaged entry.
abbrev pub AvoidsDamage : ℕ → List ℕ → Type 0
AvoidsDamage crc [] = Unit
AvoidsDamage crc (c ∷ cs) =
    (is_damaged (bit_xor crc c % 256) ≡ false)
    × AvoidsDamage (bit_xor (crc_rounds 8 (bit_xor crc c % 256)) (crc / 256)) cs

-- A text none of whose characters leads to a damaged entry has the right CRC-32.
pub crc32_update-reference :
    (crc : ℕ) (cs : List ℕ) → AvoidsDamage crc cs → crc32_update crc cs ≡ crc32_reference crc cs
unfolding crc32_update crc32_reference
crc32_update-reference crc [] h = refl
crc32_update-reference crc (c ∷ cs) h =
    let i = bit_xor crc c % 256 in
    let entry = (crc32_table_damaged i (omega arith)).1 h.0 in
    let next = bit_xor (crc_rounds 8 i) (crc / 256) in
    rw (entry, crc32_update) (crc32_update-reference next cs h.1)
