-- ===== src/Common/Decimal.antt =====
-- `std::to_string` of integers, as the list of its bytes, and the number that such a text stands for.
use Prim.Native.Nat.{ℕ, zero, suc, ◌+◌, ◌-◌, ◌*◌, ◌/◌, ◌%◌, ◌^◌, ◌≤◌, ◌<◌}
use mathlib.Core.Path.{◌≡◌, refl, ap, ◌∙◌}
use mathlib.Core.List.{List, [], ◌∷◌, ◌++◌}
use native.Mathlib.Omega.{arith}
use kraken_sdk.Common.Tests.{if◌then◌else◌, ltb, nat_beq, Bool-cases}
use kraken_sdk.Common.Lists.{All}
use kraken_sdk.Common.Int.{ℤ, pos, negsuc}
use mathlib.Core.Logic.{inl, inr}

-- At most as many digits as the first number says.
unfoldable pub digits : ℕ → ℕ → List ℕ
digits zero n = []
digits (suc f) n =
    let rest = digits f (n / 10) in
    if ltb n 10 then (b'0' + n) ∷ [] else rest ++ ((b'0' + n % 10) ∷ [])

-- Numbers of 64 bits have 20 digits at most.
unfoldable pub to_string : ℕ → List ℕ
to_string n = digits 20 n

unfoldable pub int_to_string : ℤ → List ℕ
int_to_string (pos n) = to_string n
int_to_string (negsuc n) = b'-' ∷ to_string (suc n)

unfoldable pub read_digits : ℕ → List ℕ → ℕ
read_digits acc [] = acc
read_digits acc (c ∷ cs) = read_digits (acc * 10 + (c - b'0')) cs

unfoldable pub read_int : List ℕ → ℤ
read_int [] = pos 0
read_int (c ∷ cs) =
    if nat_beq c b'-' then negsuc (read_digits 0 cs - 1) else pos (read_digits 0 (c ∷ cs))

-- The first number with more than that many digits.
abbrev pub limit : ℕ → ℕ
limit zero = 1
limit (suc f) = 10 * limit f

abbrev pub IsDigit : ℕ → Type 0
IsDigit c = (b'0' ≤ c) × (c ≤ b'9')

read_digits-append :
    (acc c : ℕ) (xs : List ℕ)
    → read_digits acc (xs ++ (c ∷ [])) ≡ read_digits acc xs * 10 + (c - b'0')
unfolding read_digits
read_digits-append acc c [] = refl
read_digits-append acc c (x ∷ xs) = read_digits-append (acc * 10 + (x - b'0')) c xs

read_digits-digits : (f n : ℕ) → n < limit f → read_digits 0 (digits f n) ≡ n
unfolding digits read_digits
read_digits-digits zero n h = omega arith
read_digits-digits (suc f) n h = elim (Bool-cases (ltb n 10)) [
  | inl small ↦ rw small (omega arith)
  | inr large ↦
      rw
        (
          large,
          read_digits-append 0 (b'0' + n % 10) (digits f (n / 10)),
          read_digits-digits f (n / 10) (omega arith),
        )
        (omega arith)
]

All-append : (p : ℕ → Type 0) (xs : List ℕ) (c : ℕ) → All p xs → p c → All p (xs ++ (c ∷ []))
All-append p [] c h k = (k, tt)
All-append p (x ∷ xs) c (h, hs) k = (h, All-append p xs c hs k)

digits-All : (f n : ℕ) → All IsDigit (digits f n)
unfolding digits
digits-All zero n = tt
digits-All (suc f) n = elim (Bool-cases (ltb n 10)) [
  | inl small ↦ rw small ((omega arith, ground arith), tt)
  | inr large ↦ rw large (
      All-append IsDigit (digits f (n / 10)) (b'0' + n % 10) (digits-All f (n / 10))
        (omega arith, omega arith))
]

read_int-All : (xs : List ℕ) → All IsDigit xs → read_int xs ≡ pos (read_digits 0 xs)
unfolding read_int read_digits
read_int-All [] h = refl
read_int-All (c ∷ cs) h = ground (arith, h.0.0)

-- An integer of less than 64 bits.
abbrev pub Fits : ℤ → Type 0
Fits (pos n) = n < 2 ^ 64
Fits (negsuc n) = n < 2 ^ 64

All-weaken : (xs : List ℕ) → All IsDigit xs → All (λ c. (b'-' ≤ c) × (c ≤ b'9')) xs
All-weaken [] h = tt
All-weaken (x ∷ xs) (h, hs) = ((omega arith, h.1), All-weaken xs hs)

pub read_int-int_to_string : (z : ℤ) → Fits z → read_int (int_to_string z) ≡ z
unfolding int_to_string to_string
read_int-int_to_string (pos n) h =
    read_int-All (digits 20 n) (digits-All 20 n) ∙ ap pos (read_digits-digits 20 n (omega arith))
read_int-int_to_string (negsuc n) h =
    unfold read_int in
    ap (λ k. negsuc (k - 1)) (read_digits-digits 20 (suc n) (omega arith)) ∙ ap negsuc (omega arith)

pub int_to_string-All : (z : ℤ) → All (λ c. (b'-' ≤ c) × (c ≤ b'9')) (int_to_string z)
unfolding int_to_string to_string
int_to_string-All (pos n) = All-weaken (digits 20 n) (digits-All 20 n)
int_to_string-All (negsuc n) =
    ((omega arith, omega arith), All-weaken (digits 20 (suc n)) (digits-All 20 (suc n)))
