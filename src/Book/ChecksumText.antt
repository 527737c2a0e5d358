-- ===== src/Book/ChecksumText.antt =====
-- What the scan of a printed number finds: its point and its first and last digit that counts.
use kraken_sdk.Common.{
  ℕ, suc, ◌≤◌, ◌<◌, ◌≡◌, refl, Bool, true, false, not, ◌&&◌, nat_beq, if◌then◌else◌, Option, none,
  some, List, [], ◌∷◌, arith, keep_if, inl, inr, Option-cases,
}
use kraken_sdk.Book.{Scan, scan_char, scan, at_dot}

abbrev pub is_dot : ℕ → Bool
is_dot c = nat_beq c b'.'

abbrev pub is_zero_digit : ℕ → Bool
is_zero_digit c = nat_beq c b'0'

abbrev pub is_significant : ℕ → Bool
is_significant c = not (is_dot c) && not (is_zero_digit c)

-- The specification: the digits without the point, without zeros at either end, or one zero.
unfoldable pub digits : List ℕ → List ℕ
digits = keep_if (λ c. not (is_dot c))

unfoldable pub strip_front : List ℕ → List ℕ
strip_front [] = []
strip_front (c ∷ cs) = if is_zero_digit c then strip_front cs else c ∷ cs

unfoldable pub strip_onto : ℕ → List ℕ → List ℕ
strip_onto c [] = if is_zero_digit c then [] else c ∷ []
strip_onto c (x ∷ xs) = c ∷ x ∷ xs

unfoldable pub strip_back : List ℕ → List ℕ
unfolding strip_onto
strip_back [] = []
strip_back (c ∷ cs) = strip_onto c (strip_back cs)

abbrev pub or_zero : List ℕ → List ℕ
or_zero [] = b'0' ∷ []
or_zero (c ∷ cs) = c ∷ cs

unfoldable pub dots : List ℕ → ℕ
dots [] = 0
dots (c ∷ cs) = if is_dot c then suc (dots cs) else dots cs

-- What the scan finds, from index `i` on.
unfoldable pub first_sig : ℕ → List ℕ → Option ℕ
first_sig i [] = none
first_sig i (c ∷ cs) = if is_significant c then some i else first_sig (suc i) cs

unfoldable pub later : Option ℕ → Option ℕ → Option ℕ
later (some k) o = some k
later none o = o

unfoldable pub last_sig : ℕ → List ℕ → Option ℕ
unfolding later
last_sig i [] = none
last_sig i (c ∷ cs) = later (last_sig (suc i) cs) (if is_significant c then some i else none)

unfoldable pub last_dot : ℕ → List ℕ → Option ℕ
unfolding later
last_dot i [] = none
last_dot i (c ∷ cs) = later (last_dot (suc i) cs) (if is_dot c then some i else none)

pub scan_lem :
    (s : Scan) (i : ℕ) (cs : List ℕ)
    → ((scan s i cs).dot_pos ≡ later (last_dot i cs) s.dot_pos)
      × ((scan s i cs).first_nonzero ≡ later s.first_nonzero (first_sig i cs))
      × ((scan s i cs).last_nonzero ≡ later (last_sig i cs) s.last_nonzero)
unfolding scan scan_char last_dot last_sig first_sig
scan_lem s i [] = ground arith
scan_lem s i (c ∷ cs) = ground (arith, scan_lem (scan_char s i c) (suc i) cs)

-- The point stands at the index `dot`, and nowhere else.
abbrev pub DotAt : Option ℕ → ℕ → List ℕ → Type 0
DotAt dot i [] = Unit
DotAt dot i (c ∷ cs) = (at_dot dot i ≡ is_dot c) × DotAt dot (suc i) cs

DotAt-none : (i : ℕ) (cs : List ℕ) → dots cs ≡ 0 → DotAt none i cs
unfolding dots
DotAt-none i [] h = tt
DotAt-none i (c ∷ cs) h = ground (arith, DotAt-none (suc i) cs)

pub DotAt-before : (d i : ℕ) (cs : List ℕ) → dots cs ≡ 0 → d < i → DotAt (some d) i cs
unfolding dots
DotAt-before d i [] h lt = tt
DotAt-before d i (c ∷ cs) h lt = ground (arith, DotAt-before d (suc i) cs)

last_dot-none : (i : ℕ) (cs : List ℕ) → dots cs ≡ 0 → last_dot i cs ≡ none
unfolding dots last_dot
last_dot-none i [] h = refl
last_dot-none i (c ∷ cs) h = ground (arith, last_dot-none (suc i) cs)

last_dot-le : (i d : ℕ) (cs : List ℕ) → last_dot i cs ≡ some d → i ≤ d
unfolding last_dot
last_dot-le i d [] h = cc
last_dot-le i d (c ∷ cs) h = ground (arith, last_dot-le (suc i) d cs)

pub later-none : (o : Option ℕ) → later o none ≡ o
unfolding later
later-none none = refl
later-none (some k) = refl

pub last_dot_here :
    (i c : ℕ) (cs : List ℕ) → is_dot c ≡ true → dots cs ≡ 0 → last_dot i (c ∷ cs) ≡ some i
unfolding last_dot
last_dot_here i c cs p h = ground (arith, last_dot-none (suc i) cs h)

pub last_dot_after :
    (i c : ℕ) (cs : List ℕ) → is_dot c ≡ false → last_dot i (c ∷ cs) ≡ last_dot (suc i) cs
unfolding last_dot
last_dot_after i c cs n = ground (arith, later-none (last_dot (suc i) cs))

pub at_dot-last_dot : (i : ℕ) (cs : List ℕ) → at_dot (last_dot (suc i) cs) i ≡ false
at_dot-last_dot i cs = elim (Option-cases (last_dot (suc i) cs)) [
  | inl e ↦ rw e
  | inr (d, e) ↦ rw e (ground (arith, last_dot-le (suc i) d cs e))
]
