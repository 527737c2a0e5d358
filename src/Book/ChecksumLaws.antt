-- ===== src/Book/ChecksumLaws.antt =====
-- The text that the checksum is taken of.
use kraken_sdk.Common.{
  ℕ, zero, suc, ◌+◌, ◌≤◌, ◌<◌, ◌≡◌, ◌≢◌, refl, sym, subst, ◌∙◌, true, false, if◌then◌else◌, Option,
  none, some, List, [], ◌∷◌, arith, get_elem?, inl, inr, Option-cases, Bool-cases,
}
use kraken_sdk.Book.{
  PriceLevel, emit, unscanned, format_for_checksum, emit_scanned, checksum_data, calculate_checksum,
}
use kraken_sdk.Book.ChecksumText.{
  is_dot, is_zero_digit, is_significant, digits, strip_front, strip_onto, strip_back, or_zero, dots,
  first_sig, later, last_sig, last_dot, scan_lem, DotAt, DotAt-before, later-none, last_dot_here,
  last_dot_after, at_dot-last_dot,
}

dots_head : (c : ℕ) (cs : List ℕ) → is_dot c ≡ true → dots (c ∷ cs) ≤ 1 → dots cs ≡ 0
unfolding dots
dots_head c cs p h = ground arith

dots_tail : (c : ℕ) (cs : List ℕ) → dots (c ∷ cs) ≤ 1 → dots cs ≤ 1
unfolding dots
dots_tail c cs h = ground arith

DotAt-last_dot : (i : ℕ) (cs : List ℕ) → dots cs ≤ 1 → DotAt (last_dot i cs) i cs
DotAt-last_dot i [] h = tt
DotAt-last_dot i (c ∷ cs) h = elim (Bool-cases (is_dot c)) [
  | inl p ↦
      let clear = dots_head c cs p h in
      subst (λ o. DotAt o i (c ∷ cs)) (sym (last_dot_here i c cs p clear))
        (ground arith, DotAt-before i (suc i) cs clear (omega arith))
  | inr n ↦
      subst (λ o. DotAt o i (c ∷ cs)) (sym (last_dot_after i c cs n))
        (at_dot-last_dot i cs ∙ sym n, DotAt-last_dot (suc i) cs (dots_tail c cs h))
]

-- Behind the last significant character nothing is emitted.
emit_past :
    (first last i : ℕ) (dot : Option ℕ) (cs : List ℕ) → last < i → emit first last dot i cs ≡ []
unfolding emit
emit_past first last i dot [] h = refl
emit_past first last i dot (c ∷ cs) h = ground (arith, emit_past first last (suc i) dot cs)

last_sig-le : (i k : ℕ) (cs : List ℕ) → last_sig i cs ≡ some k → i ≤ k
unfolding last_sig
last_sig-le i k [] h = cc
last_sig-le i k (c ∷ cs) h = ground (arith, last_sig-le (suc i) k cs)

-- Without a significant character there are no digits but zeros.
strip_back_insignificant :
    (i : ℕ) (cs : List ℕ) → last_sig i cs ≡ none → strip_back (digits cs) ≡ []
unfolding last_sig digits strip_back
strip_back_insignificant i [] h = refl
strip_back_insignificant i (c ∷ cs) h = ground (arith, strip_back_insignificant (suc i) cs)

strip_back_significant :
    (i k : ℕ) (cs : List ℕ) → last_sig i cs ≡ some k → strip_back (digits cs) ≢ []
unfolding last_sig digits strip_back
strip_back_significant i k [] h = cc
strip_back_significant i k (c ∷ cs) h = ground (arith, strip_back_significant (suc i) k cs)

-- From the first significant character on, zeros are dropped at the end only.
emit_inside :
    (first last i : ℕ) (dot : Option ℕ) (cs : List ℕ)
    → first ≤ i
    → last_sig i cs ≡ some last
    → DotAt dot i cs
    → emit first last dot i cs ≡ strip_back (digits cs)
unfolding emit last_sig digits strip_back
emit_inside first last i dot [] f l d = refl
emit_inside first last i dot (c ∷ cs) f l d = ground (
  arith,
  emit_inside first last (suc i) dot cs,
  emit_past first last (suc i) dot cs,
  strip_back_insignificant (suc i) cs,
  strip_back_significant (suc i) last cs,
  last_sig-le (suc i) last cs,
)

first_sig-le : (i k : ℕ) (cs : List ℕ) → first_sig i cs ≡ some k → i ≤ k
unfolding first_sig
first_sig-le i k [] h = cc
first_sig-le i k (c ∷ cs) h = ground (arith, first_sig-le (suc i) k cs)

strip_front_significant :
    (c : ℕ) (cs : List ℕ)
    → is_significant c ≡ true
    → strip_front (digits (c ∷ cs)) ≡ digits (c ∷ cs)
unfolding digits strip_front
strip_front_significant c cs s = ground arith

strip_front_insignificant :
    (c : ℕ) (cs : List ℕ)
    → is_significant c ≡ false
    → strip_front (digits (c ∷ cs)) ≡ strip_front (digits cs)
unfolding digits strip_front
strip_front_insignificant c cs s = ground arith

first_sig_step :
    (i c : ℕ) (cs : List ℕ)
    → first_sig i (c ∷ cs) ≡ (if is_significant c then some i else first_sig (suc i) cs)
unfolding first_sig
first_sig_step i c cs = refl

last_sig_step :
    (i k c : ℕ) (cs : List ℕ)
    → is_significant c ≡ false
    → last_sig i (c ∷ cs) ≡ some k
    → last_sig (suc i) cs ≡ some k
unfolding last_sig
last_sig_step i k c cs s h = ground arith

emit_step :
    (first last i : ℕ) (dot : Option ℕ) (c : ℕ) (cs : List ℕ)
    → i < first
    → emit first last dot i (c ∷ cs) ≡ emit first last dot (suc i) cs
unfolding emit
emit_step first last i dot c cs h = ground arith

-- From the start, zeros are dropped at the front as well.
emit_from_start :
    (first last i : ℕ) (dot : Option ℕ) (cs : List ℕ)
    → first_sig i cs ≡ some first
    → last_sig i cs ≡ some last
    → DotAt dot i cs
    → emit first last dot i cs ≡ strip_back (strip_front (digits cs))
unfolding first_sig
emit_from_start first last i dot [] f l d = cc
emit_from_start first last i dot (c ∷ cs) f l d = elim (Bool-cases (is_significant c)) [
  | inl s ↦
      rw (strip_front_significant c cs s)
        (emit_inside first last i dot (c ∷ cs) (ground (arith, first_sig_step i c cs)) l d)
  | inr n ↦
      let f' : first_sig (suc i) cs ≡ some first = ground (arith, first_sig_step i c cs) in
      let passed = first_sig-le (suc i) first cs f' in
      rw (strip_front_insignificant c cs n, emit_step first last i dot c cs passed)
        (emit_from_start first last (suc i) dot cs f' (last_sig_step i last c cs n l) d.1)
]

no_first_no_last : (i : ℕ) (cs : List ℕ) → first_sig i cs ≡ none → last_sig i cs ≡ none
unfolding first_sig last_sig
no_first_no_last i [] h = refl
no_first_no_last i (c ∷ cs) h = ground (arith, no_first_no_last (suc i) cs)

first_then_last : (i k : ℕ) (cs : List ℕ) → first_sig i cs ≡ some k → last_sig i cs ≢ none
unfolding first_sig last_sig
first_then_last i k [] h = cc
first_then_last i k (c ∷ cs) h = ground (arith, first_then_last (suc i) k cs)

strip_front-none : (i : ℕ) (cs : List ℕ) → first_sig i cs ≡ none → strip_front (digits cs) ≡ []
unfolding first_sig digits strip_front
strip_front-none i [] h = refl
strip_front-none i (c ∷ cs) h = ground (arith, strip_front-none (suc i) cs)

strip_onto_ne_nil : (c : ℕ) (xs : List ℕ) → is_zero_digit c ≡ false → strip_onto c xs ≢ []
unfolding strip_onto
strip_onto_ne_nil c [] h e = ground arith
strip_onto_ne_nil c (x ∷ xs) h e = cc

emit_ne_nil :
    (i k : ℕ) (cs : List ℕ) → first_sig i cs ≡ some k → strip_back (strip_front (digits cs)) ≢ []
unfolding first_sig digits strip_front strip_back
emit_ne_nil i k [] h = cc
emit_ne_nil i k (c ∷ cs) h =
    ground (arith, emit_ne_nil (suc i) k cs, strip_onto_ne_nil c (strip_back (digits cs)))

or_zero_lem : (cs : List ℕ) → cs ≢ [] → or_zero cs ≡ cs
or_zero_lem [] h = absurd (h refl)
or_zero_lem (c ∷ cs) h = refl

scan_unscanned :
    (buf : List ℕ)
    → format_for_checksum buf ≡ emit_scanned (last_dot 0 buf) (first_sig 0 buf) (last_sig 0 buf) buf
unfolding format_for_checksum later
scan_unscanned buf =
    let (dot, first, last) = scan_lem unscanned 0 buf in
    rw (dot, first, last, later-none (last_dot 0 buf), later-none (last_sig 0 buf))

emit_scanned-some :
    (first last : ℕ) (buf : List ℕ)
    → first_sig 0 buf ≡ some first
    → last_sig 0 buf ≡ some last
    → dots buf ≤ 1
    → emit_scanned (last_dot 0 buf) (some first) (some last) buf
      ≡ or_zero (strip_back (strip_front (digits buf)))
unfolding emit_scanned
emit_scanned-some first last buf f l h =
    emit_from_start first last 0 (last_dot 0 buf) buf f l (DotAt-last_dot 0 buf h)
    ∙ sym (or_zero_lem _ (emit_ne_nil 0 first buf f))

-- Of a printed number with at most one decimal point the checksum takes the digits without the
-- point, without the zeros at either end, and a single zero if nothing else is left.
pub format_for_checksum-digits :
    (buf : List ℕ)
    → dots buf ≤ 1
    → format_for_checksum buf ≡ or_zero (strip_back (strip_front (digits buf)))
unfolding emit_scanned strip_back
format_for_checksum-digits buf h = elim (Option-cases (first_sig 0 buf)) [
  | inl f ↦ scan_unscanned buf ∙ rw (f, strip_front-none 0 buf f, emit_scanned, strip_back) refl
  | inr (first, f) ↦ elim (Option-cases (last_sig 0 buf)) [
    | inl l ↦ absurd (first_then_last 0 first buf f l)
    | inr (last, l) ↦ scan_unscanned buf ∙ rw (f, l) (emit_scanned-some first last buf f l h)
  ]
]

pub checksum_data-take :
    {F : Type 0} (print : F → List ℕ) (rounds i : ℕ) (asks bids asks' bids' : List (PriceLevel F))
    → ((j : ℕ) → j < i + rounds → get_elem? asks j ≡ get_elem? asks' j)
    → ((j : ℕ) → j < i + rounds → get_elem? bids j ≡ get_elem? bids' j)
    → checksum_data print rounds i asks bids ≡ checksum_data print rounds i asks' bids'
unfolding checksum_data
checksum_data-take print zero i asks bids asks' bids' ha hb = refl
checksum_data-take print (suc rounds) i asks bids asks' bids' ha hb = rw (
  ha i (omega arith),
  hb i (omega arith),
  checksum_data-take print rounds (suc i) asks bids asks' bids' (λ j lt. ha j (omega arith))
      (λ j lt. hb j (omega arith)),
)

-- Two order books with the same ten best bids and the same ten best asks have one checksum.
pub calculate_checksum_top_ten :
    {F : Type 0} (print : F → List ℕ) (bids asks bids' asks' : List (PriceLevel F))
    → ((j : ℕ) → j < 10 → get_elem? bids j ≡ get_elem? bids' j)
    → ((j : ℕ) → j < 10 → get_elem? asks j ≡ get_elem? asks' j)
    → calculate_checksum print bids asks ≡ calculate_checksum print bids' asks'
unfolding calculate_checksum
calculate_checksum_top_ten print bids asks bids' asks' hb ha =
    rw (checksum_data-take print 10 0 asks bids asks' bids' ha hb)
