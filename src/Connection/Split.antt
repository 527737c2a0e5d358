-- ===== src/Connection/Split.antt =====
-- Where the searches of `parse_url` split a text.
use kraken_sdk.Common.{
  ℕ, ◌≡◌, ◌⊎◌, inl, inr, refl, ap, ◌∙◌, Bool, true, false, ◌&&◌, ◌||◌, nat_beq, Option, none, some,
  List, [], ◌∷◌, ◌++◌, map, arith, All, Bool-cases,
}
use kraken_sdk.Common.Texts.{codes, lower}
use kraken_sdk.Connection.Address.{
  same_text, before, from, after_separator, longer, split_here, split_scheme, is_scheme,
}

-- No byte of the text stops a search.
unfoldable pub Lacks : (ℕ → Bool) → List ℕ → Type 0
Lacks stops = All (λ c. stops c ≡ false)

-- A text that is empty or begins with a byte that stops the search.
abbrev pub Stops : (ℕ → Bool) → List ℕ → Type 0
Stops stops [] = Unit
Stops stops (c ∷ cs) = stops c ≡ true

pub before-append :
    (stops : ℕ → Bool) (xs ys : List ℕ)
    → Lacks stops xs
    → Stops stops ys
    → before stops (xs ++ ys) ≡ xs
unfolding before Lacks
before-append stops [] [] h k = refl
before-append stops [] (y ∷ ys) h k = rw k
before-append stops (x ∷ xs) ys (h, hs) k = rw (h, before-append stops xs ys hs k)

pub from-append :
    (stops : ℕ → Bool) (xs ys : List ℕ)
    → Lacks stops xs
    → Stops stops ys
    → from stops (xs ++ ys) ≡ ys
unfolding from Lacks
from-append stops [] [] h k = refl
from-append stops [] (y ∷ ys) h k = rw k
from-append stops (x ∷ xs) ys (h, hs) k = rw h (from-append stops xs ys hs k)

-- A cut never loses a byte, and stops where it should.
pub before-from : (stops : ℕ → Bool) (xs : List ℕ) → before stops xs ++ from stops xs ≡ xs
unfolding before from
before-from stops [] = refl
before-from stops (x ∷ xs) = let ih = before-from stops xs in ground arith

pub before-Lacks : (stops : ℕ → Bool) (xs : List ℕ) → Lacks stops (before stops xs)
unfolding before Lacks
before-Lacks stops [] = tt
before-Lacks stops (x ∷ xs) =
    let ih = before-Lacks stops xs in
    elim (Bool-cases (stops x)) [ inl here ↦ rw here tt | inr further ↦ rw further (further, ih) ]

pub from-Stops : (stops : ℕ → Bool) (xs : List ℕ) → Stops stops (from stops xs)
unfolding from
from-Stops stops [] = tt
from-Stops stops (x ∷ xs) =
    let ih = from-Stops stops xs in
    elim (Bool-cases (stops x)) [ inl here ↦ rw here here | inr further ↦ rw further ih ]

abbrev pub separator : List ℕ → List ℕ
separator rest = b':' ∷ b'/' ∷ b'/' ∷ rest

abbrev pub is_colon : ℕ → Bool
is_colon c = nat_beq c b':'

pub and-true : (a b : Bool) → (a && b) ≡ true → (a ≡ true) × (b ≡ true)
and-true a b h = ground arith

pub or-true : (a b : Bool) → (a || b) ≡ true → (a ≡ true) ⊎ (b ≡ true)
or-true a b h = ground arith

pair_of : Option (List ℕ × List ℕ) → List ℕ × List ℕ
pair_of none = ([], [])
pair_of (some p) = p

after_separator-none : (x : ℕ) (xs : List ℕ) → is_colon x ≡ false → after_separator (x ∷ xs) ≡ none
after_separator-none x [] h = refl
after_separator-none x (y ∷ []) h = refl
after_separator-none x (y ∷ z ∷ zs) h = rw h

pub split_scheme-separator :
    (xs rest : List ℕ) → Lacks is_colon xs → split_scheme (xs ++ separator rest) ≡ some (xs, rest)
unfolding split_scheme Lacks
split_scheme-separator [] rest h = refl
split_scheme-separator (x ∷ xs) rest (h, hs) =
    rw (after_separator-none x (xs ++ separator rest) h, split_scheme-separator xs rest hs)

after_separator-some : (xs rest : List ℕ) → after_separator xs ≡ some rest → xs ≡ separator rest
after_separator-some (x ∷ y ∷ z ∷ zs) rest h = ground arith
after_separator-some [] rest h = ground arith
after_separator-some (x ∷ []) rest h = ground arith
after_separator-some (x ∷ y ∷ []) rest h = ground arith

split_here-some :
    (c : ℕ) (cs : List ℕ) (scheme rest : List ℕ) (here : Option (List ℕ))
    (further : Option (List ℕ × List ℕ))
    → ((r : List ℕ) → here ≡ some r → c ∷ cs ≡ separator r)
    → ((s r : List ℕ) → further ≡ some (s, r) → cs ≡ s ++ separator r)
    → split_here here (longer c further) ≡ some (scheme, rest)
    → c ∷ cs ≡ scheme ++ separator rest
unfolding pair_of
split_here-some c cs scheme rest (some r) further h k e =
    let scheme_is : [] ≡ scheme = ap (λ o. (pair_of o).0) e in
    let rest_is : r ≡ rest = ap (λ o. (pair_of o).1) e in
    h r refl ∙ ap separator rest_is ∙ ap (λ xs. xs ++ separator rest) scheme_is
split_here-some c cs scheme rest none none h k e = ground arith
split_here-some c cs scheme rest none (some (s, r)) h k e =
    let scheme_is : c ∷ s ≡ scheme = ap (λ o. (pair_of o).0) e in
    let rest_is : r ≡ rest = ap (λ o. (pair_of o).1) e in
    ap (λ xs. c ∷ xs) (k s r refl)
    ∙ ap (λ xs. c ∷ (s ++ separator xs)) rest_is
    ∙ ap (λ xs. xs ++ separator rest) scheme_is

pub split_scheme-some :
    (url scheme rest : List ℕ)
    → split_scheme url ≡ some (scheme, rest)
    → url ≡ scheme ++ separator rest
unfolding split_scheme
split_scheme-some [] scheme rest e = ground arith
split_scheme-some (c ∷ cs) scheme rest e =
    split_here-some c cs scheme rest (after_separator (c ∷ cs)) (split_scheme cs)
      (after_separator-some (c ∷ cs)) (split_scheme-some cs) e

lower-colon : (c y : ℕ) → nat_beq (lower c) y ≡ true → is_colon y ≡ false → is_colon c ≡ false
unfolding lower
lower-colon c y h k = ground arith

same_text-Lacks :
    (xs ys : List ℕ) → same_text (map lower xs) ys ≡ true → Lacks is_colon ys → Lacks is_colon xs
unfolding Lacks
same_text-Lacks [] ys h k = tt
same_text-Lacks (x ∷ xs) [] h k = ground arith
same_text-Lacks (x ∷ xs) (y ∷ ys) h (k, ks) =
    let (first, others) = and-true (nat_beq (lower x) y) (same_text (map lower xs) ys) h in
    (lower-colon x y first k, same_text-Lacks xs ys others ks)

pub is_scheme-Lacks : (xs : List ℕ) → is_scheme (map lower xs) ≡ true → Lacks is_colon xs
unfolding codes Lacks
is_scheme-Lacks xs h =
    elim (or-true (same_text (map lower xs) (codes "wss")) (same_text (map lower xs) (codes "ws"))
      h) [
        | inl secure ↦ same_text-Lacks xs (codes "wss") secure (refl, (refl, (refl, tt)))
        | inr plain ↦ same_text-Lacks xs (codes "ws") plain (refl, (refl, tt))
      ]
