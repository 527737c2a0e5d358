-- ===== src/Telemetry/Scraping.antt =====
-- What a reader of the Prometheus format finds in the text of `to_prometheus`.
use kraken_sdk.Common.{
  ℕ, ◌≤◌, ◌≡◌, refl, sym, ap, ◌∙◌, Bool, true, false, not, ◌&&◌, nat_beq, if◌then◌else◌, List, [],
  ◌∷◌, ◌++◌, map, arith, subst, All, all_of, append_assoc,
}
use kraken_sdk.Common.Int.{ℤ, pos}
use kraken_sdk.Common.Texts.{codes}
use kraken_sdk.Connection.Split.{and-true}
use kraken_sdk.Common.Decimal.{
  int_to_string, read_int, Fits, read_int-int_to_string, int_to_string-All,
}
use kraken_sdk.Telemetry.{MetricsCollector}
use kraken_sdk.Telemetry.Exposition.{Family, family_text, expose, families, to_prometheus}

abbrev pub push : ℕ → List (List ℕ) → List (List ℕ)
push c [] = (c ∷ []) ∷ []
push c (line ∷ lines) = (c ∷ line) ∷ lines

unfoldable pub split_lines : List ℕ → List (List ℕ)
split_lines [] = []
split_lines (c ∷ cs) =
    let rest = split_lines cs in if nat_beq c b'\n' then [] ∷ rest else push c rest

-- The name up to the first blank, and the number behind it.
unfoldable pub sample : List ℕ → List ℕ × ℤ
sample [] = ([], pos 0)
sample (c ∷ cs) =
    let (name, value) = sample cs in if nat_beq c b' ' then ([], read_int cs) else (c ∷ name, value)

-- Comments and empty lines hold no sample.
abbrev pub samples_of : List (List ℕ) → List (List ℕ × ℤ)
samples_of [] = []
samples_of ([] ∷ lines) = samples_of lines
samples_of ((c ∷ cs) ∷ lines) =
    let rest = samples_of lines in if nat_beq c b'#' then rest else sample (c ∷ cs) ∷ rest

unfoldable pub scrape : List ℕ → List (List ℕ × ℤ)
scrape text = samples_of (split_lines text)

abbrev pub Line : List ℕ → Type 0
Line = All (λ c. nat_beq c b'\n' ≡ false)

-- Without a line feed and without a blank.
abbrev pub Word : List ℕ → Type 0
Word = All (λ c. (nat_beq c b'\n' ≡ false) × (nat_beq c b' ' ≡ false))

-- The same as tests.
abbrev one_line : List ℕ → Bool
one_line = all_of (λ c. not (nat_beq c b'\n'))

abbrev one_word : List ℕ → Bool
one_word = all_of (λ c. not (nat_beq c b'\n') && not (nat_beq c b' '))

abbrev is_name : List ℕ → Bool
is_name [] = false
is_name (c ∷ cs) = not (nat_beq c b'#') && one_word (c ∷ cs)

-- A metric whose name, help and kind do not disturb the format.
abbrev pub readable : Family → Bool
readable f = is_name (codes f.name) && (one_line (codes f.help) && one_line (codes f.kind))

one_line-Line : (xs : List ℕ) → one_line xs ≡ true → Line xs
one_line-Line [] h = tt
one_line-Line (x ∷ xs) h = (ground arith, one_line-Line xs (ground arith))

one_word-Word : (xs : List ℕ) → one_word xs ≡ true → Word xs
one_word-Word [] h = tt
one_word-Word (x ∷ xs) h = ((ground arith, ground arith), one_word-Word xs (ground arith))

Word-Line : (xs : List ℕ) → Word xs → Line xs
Word-Line [] h = tt
Word-Line (x ∷ xs) (h, hs) = (h.0, Word-Line xs hs)

Line-append : (xs ys : List ℕ) → Line xs → Line ys → Line (xs ++ ys)
Line-append [] ys h k = k
Line-append (x ∷ xs) ys (h, hs) k = (h, Line-append xs ys hs k)

number-Line : (xs : List ℕ) → All (λ c. (b'-' ≤ c) × (c ≤ b'9')) xs → Line xs
number-Line [] h = tt
number-Line (x ∷ xs) (h, hs) = (ground arith, number-Line xs hs)

split_lines-append :
    (xs ys : List ℕ) → Line xs → split_lines (xs ++ (b'\n' ∷ ys)) ≡ xs ∷ split_lines ys
unfolding split_lines
split_lines-append [] ys h = refl
split_lines-append (x ∷ xs) ys (h, hs) = rw (h, split_lines-append xs ys hs)

sample-append : (xs value : List ℕ) → Word xs → sample (xs ++ (b' ' ∷ value)) ≡ (xs, read_int value)
unfolding sample
sample-append [] value h = refl
sample-append (x ∷ xs) value (h, hs) = rw (h.1, sample-append xs value hs)

scrape-comment : (xs ys : List ℕ) → Line xs → scrape (b'#' ∷ (xs ++ (b'\n' ∷ ys))) ≡ scrape ys
unfolding scrape
scrape-comment xs ys h = ap samples_of (split_lines-append (b'#' ∷ xs) ys (refl, h))

scrape-sample :
    (c : ℕ) (name value ys : List ℕ)
    → nat_beq c b'#' ≡ false
    → Word (c ∷ name)
    → Line value
    → scrape ((c ∷ name) ++ (b' ' ∷ (value ++ (b'\n' ∷ ys))))
      ≡ (c ∷ name, read_int value) ∷ scrape ys
unfolding scrape
scrape-sample c name value ys hash word line =
    let whole =
      split_lines-append ((c ∷ name) ++ (b' ' ∷ value)) ys
        (Line-append (c ∷ name) (b' ' ∷ value) (Word-Line (c ∷ name) word) (refl, line)) in
    ap (λ text. samples_of (split_lines text))
      (sym (append_assoc (c ∷ name) (b' ' ∷ value) (b'\n' ∷ ys)))
    ∙ ap samples_of whole
    ∙ rw hash (ap (λ found. found ∷ scrape ys) (sample-append (c ∷ name) value word))

-- A line that begins with `#`, then two words.
scrape-header :
    (start name text ys : List ℕ)
    → Line start
    → Line name
    → Line text
    → scrape (b'#' ∷ (start ++ (name ++ (b' ' ∷ (text ++ (b'\n' ∷ ys)))))) ≡ scrape ys
scrape-header start name text ys h k l =
    ap (λ xs. scrape (b'#' ∷ xs))
      (ap (λ xs. start ++ xs) (sym (append_assoc name (b' ' ∷ text) (b'\n' ∷ ys)))
        ∙ sym (append_assoc start (name ++ (b' ' ∷ text)) (b'\n' ∷ ys)))
    ∙ scrape-comment (start ++ (name ++ (b' ' ∷ text))) ys
        (Line-append start (name ++ (b' ' ∷ text)) h (Line-append name (b' ' ∷ text) k (refl, l)))

split_name :
    (name : List ℕ)
    → is_name name ≡ true
    → (c : ℕ) × (cs : List ℕ) × (name ≡ c ∷ cs) × (nat_beq c b'#' ≡ false) × Word (c ∷ cs)
split_name [] h = absurd (ground arith)
split_name (c ∷ cs) h = (c, cs, refl, ground arith, one_word-Word (c ∷ cs) (ground arith))

pub scrape-family :
    (f : Family) (rest : List ℕ)
    → readable f ≡ true
    → Fits f.value
    → scrape (family_text f rest) ≡ (codes f.name, f.value) ∷ scrape rest
unfolding family_text codes
scrape-family f rest clean fits =
    let (named, others) =
      and-true (is_name (codes f.name)) (one_line (codes f.help) && one_line (codes f.kind))
        clean in
    let (help, kind) = and-true (one_line (codes f.help)) (one_line (codes f.kind)) others in
    let (c, cs, spelled, hash, word) = split_name (codes f.name) named in
    let name = subst Line (sym spelled) (Word-Line (c ∷ cs) word) in
    let sampled = codes f.name ++ (b' ' ∷ (int_to_string f.value ++ (b'\n' ∷ rest))) in
    let value = number-Line (int_to_string f.value) (int_to_string-All f.value) in
    scrape-header (codes " HELP ") (codes f.name) (codes f.help)
      (codes "# TYPE " ++ (codes f.name ++ (b' ' ∷ (codes f.kind ++ (b'\n' ∷ sampled)))))
      (one_line-Line (codes " HELP ") refl) name (one_line-Line (codes f.help) help)
    ∙ scrape-header (codes " TYPE ") (codes f.name) (codes f.kind) sampled
        (one_line-Line (codes " TYPE ") refl) name (one_line-Line (codes f.kind) kind)
    ∙ ap (λ xs. scrape (xs ++ (b' ' ∷ (int_to_string f.value ++ (b'\n' ∷ rest))))) spelled
    ∙ scrape-sample c cs (int_to_string f.value) rest hash word value
    ∙ rw (spelled, read_int-int_to_string f.value fits)

scrape-expose :
    (fs : List Family)
    → All (λ f. readable f ≡ true) fs
    → All (λ f. Fits f.value) fs
    → scrape (expose fs) ≡ map (λ f. (codes f.name, f.value)) fs
unfolding expose scrape split_lines
scrape-expose [] clean fits = refl
scrape-expose (f ∷ []) (clean, _) (fit, _) = scrape-family f [] clean fit
scrape-expose (f ∷ g ∷ fs) (clean, cleans) (fit, fits) =
    scrape-family f (b'\n' ∷ expose (g ∷ fs)) clean fit
    ∙ ap (λ found. (codes f.name, f.value) ∷ found) (scrape-expose (g ∷ fs) cleans fits)

all_of-All :
    {A : Type 0} → (p : A → Bool) (xs : List A) → all_of p xs ≡ true → All (λ x. p x ≡ true) xs
all_of-All p [] h = tt
all_of-All p (x ∷ xs) h =
    let (here, rest) = and-true (p x) (all_of p xs) h in (here, all_of-All p xs rest)

families-readable :
    (average : ℕ → ℕ → ℕ) (m : MetricsCollector) → all_of readable (families average m) ≡ true
unfolding codes
families-readable average m = refl

-- A reader of the text, who skips comments and empty lines and takes of any other line the name
-- up to the blank and the number behind it, finds every metric of the list with its value and
-- nothing else, if the values have at most 64 bits.
pub scrape-to_prometheus :
    (average : ℕ → ℕ → ℕ) (m : MetricsCollector)
    → All (λ f. Fits f.value) (families average m)
    → scrape (to_prometheus average m) ≡ map (λ f. (codes f.name, f.value)) (families average m)
unfolding to_prometheus
scrape-to_prometheus average m fits =
    scrape-expose (families average m)
      (all_of-All readable (families average m) (families-readable average m)) fits
