-- ===== src/Connection/Explanation.antt =====
-- What `parse_url` says of any text.
use kraken_sdk.Common.{
  ℕ, ◌≡◌, ◌≢◌, ◌⊎◌, inl, inr, subst, Bool, refl, sym, ap, ◌∙◌, true, false, ◌||◌, nat_beq,
  nat_beq_iff, Option, none, some, List, [], ◌∷◌, ◌++◌, map, arith, Bool-cases,
}
use kraken_sdk.Common.Texts.{codes, lower}
use kraken_sdk.Connection.Address.{
  Url, no_separator, bad_scheme, missing_host, Parsed, refused, parsed, same_text, before, from,
  is_slash, is_host_end, split_here, longer, after_separator, split_scheme, is_scheme, default_port,
  path_of, port_and_path, parse_authority, parse_split, parse_url,
}
use kraken_sdk.Connection.Split.{
  Lacks, Stops, before-from, before-Lacks, from-Stops, separator, split_scheme-separator,
  split_scheme-some, is_scheme-Lacks, or-true, and-true,
}
use kraken_sdk.Connection.Roundtrip.{Slashed, IsUrl}

-- The two schemes with their ports, in letters of any size.
abbrev pub Known : List ℕ → List ℕ → Type 0
Known scheme port =
    ((map lower scheme ≡ codes "wss") × (port ≡ codes "443"))
    ⊎ ((map lower scheme ≡ codes "ws") × (port ≡ codes "80"))

abbrev pub Unknown : List ℕ → Type 0
Unknown scheme = (map lower scheme ≢ codes "wss") × (map lower scheme ≢ codes "ws")

-- How the text of a URL is made: the port and the path are each written out, or left away.
pub record Spells (url : List ℕ) (u : Url) : Type 0 where
  pub scheme : List ℕ
  pub standard : List ℕ
  pub port_part : List ℕ
  pub path_part : List ℕ
  pub known : Known scheme standard
  pub text : url ≡ scheme ++ separator (u.host ++ (port_part ++ path_part))
  pub port_written : (port_part ≡ b':' ∷ u.port) ⊎ ((port_part ≡ []) × (u.port ≡ standard))
  pub path_written : (path_part ≡ u.path) ⊎ ((path_part ≡ []) × (u.path ≡ codes "/"))

abbrev pub Explained : List ℕ → Parsed → Type 0
Explained url (refused no_separator) = (scheme rest : List ℕ) → url ≢ scheme ++ separator rest
Explained url (refused bad_scheme) =
    ((scheme : List ℕ) × (rest : List ℕ) × (url ≡ scheme ++ separator rest))
    × ((scheme rest : List ℕ) → url ≡ scheme ++ separator rest → Unknown scheme)
Explained url (refused missing_host) =
    (scheme : List ℕ) × (standard : List ℕ) × (rest : List ℕ) × Known scheme standard
    × (url ≡ scheme ++ separator rest)
    × Stops is_host_end rest
Explained url (parsed u) = IsUrl u × Spells url u

pub same_text-eq : (xs ys : List ℕ) → same_text xs ys ≡ true → xs ≡ ys
same_text-eq [] [] h = refl
same_text-eq [] (y ∷ ys) h = ground arith
same_text-eq (x ∷ xs) [] h = ground arith
same_text-eq (x ∷ xs) (y ∷ ys) h =
    let (first, others) = and-true (nat_beq x y) (same_text xs ys) h in
    let here = (nat_beq_iff x y).0 first in rw (here, same_text-eq xs ys others) refl

same_text_refl : (xs : List ℕ) → same_text xs xs ≡ true
same_text_refl [] = refl
same_text_refl (x ∷ xs) = rw ((nat_beq_iff x x).1 refl, same_text_refl xs) refl

is_scheme-Known :
    (scheme : List ℕ)
    → is_scheme (map lower scheme) ≡ true
    → Known scheme (default_port (map lower scheme))
unfolding default_port
is_scheme-Known scheme h =
    let text = map lower scheme in
    elim (Bool-cases (same_text text (codes "wss"))) [
      | inl secure ↦ rw secure (inl (same_text-eq text (codes "wss") secure, refl))
      | inr other ↦ elim (or-true (same_text text (codes "wss")) (same_text text (codes "ws")) h) [
        | inl secure ↦ rw secure (inl (same_text-eq text (codes "wss") secure, refl))
        | inr plain ↦ rw other (inr (same_text-eq text (codes "ws") plain, refl))
      ]
    ]

or-false : (a b : Bool) → (a || b) ≡ false → (a ≡ false) × (b ≡ false)
or-false a b h = ground arith

true-false : (b : Bool) → b ≡ true → b ≡ false → ⊥
true-false b h k = ground arith

is_scheme-Unknown : (scheme : List ℕ) → is_scheme (map lower scheme) ≡ false → Unknown scheme
is_scheme-Unknown scheme h =
    let text = map lower scheme in
    let same : (name : List ℕ) → text ≡ name → same_text text name ≡ true =
      λ name e. subst (λ t. same_text t name ≡ true) (sym e) (same_text_refl name) in
    let (secure, plain) = or-false (same_text text (codes "wss")) (same_text text (codes "ws")) h in
    (
      λ e. true-false (same_text text (codes "wss")) (same (codes "wss") e) secure,
      λ e. true-false (same_text text (codes "ws")) (same (codes "ws") e) plain,
    )

Slashed-path_of :
    (rest : List ℕ)
    → Stops is_slash rest
    → Slashed (path_of rest) × ((rest ≡ path_of rest) ⊎ ((rest ≡ []) × (path_of rest ≡ codes "/")))
unfolding codes
Slashed-path_of [] h = (refl, inr (refl, refl))
Slashed-path_of (c ∷ cs) h = rw h (h, inl refl)

-- What the text behind the host is made of.
abbrev Tail : Url → List ℕ → List ℕ → Type 0
Tail u standard tail =
    (port_part : List ℕ) × (path_part : List ℕ) × (tail ≡ port_part ++ path_part)
    × ((port_part ≡ b':' ∷ u.port) ⊎ ((port_part ≡ []) × (u.port ≡ standard)))
    × ((path_part ≡ u.path) ⊎ ((path_part ≡ []) × (u.path ≡ codes "/")))

default_port-Lacks : (scheme : List ℕ) → Lacks is_slash (default_port scheme)
unfolding default_port codes Lacks
default_port-Lacks scheme = elim (Bool-cases (same_text scheme (codes "wss"))) [
  | inl secure ↦ rw secure (refl, (refl, (refl, tt)))
  | inr plain ↦ rw plain (refl, (refl, tt))
]

colon_or_slash : (c : ℕ) → is_host_end c ≡ true → nat_beq c b':' ≡ false → is_slash c ≡ true
colon_or_slash c h k = ground arith

port_and_path-Tail :
    (scheme host tail : List ℕ)
    → host ≢ []
    → Lacks is_host_end host
    → Stops is_host_end tail
    → let u = port_and_path scheme host tail in
      (u.host ≡ host) × IsUrl u × Tail u (default_port scheme) tail
unfolding port_and_path
port_and_path-Tail scheme host [] n l stop =
    let (slashed, path) = Slashed-path_of [] tt in
    (
      refl,
      record {
        host_some = n;
        host_lacks = l;
        port_lacks = default_port-Lacks scheme;
        path_slash = slashed;
      },
      ([], [], refl, inr (refl, refl), path),
    )
port_and_path-Tail scheme host (c ∷ cs) n l stop = elim (Bool-cases (nat_beq c b':')) [
  | inl colon ↦
      let (slashed, path) = Slashed-path_of (from is_slash cs) (from-Stops is_slash cs) in
      let here = (nat_beq_iff c b':').0 colon in
      rw colon (
        refl,
        record {
          host_some = n;
          host_lacks = l;
          port_lacks = before-Lacks is_slash cs;
          path_slash = slashed;
        },
        (
          b':' ∷ before is_slash cs,
          from is_slash cs,
          rw (here, before-from is_slash cs) refl,
          inl refl,
          path,
        ),
      )
  | inr other ↦
      let (slashed, path) = Slashed-path_of (c ∷ cs) (colon_or_slash c stop other) in
      rw other (
        refl,
        record {
          host_some = n;
          host_lacks = l;
          port_lacks = default_port-Lacks scheme;
          path_slash = slashed;
        },
        ([], c ∷ cs, refl, inr (refl, refl), path),
      )
]

nil-same_text : (xs : List ℕ) → same_text xs [] ≡ false → xs ≢ []
nil-same_text [] h e = ground arith
nil-same_text (x ∷ xs) h e = ground arith

-- A text whose search stops at once.
before-nil : (stops : ℕ → Bool) (xs : List ℕ) → before stops xs ≡ [] → Stops stops xs
unfolding before
before-nil stops [] h = tt
before-nil stops (x ∷ xs) h = ground arith

parse_authority-Explained :
    (url scheme rest : List ℕ)
    → is_scheme (map lower scheme) ≡ true
    → url ≡ scheme ++ separator rest
    → Explained url (parse_authority (map lower scheme) rest)
unfolding parse_authority
parse_authority-Explained url scheme rest h e =
    let host = before is_host_end rest in
    let tail = from is_host_end rest in
    let known = is_scheme-Known scheme h in
    elim (Bool-cases (same_text host [])) [
      | inl none_there ↦ rw none_there (
        scheme,
        default_port (map lower scheme),
        rest,
        known,
        e,
        before-nil is_host_end rest (same_text-eq host [] none_there),
      )
      | inr some_there ↦
          let (same, proper, parts) =
            port_and_path-Tail (map lower scheme) host tail (nil-same_text host some_there)
              (before-Lacks is_host_end rest) (from-Stops is_host_end rest) in
          let (port_part, path_part, cut, port, path) = parts in
          let whole : rest ≡ host ++ tail = sym (before-from is_host_end rest) in
          rw some_there (
            proper,
            record {
              scheme = scheme;
              standard = default_port (map lower scheme);
              port_part = port_part;
              path_part = path_part;
              known = known;
              text =
                  e
                  ∙ ap (λ r. scheme ++ separator r)
                      (whole
                        ∙ ap (λ x. host ++ x) cut
                        ∙ ap (λ x. x ++ (port_part ++ path_part)) (sym same));
              port_written = port;
              path_written = path;
            },
          )
    ]

split_here-there :
    (c : ℕ) (here : Option (List ℕ)) (further : Option (List ℕ × List ℕ))
    → further ≢ none
    → split_here here (longer c further) ≢ none
split_here-there c none none h e = h refl
split_here-there c none (some (s, r)) h e = ground arith
split_here-there c (some r) further h e = ground arith

-- A separator is found.
split_scheme-there : (xs rest : List ℕ) → split_scheme (xs ++ separator rest) ≢ none
unfolding split_scheme
split_scheme-there [] rest e = ground arith
split_scheme-there (x ∷ xs) rest e =
    split_here-there x (after_separator (x ∷ (xs ++ separator rest)))
      (split_scheme (xs ++ separator rest)) (split_scheme-there xs rest) e

scheme_of : Option (List ℕ × List ℕ) → List ℕ
scheme_of none = []
scheme_of (some p) = p.0

-- A known scheme stands before the first separator.
first_split :
    {scheme rest : List ℕ} (s r : List ℕ)
    → some (scheme, rest) ≡ split_scheme (s ++ separator r)
    → is_scheme (map lower scheme) ≡ false
    → is_scheme (map lower s) ≡ false
unfolding scheme_of
first_split {scheme} s r e h = elim (Bool-cases (is_scheme (map lower s))) [
  | inl known ↦
      let same : scheme ≡ s =
        ap scheme_of (e ∙ split_scheme-separator s r (is_scheme-Lacks s known)) in
      sym (ap (λ x. is_scheme (map lower x)) same) ∙ h
  | inr unknown ↦ unknown
]

parse_split-Explained :
    (url : List ℕ) (split : Option (List ℕ × List ℕ))
    → split_scheme url ≡ split
    → Explained url (parse_split split)
parse_split-Explained url none h =
    λ scheme rest e. split_scheme-there scheme rest (ap split_scheme (sym e) ∙ h)
parse_split-Explained url (some (scheme, rest)) h =
    let text = split_scheme-some url scheme rest h in
    elim (Bool-cases (is_scheme (map lower scheme))) [
      | inl known ↦ rw known (parse_authority-Explained url scheme rest known text)
      | inr unknown ↦ rw unknown (
        (scheme, rest, text),
        λ s r e. is_scheme-Unknown s (first_split s r (sym h ∙ ap split_scheme e) unknown),
      )
    ]

-- A text without a separator `://` is refused for that. Where none of the texts before a separator
-- is `ws` or `wss`, in letters of any size, it is refused for its scheme; where a colon, a slash or
-- nothing stands behind the separator, for its host. Else the URL has a host that is not empty and
-- has neither colon nor slash, a port without a slash and a path that begins with one, and the text
-- is the scheme, the separator, the host, a colon and the port, or neither and the port is that of
-- the scheme, and the path, or nothing and the path is `/`.
pub parse_url-Explained : (url : List ℕ) → Explained url (parse_url url)
unfolding parse_url
parse_url-Explained url = parse_split-Explained url (split_scheme url) refl
