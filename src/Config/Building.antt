-- ===== src/Config/Building.antt =====
-- What `build` accepts, and where an accepted URL leads: src/core/config.cpp with
-- src/connection/connection.cpp.
use kraken_sdk.Common.{
  ℕ, ◌<◌, ◌≡◌, ◌≢◌, inl, inr, refl, ap, ◌∙◌, String, Bool, true, false, not, ◌&&◌, ◌||◌, nat_beq,
  some, List, [], ◌∷◌, ◌++◌, map, arith, string_key, ◌==◌, Bool-cases,
}
use kraken_sdk.Common.Texts.{codes, lower, begins_with}
use kraken_sdk.Backoff.Presets.{Factors}
use kraken_sdk.Connection.Address.{
  missing_host, Parsed, refused, parsed, parse_url, parse_authority, is_scheme, same_text, before,
  is_host_end,
}
use kraken_sdk.Connection.Split.{separator, split_scheme-separator, is_scheme-Lacks}
use kraken_sdk.Config.{
  Builder, no_queue_capacity, empty_url, bad_url_scheme, Built, rejected, built, strategy_or, build,
}

begins_with-append :
    (xs ys : List ℕ) → begins_with xs ys ≡ true → (rest : List ℕ) × (xs ≡ ys ++ rest)
unfolding begins_with
begins_with-append xs [] h = (xs, refl)
begins_with-append [] (y ∷ ys) h = ground arith
begins_with-append (x ∷ xs) (y ∷ ys) h =
    let same : x ≡ y = ground arith in
    let others : begins_with xs ys ≡ true = ground arith in
    let (rest, e) = begins_with-append xs ys others in
    (rest, ap (λ c. c ∷ xs) same ∙ ap (λ cs. y ∷ cs) e)

-- Refused, if at all, for a missing host.
abbrev pub Leads : Parsed → Type 0
Leads (refused e) = e ≡ missing_host
Leads (parsed u) = Unit

parse_authority-Leads : (scheme rest : List ℕ) → Leads (parse_authority scheme rest)
unfolding parse_authority
parse_authority-Leads scheme rest = elim (Bool-cases (same_text (before is_host_end rest) [])) [
  | inl empty ↦ rw empty refl
  | inr some_host ↦ rw some_host tt
]

-- A text that begins with a known scheme in small letters and the separator.
scheme-Leads :
    (text scheme rest : List ℕ)
    → is_scheme (map lower scheme) ≡ true
    → text ≡ scheme ++ separator rest
    → Leads (parse_url text)
unfolding parse_url
scheme-Leads text scheme rest known e =
    rw (e, split_scheme-separator scheme rest (is_scheme-Lacks scheme known), known)
      (parse_authority-Leads (map lower scheme) rest)

unfoldable pub has_scheme : String → Bool
has_scheme url = begins_with (codes url) (codes "ws://") || begins_with (codes url) (codes "wss://")

has_scheme-Leads : (url : String) → has_scheme url ≡ true → Leads (parse_url (codes url))
unfolding has_scheme codes lower
has_scheme-Leads url h = elim (Bool-cases (begins_with (codes url) (codes "ws://"))) [
  | inl plain ↦
      let (rest, e) = begins_with-append (codes url) (codes "ws://") plain in
      scheme-Leads (codes url) (codes "ws") rest refl e
  | inr other ↦
      let secure : begins_with (codes url) (codes "wss://") ≡ true = ground arith in
      let (rest, e) = begins_with-append (codes url) (codes "wss://") secure in
      scheme-Leads (codes url) (codes "wss") rest refl e
]

no_scheme :
    (url : String)
    → (not (begins_with (codes url) (codes "ws://"))
        && not (begins_with (codes url) (codes "wss://")))
      ≡ not (has_scheme url)
unfolding has_scheme
no_scheme url = ground arith

pub beq-ne : (url : String) → (url == "") ≡ false → url ≢ ""
beq-ne url h e = ground (arith, string_key.same_key_iff url "")

module _ {D : Type 0} (f : Factors D) where
  -- What `build` says of a builder.
  abbrev pub Judged : Builder D → Built D → Type 0
  Judged b (rejected no_queue_capacity) = b.config.queue_capacity ≡ 0
  Judged b (rejected empty_url) = (0 < b.config.queue_capacity) × (b.config.url ≡ "")
  Judged b (rejected bad_url_scheme) =
      (0 < b.config.queue_capacity) × (b.config.url ≢ "") × (has_scheme b.config.url ≡ false)
  Judged b (built c) =
      (0 < c.queue_capacity)
      × (has_scheme c.url ≡ true)
      × Leads (parse_url (codes c.url))
      × (c
          ≡ record b.config { backoff_strategy = some (strategy_or f b b.config.backoff_strategy) })

  -- `build` refuses a configuration just for an empty queue, or else for an empty URL, or else for one
  -- that begins with neither of the two schemes. What it builds is the configuration as it was set,
  -- with a strategy for the delays; and a connection to its URL can be made unless the host is
  -- missing.
  pub build-Judged : (b : Builder D) → Judged b (build f b)
  unfolding build
  build-Judged b =
      let url = b.config.url in
      elim (Bool-cases (nat_beq b.config.queue_capacity 0)) [
        | inl zero_there ↦ rw zero_there (ground arith)
        | inr some_there ↦
            let positive : 0 < b.config.queue_capacity = ground arith in
            elim (Bool-cases (url == "")) [
              | inl empty ↦
                  rw (some_there, empty) (positive, (string_key.same_key_iff url "").0 empty)
              | inr full ↦ elim (Bool-cases (has_scheme url)) [
                | inl known ↦
                    rw (some_there, full, no_scheme url, known)
                      (positive, known, has_scheme-Leads url known, refl)
                | inr unknown ↦
                    rw (some_there, full, no_scheme url, unknown)
                      (positive, beq-ne url full, unknown)
              ]
            ]
      ]
