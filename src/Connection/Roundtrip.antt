-- ===== src/Connection/Roundtrip.antt =====
-- What `parse_url` makes of a URL, and what makes a URL again.
use kraken_sdk.Common.{
  ℕ, ◌≡◌, ◌≢◌, refl, sym, ap, ◌∙◌, true, false, List, [], ◌∷◌, ◌++◌, map, arith,
}
use kraken_sdk.Common.Texts.{lower}
use kraken_sdk.Connection.Address.{
  Url, parsed, same_text, is_slash, is_host_end, is_scheme, default_port, path_of, port_and_path,
  parse_authority, parse_url,
}
use kraken_sdk.Connection.Split.{
  Lacks, Stops, before-append, from-append, separator, split_scheme-separator, is_scheme-Lacks,
}

abbrev pub Slashed : List ℕ → Type 0
Slashed [] = ⊥
Slashed (c ∷ cs) = is_slash c ≡ true

-- A host that is not empty and ends where it should, a port without a slash, and a path that begins
-- with one.
pub record IsUrl (u : Url) : Type 0 where
  pub host_some : u.host ≢ []
  pub host_lacks : Lacks is_host_end u.host
  pub port_lacks : Lacks is_slash u.port
  pub path_slash : Slashed u.path

-- The text of a URL with its port, and of one without.
unfoldable pub print_url : List ℕ → Url → List ℕ
print_url scheme u = scheme ++ separator (u.host ++ (b':' ∷ (u.port ++ u.path)))

unfoldable pub print_portless : List ℕ → Url → List ℕ
print_portless scheme u = scheme ++ separator (u.host ++ u.path)

slash-path_of : (path : List ℕ) → Slashed path → path_of path ≡ path
slash-path_of [] h = ground arith
slash-path_of (c ∷ cs) h = rw h

slash-Stops : (path : List ℕ) → Slashed path → Stops is_slash path
slash-Stops [] h = tt
slash-Stops (c ∷ cs) h = h

slash-Stops_host : (path : List ℕ) → Slashed path → Stops is_host_end path
slash-Stops_host [] h = tt
slash-Stops_host (c ∷ cs) h = ground arith

same_text-nil : (xs : List ℕ) → xs ≢ [] → same_text xs [] ≡ false
same_text-nil [] h = absurd (h refl)
same_text-nil (x ∷ xs) h = refl

-- A text of a scheme, and behind the separator a host and a tail that ends it.
parse_url-tail :
    (scheme host tail : List ℕ)
    → is_scheme (map lower scheme) ≡ true
    → host ≢ []
    → Lacks is_host_end host
    → Stops is_host_end tail
    → parse_url (scheme ++ separator (host ++ tail))
      ≡ parsed (port_and_path (map lower scheme) host tail)
unfolding parse_url parse_authority
parse_url-tail scheme host tail h some_host lack stop =
    rw
      (
        split_scheme-separator scheme (host ++ tail) (is_scheme-Lacks scheme h),
        h,
        before-append is_host_end host tail lack stop,
        from-append is_host_end host tail lack stop,
        same_text-nil host some_host,
      )
      refl

port_and_path-colon :
    (scheme : List ℕ) (u : Url)
    → IsUrl u
    → port_and_path scheme u.host (b':' ∷ (u.port ++ u.path)) ≡ u
unfolding port_and_path
port_and_path-colon scheme u k =
    let stop = slash-Stops u.path k.path_slash in
    rw
      (
        before-append is_slash u.port u.path k.port_lacks stop,
        from-append is_slash u.port u.path k.port_lacks stop,
        slash-path_of u.path k.path_slash,
      )
      refl

port_and_path-slash :
    (scheme host path : List ℕ)
    → Slashed path
    → port_and_path scheme host path
      ≡ record { host = host; port = default_port scheme; path = path }
unfolding port_and_path
port_and_path-slash scheme host [] h = absurd h
port_and_path-slash scheme host (c ∷ cs) h = ground arith

-- Every URL is read back from its text, with its port written out, or left away where it is the
-- default port of the scheme; the scheme may have letters of any size.
pub parse_url-print_url :
    (scheme : List ℕ) (u : Url)
    → is_scheme (map lower scheme) ≡ true
    → IsUrl u
    → (parse_url (print_url scheme u) ≡ parsed u)
      × (u.port ≡ default_port (map lower scheme) → parse_url (print_portless scheme u) ≡ parsed u)
unfolding print_url print_portless
parse_url-print_url scheme u h k = (
  parse_url-tail scheme u.host (b':' ∷ (u.port ++ u.path)) h k.host_some k.host_lacks refl
      ∙ ap parsed (port_and_path-colon (map lower scheme) u k),
  λ default.
      parse_url-tail scheme u.host u.path h k.host_some k.host_lacks
        (slash-Stops_host u.path k.path_slash)
      ∙ ap parsed (port_and_path-slash (map lower scheme) u.host u.path k.path_slash)
      ∙ ap (λ p. parsed (record { host = u.host; port = p; path = u.path })) (sym default),
)
