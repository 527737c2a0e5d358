-- ===== src/Telemetry/Endpoints.antt =====
-- Where `export_metrics` sends the metrics.
use kraken_sdk.Common.{
  ℕ, ◌≡◌, refl, sym, ap, ◌∙◌, Bool, true, false, if◌then◌else◌, some, List, [], ◌∷◌, ◌++◌,
  append_assoc, append-nil, Bool-cases, inl, inr, subst,
}
use kraken_sdk.Common.Texts.{codes, has_text}
use kraken_sdk.Connection.Address.{is_slash, is_host_end, split_scheme}
use kraken_sdk.Connection.Split.{
  Lacks, Stops, before-append, from-append, separator, is_colon, split_scheme-separator,
}
use kraken_sdk.Telemetry.Exporter.{
  ends_slash, with_slash, complete, path_or_default, is_https, target_of, target_split, target,
}

-- A path is empty or begins with a slash.
abbrev pub IsPath : List ℕ → Type 0
IsPath = Stops is_slash

abbrev pub before_path : List ℕ → List ℕ → List ℕ → List ℕ
before_path scheme host port = scheme ++ separator (host ++ (b':' ∷ port))

-- The path that the metrics are posted to; the flag says that the endpoint names it already.
unfoldable pub posted : Bool → List ℕ → List ℕ
posted named path = if named then with_slash path else with_slash path ++ codes "v1/metrics"

ends_slash-append :
    (xs : List ℕ) (c : ℕ) (cs : List ℕ) → ends_slash (xs ++ (c ∷ cs)) ≡ ends_slash (c ∷ cs)
ends_slash-append [] c cs = refl
ends_slash-append (x ∷ []) c cs = refl
ends_slash-append (x ∷ y ∷ xs) c cs = ends_slash-append (y ∷ xs) c cs

ends_slash-Lacks : (xs : List ℕ) → Lacks is_slash xs → ends_slash xs ≡ false
unfolding Lacks
ends_slash-Lacks [] h = refl
ends_slash-Lacks (x ∷ []) h = h.0
ends_slash-Lacks (x ∷ y ∷ xs) (h, hs) = ends_slash-Lacks (y ∷ xs) hs

if-append :
    (b : Bool) (xs ys zs : List ℕ)
    → (if b then xs ++ ys else (xs ++ ys) ++ zs) ≡ xs ++ (if b then ys else ys ++ zs)
if-append true xs ys zs = refl
if-append false xs ys zs = append_assoc xs ys zs

-- A prefix that does not end in a slash may be left away.
with_slash-append :
    (xs path : List ℕ) → ends_slash xs ≡ false → with_slash (xs ++ path) ≡ xs ++ with_slash path
unfolding with_slash
with_slash-append xs [] h = rw (append-nil xs, h) refl
with_slash-append xs (c ∷ cs) h =
    rw (ends_slash-append xs c cs) (if-append (ends_slash (c ∷ cs)) xs (c ∷ cs) (codes "/"))

complete-append :
    (xs path : List ℕ)
    → ends_slash xs ≡ false
    → complete (xs ++ path)
      ≡ xs ++ posted (has_text (with_slash (xs ++ path)) (codes "/v1/metrics")) path
unfolding complete posted
complete-append xs path h =
    let named = has_text (with_slash (xs ++ path)) (codes "/v1/metrics") in
    ap (λ w. if named then w else w ++ codes "v1/metrics") (with_slash-append xs path h)
    ∙ if-append named xs (with_slash path) (codes "v1/metrics")

-- What is posted to is a path, and not empty.
posted-IsPath :
    (named : Bool) (path : List ℕ)
    → IsPath path
    → IsPath (posted named path) × (path_or_default (posted named path) ≡ posted named path)
unfolding posted with_slash codes
posted-IsPath true [] h = (refl, refl)
posted-IsPath false [] h = (refl, refl)
posted-IsPath true (c ∷ cs) h = elim (Bool-cases (ends_slash (c ∷ cs))) [
  | inl slash ↦ rw slash (h, refl)
  | inr other ↦ rw other (h, refl)
]
posted-IsPath false (c ∷ cs) h = elim (Bool-cases (ends_slash (c ∷ cs))) [
  | inl slash ↦ rw slash (h, refl)
  | inr other ↦ rw other (h, refl)
]

-- The text of an endpoint.
unfoldable pub print_endpoint : List ℕ → List ℕ → List ℕ → List ℕ → List ℕ
print_endpoint scheme host port path = scheme ++ separator (host ++ (b':' ∷ (port ++ path)))

before_path-append :
    (scheme host port path : List ℕ)
    → before_path scheme host port ++ path ≡ print_endpoint scheme host port path
unfolding print_endpoint
before_path-append scheme host port path =
    append_assoc scheme (separator (host ++ (b':' ∷ port))) path
    ∙ ap (λ xs. scheme ++ separator xs) (append_assoc host (b':' ∷ port) path)

ends_slash-before_path :
    (scheme host port : List ℕ)
    → Lacks is_slash port
    → ends_slash (before_path scheme host port) ≡ false
unfolding Lacks
ends_slash-before_path scheme host port h =
    ap ends_slash (sym (append_assoc scheme (separator host) (b':' ∷ port)))
    ∙ ends_slash-append (scheme ++ separator host) b':' port
    ∙ ends_slash-Lacks (b':' ∷ port) (refl, h)

target-separator :
    (scheme rest : List ℕ)
    → target (scheme ++ separator rest)
      ≡ target_split (split_scheme (complete (scheme ++ separator rest)))
unfolding target
target-separator [] rest = refl
target-separator (c ∷ cs) rest = refl

target_split-print_endpoint :
    (scheme host port path : List ℕ)
    → Lacks is_colon scheme
    → Lacks is_host_end host
    → Lacks is_slash port
    → IsPath path
    → target_split (split_scheme (print_endpoint scheme host port path))
      ≡ some (record {
        secure = is_https scheme;
        host = host;
        port = port;
        path = path_or_default path;
      })
unfolding print_endpoint target_of
target_split-print_endpoint scheme host port path h k l stop =
    rw
      (
        split_scheme-separator scheme (host ++ (b':' ∷ (port ++ path))) h,
        before-append is_host_end host (b':' ∷ (port ++ path)) k refl,
        from-append is_host_end host (b':' ∷ (port ++ path)) k refl,
        before-append is_slash port path l stop,
        from-append is_slash port path l stop,
      )
      refl

complete-print_endpoint :
    (scheme host port path : List ℕ)
    → Lacks is_slash port
    → complete (print_endpoint scheme host port path)
      ≡ print_endpoint scheme host port (
          posted
            (has_text (with_slash (print_endpoint scheme host port path)) (codes "/v1/metrics"))
            path)
complete-print_endpoint scheme host port path h =
    let named : List ℕ → Bool = λ e. has_text (with_slash e) (codes "/v1/metrics") in
    let start = before_path scheme host port in
    subst (λ e. complete e ≡ print_endpoint scheme host port (posted (named e) path))
      (before_path-append scheme host port path)
      (complete-append start path (ends_slash-before_path scheme host port h)
        ∙ before_path-append scheme host port (posted (named (start ++ path)) path))

-- Metrics for an endpoint that names a scheme, a host, a port and perhaps a path go to that host and
-- port, with TLS exactly for `https`; the path ends in a slash where the endpoint with that slash
-- has `/v1/metrics` anywhere, and in `/v1/metrics` elsewhere. The scheme has no colon, the host
-- neither colon nor slash, the port no slash, and the path is empty or begins with a slash.
pub target-print_endpoint :
    (scheme host port path : List ℕ)
    → Lacks is_colon scheme
    → Lacks is_host_end host
    → Lacks is_slash port
    → IsPath path
    → target (print_endpoint scheme host port path)
      ≡ some (record {
        secure = is_https scheme;
        host = host;
        port = port;
        path =
            posted
              (has_text (with_slash (print_endpoint scheme host port path)) (codes "/v1/metrics"))
              path;
      })
unfolding print_endpoint
target-print_endpoint scheme host port path h k l stop =
    let named =
      has_text (with_slash (print_endpoint scheme host port path)) (codes "/v1/metrics") in
    let (is_path, given) = posted-IsPath named path stop in
    target-separator scheme (host ++ (b':' ∷ (port ++ path)))
    ∙ ap (λ e. target_split (split_scheme e)) (complete-print_endpoint scheme host port path l)
    ∙ target_split-print_endpoint scheme host port (posted named path) h k l is_path
    ∙ ap (λ p. some (record { secure = is_https scheme; host = host; port = port; path = p })) given
