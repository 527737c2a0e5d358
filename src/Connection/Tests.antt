-- ===== src/Connection/Tests.antt =====
-- Concrete URLs and connections; thousandths of a token stand for doubles.
use kraken_sdk.Common.{
  ℕ, ◌+◌, ◌-◌, ◌*◌, ◌/◌, ◌≡◌, refl, true, ltb, leb, if◌then◌else◌, some, List, [], ◌∷◌, All, arith,
  inl, map,
}
use kraken_sdk.Common.Texts.{codes, lower}
use kraken_sdk.RateLimiter.{TokenArithmetic, Round, rate_limiter}
use kraken_sdk.Connection.{
  Connection, default_timeouts, default_security, tls_context, message_read, read_error, is_open,
  send,
}
use kraken_sdk.Connection.Address.{
  Url, parsed, refused, missing_host, bad_scheme, no_separator, parse_url, default_port, is_scheme,
  before, from, split_scheme, port_and_path, parse_authority,
}
use kraken_sdk.Connection.Split.{Lacks}
use kraken_sdk.Connection.Roundtrip.{IsUrl, print_url, print_portless, parse_url-print_url}
use kraken_sdk.Connection.Explanation.{Explained, parse_url-Explained}
use kraken_sdk.Connection.Sending.{
  Call, closes, sends, receives, Outcome, step, effects, Mute, send-Outcome, effects-Mute,
}

abbrev kraken : Url
kraken = record { host = codes "ws.kraken.com"; port = codes "443"; path = codes "/v2" }

abbrev local : Url
local = record { host = codes "a"; port = codes "81"; path = codes "/" }

parses :
    (parse_url (codes "wss://ws.kraken.com/v2") ≡ parsed kraken)
    × (parse_url (codes "WS://a:81") ≡ parsed local)
    × (parse_url (codes "ws://:81/") ≡ refused missing_host)
    × (parse_url (codes "https://a") ≡ refused bad_scheme)
    × (parse_url (codes "ws:/a") ≡ refused no_separator)
unfolding parse_url split_scheme before from port_and_path default_port codes lower parse_authority
parses = (refl, refl, refl, refl, refl)

kraken-IsUrl : IsUrl kraken
unfolding codes Lacks
kraken-IsUrl = record {
  host_some = λ h. ground arith;
  host_lacks = (
    refl,
    (
      refl,
      (refl, (refl, (refl, (refl, (refl, (refl, (refl, (refl, (refl, (refl, (refl, tt))))))))))),
    ),
  );
  port_lacks = (refl, (refl, (refl, tt)));
  path_slash = refl;
}

known : is_scheme (map lower (codes "WSS")) ≡ true
unfolding codes lower
known = refl

parse_url-print_url_example :
    (parse_url (print_url (codes "WSS") kraken) ≡ parsed kraken)
    × (kraken.port ≡ default_port (map lower (codes "WSS"))
        → parse_url (print_portless (codes "WSS") kraken) ≡ parsed kraken)
parse_url-print_url_example = parse_url-print_url (codes "WSS") kraken known kraken-IsUrl

parse_url-Explained_example : Explained (codes "ws://a:81/") (parse_url (codes "ws://a:81/"))
parse_url-Explained_example = parse_url-Explained (codes "ws://a:81/")

abbrev thousandths : TokenArithmetic ℕ
thousandths = record {
  of_size = λ n. n * 1000;
  zero = 0;
  has_token = λ x. leb 1000 x;
  is_positive = λ x. ltb 0 x;
  plus = λ x y. x + y;
  less_one = λ x. x - 1000;
  lower = λ x y. if leb x y then x else y;
  gained = λ rate ms. rate * ms / 1000;
  wait_ms = λ tokens rate. (1000 - tokens) * 1000 / rate;
}

abbrev linked : Connection ℕ
linked = record {
  url = kraken;
  timeouts = default_timeouts;
  tls = tls_context default_security;
  rate_limiter = some (rate_limiter thousandths 1000 2 true 0);
  has_stream = true;
  is_open_flag = true;
}

abbrev rounds : List Round
rounds = record { refill_now = 5; check_now = 30000000000; wait_now = 5 } ∷ []

send-Outcome_example :
    Outcome thousandths linked linked.rate_limiter 0 rounds true
      (send thousandths linked true 0 rounds true)
send-Outcome_example = send-Outcome thousandths linked true 0 rounds true opened (inl (omega arith))
  where
    opened : is_open linked true ≡ true
    opened = unfold is_open in refl

abbrev some_calls : List Call
some_calls = closes ∷ sends true 0 rounds true ∷ receives true (message_read "late") ∷ []

effects-Mute_example :
    All Mute (effects thousandths (step thousandths linked (receives true read_error)).0 some_calls)
effects-Mute_example =
    effects-Mute thousandths linked (receives true read_error) some_calls ((refl, refl, refl), tt)
      (refl, (refl, (refl, tt)))
