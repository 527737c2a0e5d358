-- ===== src/Connection/Address.antt =====
-- `Connection::parse_url` of src/connection/connection.cpp.
--
-- A URL is the list of its bytes. A search with its start and its result `npos` is a split of the text
-- where the search stops.
use kraken_sdk.Common.{
  ℕ, Bool, true, false, ◌&&◌, ◌||◌, nat_beq, if◌then◌else◌, Option, none, some, List, [], ◌∷◌, map,
}
use kraken_sdk.Common.Texts.{codes, lower}

pub record Url : Type 0 where
  pub host : List ℕ
  pub port : List ℕ
  pub path : List ℕ

-- The three `std::invalid_argument` exceptions.
pub data UrlError : Type 0 where
  no_separator bad_scheme missing_host : UrlError

pub data Parsed : Type 0 where
  refused : UrlError → Parsed
  parsed : Url → Parsed

abbrev pub same_text : List ℕ → List ℕ → Bool
same_text [] [] = true
same_text [] (y ∷ ys) = false
same_text (x ∷ xs) [] = false
same_text (x ∷ xs) (y ∷ ys) = nat_beq x y && same_text xs ys

-- The text before the first byte that is sought, and the text from it on (`find`, `find_first_of`).
unfoldable pub before : (ℕ → Bool) → List ℕ → List ℕ
before stops [] = []
before stops (c ∷ cs) = let rest = before stops cs in if stops c then [] else c ∷ rest

unfoldable pub from : (ℕ → Bool) → List ℕ → List ℕ
from stops [] = []
from stops (c ∷ cs) = let rest = from stops cs in if stops c then c ∷ cs else rest

abbrev pub is_slash : ℕ → Bool
is_slash c = nat_beq c b'/'

abbrev pub is_host_end : ℕ → Bool
is_host_end c = nat_beq c b':' || nat_beq c b'/'

abbrev pub after_separator : List ℕ → Option (List ℕ)
after_separator (x ∷ y ∷ z ∷ rest) =
    if nat_beq x b':' && (nat_beq y b'/' && nat_beq z b'/') then some rest else none
after_separator _ = none

abbrev pub longer : ℕ → Option (List ℕ × List ℕ) → Option (List ℕ × List ℕ)
longer c none = none
longer c (some (before, after)) = some (c ∷ before, after)

abbrev pub split_here : Option (List ℕ) → Option (List ℕ × List ℕ) → Option (List ℕ × List ℕ)
split_here none rest = rest
split_here (some after) rest = some ([], after)

-- The text before the first "://", and the text behind it.
unfoldable pub split_scheme : List ℕ → Option (List ℕ × List ℕ)
split_scheme [] = none
split_scheme (c ∷ cs) = split_here (after_separator (c ∷ cs)) (longer c (split_scheme cs))

abbrev pub is_scheme : List ℕ → Bool
is_scheme scheme = same_text scheme (codes "wss") || same_text scheme (codes "ws")

unfoldable pub default_port : List ℕ → List ℕ
default_port scheme = if same_text scheme (codes "wss") then codes "443" else codes "80"

-- The path, from where the host or the port ends.
abbrev pub path_of : List ℕ → List ℕ
path_of [] = codes "/"
path_of (c ∷ cs) = if is_slash c then c ∷ cs else codes "/"

-- Behind the host: a port, or the path at once.
unfoldable pub port_and_path : List ℕ → List ℕ → List ℕ → Url
port_and_path scheme host [] = record { host = host; port = default_port scheme; path = path_of [] }
port_and_path scheme host (c ∷ cs) =
    if nat_beq c b':'
    then record { host = host; port = before is_slash cs; path = path_of (from is_slash cs) }
    else record { host = host; port = default_port scheme; path = path_of (c ∷ cs) }

unfoldable pub parse_authority : List ℕ → List ℕ → Parsed
parse_authority scheme rest =
    if same_text (before is_host_end rest) []
    then refused missing_host
    else parsed (port_and_path scheme (before is_host_end rest) (from is_host_end rest))

abbrev pub parse_split : Option (List ℕ × List ℕ) → Parsed
parse_split none = refused no_separator
parse_split (some (scheme, rest)) =
    if is_scheme (map lower scheme)
    then parse_authority (map lower scheme) rest
    else refused bad_scheme

unfoldable pub parse_url : List ℕ → Parsed
parse_url url = parse_split (split_scheme url)
