-- ===== src/Parser/Errors.antt =====
-- Which texts the parser refuses.
use kraken_sdk.Common.{
  ℕ, ◌≡◌, refl, String, Bool, true, false, not, ◌&&◌, ◌||◌, Option, none, some, List, [], ◌∷◌,
  string_key, ◌==◌, arith, any_of, ap, ◌∙◌, subst,
}
use kraken_sdk.Market.{Ticker, ErrorCode, parse_error, Error, MessageData, of_error, Message}
use kraken_sdk.Parser.{
  Json, or_default, first_of, strict_of, parse_ticker, get_double_strict, bind_option, get_string,
}
use kraken_sdk.Parser.Routing.{
  blank, ticker_message, route, numbered, data_message, system_message, parse_object,
  parse_document, parse_message, error_code_of,
}

-- The data of a ticker message has a field that is no number.
abbrev pub is_none : {A : Type 0} → Option A → Bool
is_none none = true
is_none (some a) = false

abbrev pub error_of : {F : Type 0} → MessageData F → Option Error
error_of (of_error e) = some e
error_of _ = none

abbrev pub is_parse_code : ErrorCode → Bool
is_parse_code parse_error = true
is_parse_code _ = false

abbrev pub is_parse_error : Option Error → Bool
is_parse_error none = false
is_parse_error (some e) = is_parse_code e.code

-- The text that an error message carries along.
abbrev pub KeepsText : String → Option Error → Type 0
KeepsText raw none = Unit
KeepsText raw (some e) = e.details ≡ raw

-- The numbers of a ticker.
abbrev pub numbers : List String
numbers = "bid" ∷ "ask" ∷ "last" ∷ "volume" ∷ "high" ∷ "low" ∷ []

module _ {V F : Type 0} (j : Json V F) where
  -- Neither a number nor the text of one.
  abbrev pub names_no_number : Option String → Bool
  names_no_number none = true
  names_no_number (some text) = is_none (j.stod text)

  abbrev pub bad_number : Option V → Bool
  bad_number none = false
  bad_number (some v) = is_none (j.as_number v) && names_no_number (j.as_string v)

  -- An update of a ticker of which some number is present and no number.
  abbrev pub bad_ticker : String → Option (List V) → Bool
  bad_ticker channel none = false
  bad_ticker channel (some []) = false
  bad_ticker channel (some (v ∷ vs)) =
      (channel == "ticker") && any_of (λ name. bad_number (j.find v name)) numbers

  -- The text of a member; empty where there is none or it is no text.
  abbrev pub text_or_empty : Option String → String
  text_or_empty none = ""
  text_or_empty (some text) = text

  abbrev pub text_in : Option V → String
  text_in none = ""
  text_in (some v) = text_or_empty (j.as_string v)

  get_string-text_in : (v : V) (name : String) → get_string j v name "" ≡ text_in (j.find v name)
  unfolding get_string
  get_string-text_in v name = found (j.find v name)
    where
      spelled : (o : Option String) → or_default o "" ≡ text_or_empty o
      spelled none = refl
      spelled (some text) = refl

      found : (o : Option V) → or_default (bind_option o j.as_string) "" ≡ text_in o
      found none = refl
      found (some w) = spelled (j.as_string w)

  first_of-bad_number :
      (a : Option F) (t : Option String)
      → is_none (first_of a (bind_option t j.stod)) ≡ (is_none a && names_no_number t)
  first_of-bad_number (some x) t = refl
  first_of-bad_number none none = refl
  first_of-bad_number none (some text) = refl

  strict_of-bad_number :
      (o : Option V) (default : F) → is_none (strict_of j o default) ≡ bad_number o
  strict_of-bad_number none default = refl
  strict_of-bad_number (some v) default = first_of-bad_number (j.as_number v) (j.as_string v)

  bind_option-none :
      {A B : Type 0}
      → (o : Option A) (f : A → Option B) (b : Bool) → ((a : A) → is_none (f a) ≡ b)
      → is_none (bind_option o f) ≡ (is_none o || b)
  bind_option-none none f b h = refl
  bind_option-none (some a) f b h = h a

  read-bad_number :
      (v : V) (name : String) {B : Type 0}
      → (f : F → Option B) (b : Bool) → ((a : F) → is_none (f a) ≡ b)
      → is_none (bind_option (get_double_strict j v name j.zero) f)
        ≡ (bad_number (j.find v name) || b)
  unfolding get_double_strict
  read-bad_number v name f b h =
      bind_option-none (strict_of j (j.find v name) j.zero) f b h
      ∙ ap (λ bad. bad || b) (strict_of-bad_number (j.find v name) j.zero)

  parse_ticker-bad_number :
      (v : V) (symbol : String)
      → is_none (parse_ticker j v symbol) ≡ any_of (λ name. bad_number (j.find v name)) numbers
  unfolding parse_ticker
  parse_ticker-bad_number v symbol = read-bad_number v "bid" _ _ (λ bid.
      read-bad_number v "ask" _ _ (λ ask. read-bad_number v "last" _ _ (λ last.
        read-bad_number v "volume" _ _ (λ volume.
          read-bad_number v "high" _ _ (λ high. read-bad_number v "low" _ _ (λ low. refl))))))

  abbrev pub is_answer : String → Bool
  is_answer method = (method == "subscribe") || (method == "unsubscribe")

  -- By the texts at `method` and `channel`.
  abbrev pub malformed_object : V → String → String → Bool
  malformed_object doc method channel =
      not (j.is_object doc)
      || (((method == "") && (channel == ""))
          || (not (is_answer method)
              && bad_ticker channel (bind_option (j.find doc "data") j.as_array)))

  -- The description of the texts that are refused.
  abbrev pub malformed : Option V → Bool
  malformed none = true
  malformed (some doc) =
      malformed_object doc (text_in (j.find doc "method")) (text_in (j.find doc "channel"))

  error_code_of-parse : (e : String) → is_parse_code (error_code_of e) ≡ false
  unfolding error_code_of
  error_code_of-parse e = ground arith

  abbrev Reads : String → Message F → Bool → Type 0
  Reads raw msg bad =
      (is_parse_error (error_of msg.content) ≡ bad) × KeepsText raw (error_of msg.content)

  ticker_message-Reads :
      (msg : Message F) (raw : String) (t : Option (Ticker F))
      → Reads raw (ticker_message j msg raw t) (is_none t)
  ticker_message-Reads msg raw none = (refl, refl)
  ticker_message-Reads msg raw (some t) = (refl, tt)

  route-Reads :
      (msg : Message F) (channel : String) (v : V) (symbol raw : String)
      → error_of msg.content ≡ none
      → Reads raw
          (route j msg channel v symbol raw)
          ((channel == "ticker") && is_none (parse_ticker j v symbol))
  unfolding route
  route-Reads msg channel v symbol raw h =
      ground (arith, ticker_message-Reads msg raw (parse_ticker j v symbol))

  numbered_reads :
      (msg : Message F) (n : Option ℕ)
      → error_of msg.content ≡ none
      → error_of (numbered j msg n).content ≡ none
  numbered_reads msg none h = h
  numbered_reads msg (some n) h = h

  data_message-Reads :
      (doc : V) (channel raw : String) (vs : Option (List V))
      → Reads raw (data_message j doc channel raw vs) (bad_ticker channel vs)
  unfolding data_message
  data_message-Reads doc channel raw none = (refl, tt)
  data_message-Reads doc channel raw (some []) = (refl, tt)
  data_message-Reads doc channel raw (some (v ∷ vs)) =
      let n = bind_option (j.find doc "sequence") j.as_uint64 in
      let symbol = get_string j v "symbol" "" in
      let fresh = record (blank j) { channel = channel; symbol = symbol } in
      subst
        (λ bad.
          Reads raw (data_message j doc channel raw (some (v ∷ vs))) ((channel == "ticker") && bad))
        (parse_ticker-bad_number v symbol)
        (route-Reads (numbered j fresh n) channel v symbol raw (numbered_reads fresh n refl))

  system_message-Reads :
      (doc : V) (method raw : String) (success : Option Bool)
      → Reads raw (system_message j doc method raw success) false
  unfolding system_message
  system_message-Reads doc method raw none = (refl, tt)
  system_message-Reads doc method raw (some true) = ground arith
  system_message-Reads doc method raw (some false) = (error_code_of-parse _, refl)

  -- `heartbeat` is no `ticker`.
  bad_ticker_heartbeat :
      (channel : String) (vs : Option (List V))
      → (channel == "heartbeat") ≡ true
      → bad_ticker channel vs ≡ false
  bad_ticker_heartbeat channel none h = refl
  bad_ticker_heartbeat channel (some []) h = refl
  bad_ticker_heartbeat channel (some (v ∷ vs)) h =
      let named = (string_key.same_key_iff channel "heartbeat").0 h in rw named refl

  parse_object-Reads :
      (doc : V) (raw : String)
      → j.is_object doc ≡ true
      → Reads raw
          (parse_object j doc raw)
          (malformed_object doc (get_string j doc "method" "") (get_string j doc "channel" ""))
  unfolding parse_object
  parse_object-Reads doc raw h =
      let method = get_string j doc "method" "" in
      let channel = get_string j doc "channel" "" in
      let vs = bind_option (j.find doc "data") j.as_array in
      ground (
        arith,
        system_message-Reads doc method raw (bind_option (j.find doc "success") j.as_bool),
        data_message-Reads doc channel raw vs,
        bad_ticker_heartbeat channel vs,
      )

  parse_object-malformed :
      (doc : V) (raw : String)
      → j.is_object doc ≡ true
      → Reads raw (parse_object j doc raw) (malformed (some doc))
  parse_object-malformed doc raw h =
      subst
        (λ method.
          Reads raw (parse_object j doc raw)
            (malformed_object doc method (text_in (j.find doc "channel"))))
        (get_string-text_in doc "method")
        (subst
          (λ channel.
            Reads raw (parse_object j doc raw)
              (malformed_object doc (get_string j doc "method" "") channel))
          (get_string-text_in doc "channel") (parse_object-Reads doc raw h))

  parse_document-Reads :
      (raw : String) (doc : Option V) → Reads raw (parse_document j raw doc) (malformed doc)
  parse_document-Reads raw none = (refl, refl)
  parse_document-Reads raw (some doc) = ground (arith, parse_object-malformed doc raw)

  -- The parser answers with a parse error just for the malformed texts: no JSON, no object, neither
  -- method nor channel, or a ticker with a number that is none (unless it answers a request). Every
  -- error message, of whatever code, carries the text along.
  pub parse_message-malformed :
      (raw : String)
      → (is_parse_error (error_of (parse_message j raw).content) ≡ malformed (j.parse raw))
        × KeepsText raw (error_of (parse_message j raw).content)
  unfolding parse_message
  parse_message-malformed raw = parse_document-Reads raw (j.parse raw)
