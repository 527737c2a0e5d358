-- ===== src/Parser/Tags.antt =====
-- The tag of a parsed message against what it holds.
use kraken_sdk.Common.{
  ℕ, ◌≡◌, ◌⊎◌, inl, refl, String, Bool, true, false, Option, none, some, List, [], ◌∷◌, string_key,
  arith,
}
use kraken_sdk.Market.{Ticker, of_heartbeat, balance_type, tag, Message}
use kraken_sdk.Parser.{Json, parse_ticker, bind_option, get_string}
use kraken_sdk.Parser.Routing.{
  blank, ticker_message, balance_message, route, numbered, data_message, system_message,
  parse_object, parse_document, parse_message,
}

-- The message holds what its tag names, or it is tagged a balance and holds nothing.
abbrev pub IsTagged : {F : Type 0} → Message F → Type 0
IsTagged msg =
    (tag msg.content ≡ msg.type) ⊎ ((msg.type ≡ balance_type) × (msg.content ≡ of_heartbeat))

module _ {V F : Type 0} (j : Json V F) where
  ticker_message-IsTagged :
      (msg : Message F) (raw : String) (t : Option (Ticker F))
      → IsTagged (ticker_message j msg raw t)
  ticker_message-IsTagged msg raw none = inl refl
  ticker_message-IsTagged msg raw (some t) = inl refl

  balance_message-IsTagged :
      (msg : Message F) (v : V) → msg.content ≡ of_heartbeat → IsTagged (balance_message j msg v)
  balance_message-IsTagged msg v h = ground arith

  route-IsTagged :
      (msg : Message F) (channel : String) (v : V) (symbol raw : String)
      → msg.content ≡ of_heartbeat
      → tag msg.content ≡ msg.type
      → IsTagged (route j msg channel v symbol raw)
  unfolding route
  route-IsTagged msg channel v symbol raw h t = ground (
    arith,
    ticker_message-IsTagged msg raw (parse_ticker j v symbol),
    balance_message-IsTagged msg v h,
  )

  data_message-IsTagged :
      (doc : V) (channel raw : String) (vs : Option (List V))
      → IsTagged (data_message j doc channel raw vs)
  unfolding data_message
  data_message-IsTagged doc channel raw none = inl refl
  data_message-IsTagged doc channel raw (some []) = inl refl
  data_message-IsTagged doc channel raw (some (v ∷ vs)) =
      let n = bind_option (j.find doc "sequence") j.as_uint64 in
      let symbol = get_string j v "symbol" "" in
      let fresh = record (blank j) { channel = channel; symbol = symbol } in
      route-IsTagged (numbered j fresh n) channel v symbol raw (numbered-content fresh n)
        (numbered-tag fresh n refl)
    where
      numbered-content : (msg : Message F) (n : Option ℕ) → (numbered j msg n).content ≡ msg.content
      numbered-content msg none = refl
      numbered-content msg (some n) = refl

      numbered-tag :
          (msg : Message F) (n : Option ℕ)
          → tag msg.content ≡ msg.type
          → tag (numbered j msg n).content ≡ (numbered j msg n).type
      numbered-tag msg none h = h
      numbered-tag msg (some n) h = h

  system_message-IsTagged :
      (doc : V) (method raw : String) (success : Option Bool)
      → IsTagged (system_message j doc method raw success)
  unfolding system_message
  system_message-IsTagged doc method raw none = inl refl
  system_message-IsTagged doc method raw (some true) = ground arith
  system_message-IsTagged doc method raw (some false) = inl refl

  parse_object-IsTagged : (doc : V) (raw : String) → IsTagged (parse_object j doc raw)
  unfolding parse_object
  parse_object-IsTagged doc raw =
      let method = get_string j doc "method" "" in
      let channel = get_string j doc "channel" "" in
      ground (
        arith,
        system_message-IsTagged doc method raw (bind_option (j.find doc "success") j.as_bool),
        data_message-IsTagged doc channel raw (bind_option (j.find doc "data") j.as_array),
      )

  parse_document-IsTagged : (raw : String) (doc : Option V) → IsTagged (parse_document j raw doc)
  parse_document-IsTagged raw none = inl refl
  parse_document-IsTagged raw (some doc) = ground (arith, parse_object-IsTagged doc raw)

  -- Whatever the text, the message that `parse_message` gives holds the alternative that its tag
  -- names, so that `dispatch` finds what it looks for; only a balance may hold nothing instead.
  pub parse_message-IsTagged : (raw : String) → IsTagged (parse_message j raw)
  unfolding parse_message
  parse_message-IsTagged raw = parse_document-IsTagged raw (j.parse raw)
