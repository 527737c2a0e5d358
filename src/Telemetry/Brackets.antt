-- ===== src/Telemetry/Brackets.antt =====
-- The brackets of the text of `build_otlp_json`.
use kraken_sdk.Common.{
  ℕ, ◌≡◌, ◌≤◌, refl, ap, ◌∙◌, Bool, true, false, ◌&&◌, ◌||◌, not, nat_beq, if◌then◌else◌, Option,
  none, some, List, [], ◌∷◌, ◌++◌, arith, All, all_of, String,
}
use kraken_sdk.Common.Texts.{codes}
use kraken_sdk.Common.Int.{ℤ, pos}
use kraken_sdk.Common.Decimal.{to_string, int_to_string, int_to_string-All}
use kraken_sdk.Config.{TelemetryConfig}
use kraken_sdk.Telemetry.{MetricsCollector}
use kraken_sdk.Telemetry.Exporter.{
  sum_json, gauge_json, resource_json, sums_json, gauges_json, average_json, build_otlp_json,
}

abbrev opens : ℕ → Bool
opens c = nat_beq c b'{' || nat_beq c b'['

abbrev closes : ℕ → Bool
closes c = nat_beq c b'}' || nat_beq c b']'

abbrev fits : ℕ → ℕ → Bool
fits o c = (nat_beq o b'{' && nat_beq c b'}') || (nat_beq o b'[' && nat_beq c b']')

-- Inside or outside of a string, with the brackets that wait for their partner; nothing after a
-- bracket that closes the wrong one.
abbrev pub State : Type 0
State = Option (Bool × List ℕ)

abbrev closed : ℕ → List ℕ → State
closed c [] = none
closed c (o ∷ os) = if fits o c then some (false, os) else none

abbrev step : State → ℕ → State
step none c = none
step (some (true, os)) c = some (not (nat_beq c b'"'), os)
step (some (false, os)) c =
    if nat_beq c b'"'
    then some (true, os)
    else if opens c
    then some (false, c ∷ os)
    else if closes c
    then closed c os
    else some (false, os)

-- Reads a text without escapes.
unfoldable pub paired : State → List ℕ → State
paired s [] = s
paired s (c ∷ cs) = paired (step s c) cs

abbrev is_finished : State → Bool
is_finished (some (false, [])) = true
is_finished _ = false

-- Every bracket has its partner, as in any text of JSON.
unfoldable pub balanced : List ℕ → Bool
balanced text = is_finished (paired (some (false, [])) text)

-- The text of a string that needs no escapes.
abbrev pub Unquoted : List ℕ → Type 0
Unquoted = All (λ c. nat_beq c b'"' ≡ false)

-- The text of a number.
abbrev pub Numeral : List ℕ → Type 0
Numeral = All (λ c. (nat_beq c b'"' ≡ false) × (opens c ≡ false) × (closes c ≡ false))

paired-Unquoted :
    (os xs ys : List ℕ)
    → Unquoted xs
    → paired (some (true, os)) (xs ++ ys) ≡ paired (some (true, os)) ys
unfolding paired
paired-Unquoted os [] ys h = refl
paired-Unquoted os (x ∷ xs) ys (h, hs) =
    ap (λ b. paired (some (not b, os)) (xs ++ ys)) h ∙ paired-Unquoted os xs ys hs

step-Numeral :
    (os : List ℕ) (c : ℕ)
    → nat_beq c b'"' ≡ false
    → opens c ≡ false
    → closes c ≡ false
    → step (some (false, os)) c ≡ some (false, os)
step-Numeral os c h k l = rw (h, k, l) refl

paired-Numeral :
    (os xs ys : List ℕ)
    → Numeral xs
    → paired (some (false, os)) (xs ++ ys) ≡ paired (some (false, os)) ys
unfolding paired
paired-Numeral os [] ys h = refl
paired-Numeral os (x ∷ xs) ys (h, hs) =
    ap (λ s. paired s (xs ++ ys)) (step-Numeral os x h.0 h.1 h.2) ∙ paired-Numeral os xs ys hs

paired-none : (xs : List ℕ) → paired none xs ≡ none
unfolding paired
paired-none [] = refl
paired-none (x ∷ xs) = paired-none xs

number-Unquoted : (xs : List ℕ) → All (λ c. (b'-' ≤ c) × (c ≤ b'9')) xs → Unquoted xs
number-Unquoted [] h = tt
number-Unquoted (x ∷ xs) (h, hs) = (ground arith, number-Unquoted xs hs)

int-Unquoted : (z : ℤ) → Unquoted (int_to_string z)
int-Unquoted z = number-Unquoted (int_to_string z) (int_to_string-All z)

nat-Unquoted : (n : ℕ) → Unquoted (to_string n)
unfolding int_to_string
nat-Unquoted n = int-Unquoted (pos n)

paired-sum_json :
    (os name : List ℕ) (n : ℕ) (rest : List ℕ)
    → Unquoted name
    → paired (some (false, os)) (sum_json name n rest) ≡ paired (some (false, os)) rest
unfolding paired codes
paired-sum_json os name n rest h =
    paired-Unquoted (b'{' ∷ os) name _ h
    ∙ paired-Unquoted (b'{' ∷ b'[' ∷ b'{' ∷ b'{' ∷ os) (to_string n) _ (nat-Unquoted n)

paired-gauge_json :
    (os name : List ℕ) (z : ℤ) (rest : List ℕ)
    → Unquoted name
    → paired (some (false, os)) (gauge_json name z rest) ≡ paired (some (false, os)) rest
unfolding paired codes
paired-gauge_json os name z rest h =
    paired-Unquoted (b'{' ∷ os) name _ h
    ∙ paired-Unquoted (b'{' ∷ b'[' ∷ b'{' ∷ b'{' ∷ os) (int_to_string z) _ (int-Unquoted z)

-- The names that the configuration puts into the text need no escapes.
pub record Plain (config : TelemetryConfig) : Type 0 where
  pub service_name : Unquoted (codes config.service_name)
  pub service_version : Unquoted (codes config.service_version)
  pub environment : Unquoted (codes config.environment)

-- Within the list of metrics: its brackets, from the innermost.
abbrev pub metrics_open : List ℕ
metrics_open = b'[' ∷ b'{' ∷ b'[' ∷ b'{' ∷ b'[' ∷ b'{' ∷ []

paired-resource_json :
    (config : TelemetryConfig) (rest : List ℕ)
    → Plain config
    → paired (some (false, [])) (resource_json config rest)
      ≡ paired (some (false, metrics_open)) rest
unfolding paired codes
paired-resource_json config rest h =
    let value = b'{' ∷ b'{' ∷ b'[' ∷ b'{' ∷ b'{' ∷ b'[' ∷ b'{' ∷ [] in
    paired-Unquoted value (codes config.service_name) _ h.service_name
    ∙ paired-Unquoted value (codes config.service_version) _ h.service_version
    ∙ paired-Unquoted value (codes config.environment) _ h.environment

unfoldable pub is_plain : String → Bool
is_plain word = all_of (λ c. not (nat_beq c b'"')) (codes word)

unquoted : (xs : List ℕ) → all_of (λ c. not (nat_beq c b'"')) xs ≡ true → Unquoted xs
unquoted [] h = tt
unquoted (x ∷ xs) h = (ground arith, unquoted xs (ground arith))

pub plain : (word : String) → is_plain word ≡ true → Unquoted (codes word)
unfolding is_plain
plain word h = unquoted (codes word) h

paired-sums_json :
    (os : List ℕ) (m : MetricsCollector) (rest : List ℕ)
    → paired (some (false, os)) (sums_json m rest) ≡ paired (some (false, os)) rest
unfolding codes is_plain
paired-sums_json os m rest =
    paired-sum_json os (codes "kraken.messages.received") m.messages_received _
      (plain "kraken.messages.received" refl)
    ∙ paired-sum_json os (codes "kraken.messages.processed") m.messages_processed _
        (plain "kraken.messages.processed" refl)
    ∙ paired-sum_json os (codes "kraken.messages.dropped") m.messages_dropped _
        (plain "kraken.messages.dropped" refl)
    ∙ paired-sum_json os (codes "kraken.reconnect.attempts") m.reconnect_attempts _
        (plain "kraken.reconnect.attempts" refl)
    ∙ paired-sum_json os (codes "kraken.checksum.failures") m.checksum_failures _
        (plain "kraken.checksum.failures" refl)
    ∙ paired-sum_json os (codes "kraken.gaps.detected") m.gaps_detected _
        (plain "kraken.gaps.detected" refl)
    ∙ paired-sum_json os (codes "kraken.alerts.triggered") m.alerts_triggered rest
        (plain "kraken.alerts.triggered" refl)

paired-gauges_json :
    (os : List ℕ) (m : MetricsCollector) (rest : List ℕ)
    → paired (some (false, os)) (gauges_json m rest) ≡ paired (some (false, os)) rest
unfolding codes is_plain
paired-gauges_json os m rest =
    paired-gauge_json os (codes "kraken.queue.depth") m.queue_depth _
      (plain "kraken.queue.depth" refl)
    ∙ paired-gauge_json os (codes "kraken.connection.state") m.connection_state _
        (plain "kraken.connection.state" refl)
    ∙ paired-gauge_json os (codes "kraken.latency.max.us") (pos m.latency_max_us) rest
        (plain "kraken.latency.max.us" refl)

paired-average_json :
    (os shown : List ℕ) → Numeral shown → paired (some (false, os)) (average_json shown) ≡ none
unfolding paired codes
paired-average_json os shown h = paired-Numeral (b'{' ∷ b'[' ∷ b'{' ∷ b'{' ∷ os) shown _ h

-- The text that `build_otlp_json` makes is never JSON: its brackets do not match, whatever the
-- metrics are, if the names of the configuration need no escapes and the average is printed as a
-- number. The last gauge closes its list of points with `}`.
pub balanced-build_otlp_json :
    (shown : MetricsCollector → List ℕ) (config : TelemetryConfig) (m : MetricsCollector)
    → Plain config
    → Numeral (shown m)
    → balanced (build_otlp_json shown config m) ≡ false
unfolding balanced build_otlp_json
balanced-build_otlp_json shown config m names number = ap is_finished (
    paired-resource_json config _ names
    ∙ paired-sums_json metrics_open m _
    ∙ paired-gauges_json metrics_open m _
    ∙ paired-average_json metrics_open (shown m) number)
