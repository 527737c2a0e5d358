-- ===== src/Alerts/Price.antt =====
-- How often a price alert fires: include/kraken/strategies/price_alert.hpp, check.
use kraken_sdk.Common.{
  ℕ, ◌+◌, ◌*◌, ◌≤◌, ◌<◌, ◌≡◌, refl, ap, true, false, if◌then◌else◌, List, [], ◌∷◌, arith,
  Bool-cases, inl, inr, string_key, length, ◌∙◌,
}
use kraken_sdk.Market.{Ticker}
use kraken_sdk.Alerts.{Prices, PriceAlert, check_price}

-- Each at least `gap` after the one before, which was at `last`; 0 stands for none before.
abbrev pub Spaced : ℕ → ℕ → List ℕ → Type 0
Spaced gap last [] = Unit
Spaced gap last (t ∷ ts) = (0 < last → last + gap ≤ t) × Spaced gap t ts

Spaced-same :
    {gap gap' last last' : ℕ} (ts : List ℕ)
    → gap ≡ gap'
    → last ≡ last'
    → Spaced gap last ts
    → Spaced gap' last' ts
Spaced-same ts e f h = rw (← e, ← f) h

module _ {F : Type 0} (d : Prices F) where
  -- The times at which it fires, while it is given tickers with readings of the clock.
  unfoldable pub firings : PriceAlert F → List (Ticker F × ℕ) → List ℕ
  firings p [] = []
  firings p ((t, now) ∷ ts) =
      let (p', hit) = check_price d p t now in
      let rest = firings p' ts in if hit then now ∷ rest else rest

  -- Readings after the epoch that do not go backwards.
  abbrev pub Later : ℕ → List (Ticker F × ℕ) → Type 0
  Later from [] = Unit
  Later from ((t, now) ∷ ts) = (from ≤ now) × (0 < now) × Later now ts

  Later-weaken :
      (from now : ℕ) (ts : List (Ticker F × ℕ)) → from ≤ now → Later now ts → Later from ts
  Later-weaken from now [] le h = tt
  Later-weaken from now ((t, later) ∷ ts) le (h, pos, rest) = (omega arith, pos, rest)

  check_price-fields :
      (p : PriceAlert F) (t : Ticker F) (now : ℕ)
      → let (p', hit) = check_price d p t now in
        (p'.cooldown ≡ p.cooldown)
        × (p'.recurring ≡ p.recurring)
        × (p'.last_fired_time ≡ (if hit then now else p.last_fired_time))
        × (p'.fired ≡ (if hit then true else p.fired))
  unfolding check_price
  check_price-fields p t now = ground arith

  check_price-cooldown :
      (p : PriceAlert F) (t : Ticker F) (now : ℕ)
      → (check_price d p t now).1 ≡ true
      → p.last_fired_time ≤ now
      → 0 < p.last_fired_time
      → p.last_fired_time + p.cooldown * 1000000 ≤ now
  unfolding check_price
  check_price-cooldown p t now h le pos = ground arith

  -- Two firings of a price alert are at least its cooldown apart, counted from the last one before,
  -- while the clock goes forward from it.
  pub firings-Spaced :
      (p : PriceAlert F) (ts : List (Ticker F × ℕ))
      → Later p.last_fired_time ts
      → Spaced (p.cooldown * 1000000) p.last_fired_time (firings p ts)
  unfolding firings
  firings-Spaced p [] h = tt
  firings-Spaced p ((t, now) ∷ ts) (le, pos, rest) =
      let p' = (check_price d p t now).0 in
      let (cooldown, k, fired_at, k') = check_price-fields p t now in
      elim (Bool-cases (check_price d p t now).1) [
        | inl hit ↦
            let at : p'.last_fired_time ≡ now = ground arith in
            let ih = firings-Spaced p' ts (rw at rest) in
            rw hit (
              check_price-cooldown p t now hit le,
              Spaced-same (firings p' ts) (ap (λ c. c * 1000000) cooldown) at ih,
            )
        | inr miss ↦
            let at : p'.last_fired_time ≡ p.last_fired_time = ground arith in
            let ih = firings-Spaced p' ts (rw at (Later-weaken p.last_fired_time now ts le rest)) in
            rw miss (Spaced-same (firings p' ts) (ap (λ c. c * 1000000) cooldown) at ih)
      ]

  silent :
      (p : PriceAlert F) (t : Ticker F) (now : ℕ)
      → p.recurring ≡ false
      → p.fired ≡ true
      → check_price d p t now ≡ (p, false)
  unfolding check_price
  silent p t now r f = ground arith

  silent_all :
      (p : PriceAlert F) (ts : List (Ticker F × ℕ))
      → p.recurring ≡ false
      → p.fired ≡ true
      → firings p ts ≡ []
  unfolding firings
  silent_all p [] r f = refl
  silent_all p ((t, now) ∷ ts) r f = rw (silent p t now r f) (silent_all p ts r f)

  -- An alert that is not recurring fires at most once, whatever tickers it is given.
  pub firings_once :
      (p : PriceAlert F) (ts : List (Ticker F × ℕ))
      → p.recurring ≡ false
      → length (firings p ts) ≤ 1
  unfolding firings
  firings_once p [] r = omega arith
  firings_once p ((t, now) ∷ ts) r =
      let p' = (check_price d p t now).0 in
      let (k, recurring, k', fired) = check_price-fields p t now in
      elim (Bool-cases (check_price d p t now).1) [
        | inl hit ↦
            let spent : firings p' ts ≡ [] = silent_all p' ts (recurring ∙ r) (rw fired (rw hit)) in
            rw (hit, spent) (omega arith)
        | inr miss ↦ rw miss (firings_once p' ts (recurring ∙ r))
      ]
