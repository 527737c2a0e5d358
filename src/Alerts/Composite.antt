-- ===== src/Alerts/Composite.antt =====
-- Strategies combined by AND or OR: include/kraken/strategies/composite.hpp.
--
-- `Part` is what the composite calls of its strategies, objects of the virtual class `AlertStrategy` with
-- a state of their own; the same strategy is not given twice. `X` is the value checked: a ticker, a
-- book, a trade, a ticker with a book, or an OHLC candle.
use kraken_sdk.Common.{
  ◌≡◌, refl, Bool, true, false, not, ◌&&◌, if◌then◌else◌, Option, none, some, List, [], ◌∷◌, map,
  all_of, any_of, arith,
}

pub record Part (S X : Type 0) : Type 0 where
  pub is_enabled : S → Bool
  pub check : S → X → S × Bool
  pub enable : S → S
  pub disable : S → S
  pub reset : S → S
  pub needs_orderbook : S → Bool

pub data Logic : Type 0 where
  and or : Logic

pub record Composite (S : Type 0) : Type 0 where
  pub logic : Logic
  pub strategies : List S
  pub enabled : Bool

module _ {S X : Type 0} (part : Part S X) where
  -- `none` is the exception `std::invalid_argument`.
  unfoldable pub composite : Logic → List S → Option (Composite S)
  composite logic [] = none
  composite logic (s ∷ ss) = some record { logic = logic; strategies = s ∷ ss; enabled = true }

  -- `std::all_of`, which stops at the first strategy that is enabled and does not agree.
  unfoldable pub all_agree : X → List S → List S × Bool
  all_agree x [] = ([], true)
  all_agree x (s ∷ ss) =
      let (s', hit) = part.check s x in
      let (rest, agreed) = all_agree x ss in
      if not (part.is_enabled s)
      then (s ∷ rest, agreed)
      else if hit
      then (s' ∷ rest, agreed)
      else (s' ∷ ss, false)

  -- `std::any_of`, which stops at the first strategy that is enabled and agrees.
  unfoldable pub any_agree : X → List S → List S × Bool
  any_agree x [] = ([], false)
  any_agree x (s ∷ ss) =
      let (s', hit) = part.check s x in
      let (rest, agreed) = any_agree x ss in
      if not (part.is_enabled s)
      then (s ∷ rest, agreed)
      else if hit
      then (s' ∷ ss, true)
      else (s' ∷ rest, agreed)

  unfoldable pub combine : Logic → X → List S → List S × Bool
  combine and x ss = all_agree x ss
  combine or x ss = any_agree x ss

  unfoldable pub is_enabled_composite : Composite S → Bool
  is_enabled_composite c = c.enabled && all_of part.is_enabled c.strategies

  unfoldable pub check_composite : Composite S → X → Composite S × Bool
  check_composite c x =
      let (ss, hit) = combine c.logic x c.strategies in
      if not (is_enabled_composite c) then (c, false) else (record c { strategies = ss }, hit)

  unfoldable pub enable_composite : Composite S → Composite S
  enable_composite c = record c { enabled = true; strategies = map part.enable c.strategies }

  unfoldable pub disable_composite : Composite S → Composite S
  disable_composite c = record c { enabled = false; strategies = map part.disable c.strategies }

  unfoldable pub reset_composite : Composite S → Composite S
  reset_composite c = record c { strategies = map part.reset c.strategies }

  unfoldable pub needs_orderbook_composite : Composite S → Bool
  needs_orderbook_composite c = any_of part.needs_orderbook c.strategies

  -- What the answer of a composite should be.
  unfoldable pub verdict : Logic → List Bool → Bool
  verdict and hits = all_of (λ hit. hit) hits
  verdict or hits = any_of (λ hit. hit) hits

  unfoldable pub hits : X → List S → List Bool
  hits x ss = map (λ s. (part.check s x).1) ss

  all_agree-hits :
      (x : X) (ss : List S)
      → all_of part.is_enabled ss ≡ true
      → (all_agree x ss).1 ≡ verdict and (hits x ss)
  unfolding all_agree verdict hits
  all_agree-hits x [] h = refl
  all_agree-hits x (s ∷ ss) h = let ih = all_agree-hits x ss in ground arith

  any_agree-hits :
      (x : X) (ss : List S)
      → all_of part.is_enabled ss ≡ true
      → (any_agree x ss).1 ≡ verdict or (hits x ss)
  unfolding any_agree verdict hits
  any_agree-hits x [] h = refl
  any_agree-hits x (s ∷ ss) h = let ih = any_agree-hits x ss in ground arith

  combine-hits :
      (logic : Logic) (x : X) (ss : List S)
      → all_of part.is_enabled ss ≡ true
      → (combine logic x ss).1 ≡ verdict logic (hits x ss)
  unfolding combine
  combine-hits and x ss h = all_agree-hits x ss h
  combine-hits or x ss h = any_agree-hits x ss h

  -- The answer of a composite: with AND, every strategy checks to true; with OR, one of them does;
  -- and it is false, whatever they answer, as soon as the composite or one of them is disabled.
  pub check_composite-verdict :
      (c : Composite S) (x : X)
      → (check_composite c x).1 ≡ (
          if c.enabled && all_of part.is_enabled c.strategies
          then verdict c.logic (hits x c.strategies)
          else false)
  unfolding check_composite is_enabled_composite
  check_composite-verdict c x = let combined = combine-hits c.logic x c.strategies in ground arith
