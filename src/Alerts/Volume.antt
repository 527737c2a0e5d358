-- ===== src/Alerts/Volume.antt =====
-- When a volume spike check reads outside its history: include/kraken/strategies/volume_spike.hpp.
use kraken_sdk.Common.{
  ℕ, ◌≤◌, ◌≡◌, refl, Bool, true, false, if◌then◌else◌, some, none, List, [], ◌∷◌, ◌++◌, arith,
  length, ◌↔◌, lookup, string_key,
}
use kraken_sdk.Market.{Ticker}
use kraken_sdk.Alerts.{Prices, VolumeSpike, trim, history_or_new, spikes, check_volume}

length-trim : {A : Type 0} (n : ℕ) (xs : List A) → length (trim n xs) ≤ n
unfolding trim
length-trim n [] = omega arith
length-trim n (x ∷ xs) = let ih = length-trim n xs in ground arith

trim_short : {A : Type 0} (n : ℕ) (xs : List A) → length xs ≤ n → trim n xs ≡ xs
unfolding trim
trim_short n [] h = refl
trim_short n (x ∷ xs) h = ground arith

-- A history that has just been added to is empty after the cut only when no sample is kept.
trim-last : {A : Type 0} (n : ℕ) (xs : List A) (x : A) → length (trim n (xs ++ x ∷ [])) ≡ 0 → n ≡ 0
unfolding trim
trim-last n [] x h = ground arith
trim-last n (y ∷ ys) x h = let ih = trim-last n ys x in ground arith

trim_zero : {A : Type 0} (xs : List A) → trim 0 xs ≡ []
unfolding trim
trim_zero [] = refl
trim_zero (x ∷ xs) = let ih = trim_zero xs in ground arith

module _ {F : Type 0} (d : Prices F) where
  spikes-none :
      (enough : Bool) (s : VolumeSpike F) (v : F) (xs : List F)
      → (if enough then some false else spikes d s v xs) ≡ none
      → length xs ≡ 0
  spikes-none true s v xs h = ground arith
  spikes-none false s v [] h = refl
  spikes-none false s v (x ∷ xs) h = ground arith

  -- A check reads outside its history exactly when the strategy keeps no samples; with any other
  -- number of samples it has an answer, for every ticker and every history.
  pub check_volume-none :
      (s : VolumeSpike F) (t : Ticker F) → ((check_volume d s t).1 ≡ none) ↔ (s.lookback ≡ 0)
  unfolding check_volume
  check_volume-none s t = (
    λ h. trim-last s.lookback _ t.volume_24h (spikes-none _ s t.volume_24h _ h),
    λ h. rw (h, trim_zero (history_or_new (lookup t.symbol s.states) ++ t.volume_24h ∷ [])) refl,
  )
