-- ===== src/Common/Maps.antt =====
-- Keys with a Boolean equality, and association lists for the hash maps of the standard library.
use Prim.Native.Nat.{ℕ}
use Prim.Native.String.{String}
use mathlib.Core.Path.{◌≡◌, refl}
use mathlib.Core.Logic.{◌↔◌}
use mathlib.Core.Bool.{Bool, true, false, ◌||◌}
use mathlib.Core.Option.{Option, none, some}
use mathlib.Core.List.{List, [], ◌∷◌}
use native.Mathlib.Omega.{arith}
use text.Mathlib.Text.{◌==◌ as str_eq}
use text.Mathlib.TextEquality.{eq_iff}
use kraken_sdk.Common.Tests.{if◌then◌else◌, nat_beq, nat_beq_iff}

-- What a hash map asks of its keys.
pub record Key {ℓ} (K : Type ℓ) : Type ℓ where
  pub same_key : K → K → Bool
  pub same_key_iff : (j k : K) → (same_key j k ≡ true) ↔ (j ≡ k)

instance abbrev pub string_key : Key String
string_key = record { same_key_iff = eq_iff; same_key = str_eq }

instance abbrev pub nat_key : Key ℕ
nat_key = record { same_key_iff = nat_beq_iff; same_key = nat_beq }

abbrev pub ◌==◌ {ℓ} : {K : Type ℓ} ⦃e : Key K⦄ → K → K → Bool
◌==◌ ⦃e⦄ j k = e.same_key j k

infix 50 ◌==◌
module _ {ℓ} {K : Type ℓ} ⦃e : Key K⦄ where
  pub beq_refl : (k : K) → (k == k) ≡ true
  beq_refl k = (e.same_key_iff k k).1 refl

  -- `std::find(xs.begin(), xs.end(), k) != xs.end()`.
  abbrev pub contains : K → List K → Bool
  contains k [] = false
  contains k (x ∷ xs) = (x == k) || contains k xs

  -- A hash map: `find`, `m[k] = v`, `erase`.
  module _ {κ} {Value : Type κ} where
    unfoldable pub lookup : K → List (K × Value) → Option Value
    lookup k [] = none
    lookup k (entry ∷ table) = if entry.0 == k then some entry.1 else lookup k table

    unfoldable pub insert : K → Value → List (K × Value) → List (K × Value)
    insert k v [] = (k, v) ∷ []
    insert k v (entry ∷ table) = if entry.0 == k then (k, v) ∷ table else entry ∷ insert k v table

    unfoldable pub erase : K → List (K × Value) → List (K × Value)
    erase k [] = []
    erase k (entry ∷ table) =
        let rest = erase k table in if entry.0 == k then rest else entry ∷ rest

    pub lookup-insert :
        (k j : K) (v : Value) (table : List (K × Value))
        → lookup j (insert k v table) ≡ (if k == j then some v else lookup j table)
    unfolding lookup insert
    lookup-insert k j v [] = refl
    lookup-insert k j v (entry ∷ table) = ground (
      arith,
      e.same_key_iff k j,
      e.same_key_iff entry.0 k,
      e.same_key_iff entry.0 j,
      lookup-insert k j v table,
    )

    pub lookup-erase :
        (k j : K) (table : List (K × Value))
        → lookup j (erase k table) ≡ (if k == j then none else lookup j table)
    unfolding lookup erase
    lookup-erase k j [] = ground arith
    lookup-erase k j (entry ∷ table) = ground (
      arith,
      e.same_key_iff k j,
      e.same_key_iff entry.0 k,
      e.same_key_iff entry.0 j,
      lookup-erase k j table,
    )

    pub lookup-insert_self :
        (k : K) (v : Value) (table : List (K × Value)) → lookup k (insert k v table) ≡ some v
    lookup-insert_self k v table = ground (arith, lookup-insert k k v table, beq_refl k)

    pub lookup-erase_self : (k : K) (table : List (K × Value)) → lookup k (erase k table) ≡ none
    lookup-erase_self k table = ground (arith, lookup-erase k k table, beq_refl k)

    pub lookup-nil : (k : K) → lookup k [] ≡ none
    unfolding lookup
    lookup-nil k = refl
