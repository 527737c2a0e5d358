-- ===== src/Strategy/Entries.antt =====
-- Lists of entries: their ids, and which of them are enabled.
use kraken_sdk.Common.{
  ℕ, suc, ◌+◌, ◌<◌, ◌≡◌, ◌≢◌, false, if◌then◌else◌, none, List, [], ◌∷◌, ◌++◌, nat_key, ◌==◌,
  lookup, insert, erase, arith, Bool-cases, inl, inr, subst,
}
use kraken_sdk.Strategy.{Entry, StrategyEngine, Fired}

-- Every id lies below `n`, and no id occurs twice.
abbrev pub Below : ℕ → List (ℕ × Entry) → Type 0
Below n [] = Unit
Below n (entry ∷ entries) = (entry.0 < n) × Below n entries

abbrev pub Fresh : ℕ → List (ℕ × Entry) → Type 0
Fresh id [] = Unit
Fresh id (entry ∷ entries) = (entry.0 ≢ id) × Fresh id entries

abbrev pub Unique : List (ℕ × Entry) → Type 0
Unique [] = Unit
Unique (entry ∷ entries) = Fresh entry.0 entries × Unique entries

-- No entry under `id` is enabled.
abbrev pub Silent : ℕ → List (ℕ × Entry) → Type 0
Silent id [] = Unit
Silent id (entry ∷ entries) = (entry.0 ≡ id → entry.1.enabled ≡ false) × Silent id entries

pub record IsValid (e : StrategyEngine) : Type 0 where
  pub below : Below e.next_id e.strategies
  pub unique : Unique e.strategies

pub Below-insert :
    (n k : ℕ) (x : Entry) (es : List (ℕ × Entry)) → k < n → Below n es → Below n (insert k x es)
unfolding insert
Below-insert n k x [] lt b = (lt, tt)
Below-insert n k x ((i, y) ∷ es) lt b = ground (arith, Below-insert n k x es lt b.1)

pub Below-suc : (n : ℕ) (es : List (ℕ × Entry)) → Below n es → Below (suc n) es
Below-suc n [] b = tt
Below-suc n (entry ∷ es) b = (omega (arith, b.0), Below-suc n es b.1)

pub Below-erase : (n k : ℕ) (es : List (ℕ × Entry)) → Below n es → Below n (erase k es)
unfolding erase
Below-erase n k [] b = tt
Below-erase n k ((i, y) ∷ es) b = ground (arith, Below-erase n k es b.1)

pub Fresh-insert :
    (id k : ℕ) (x : Entry) (es : List (ℕ × Entry)) → k ≢ id → Fresh id es → Fresh id (insert k x es)
unfolding insert
Fresh-insert id k x [] ne f = (ne, tt)
Fresh-insert id k x ((i, y) ∷ es) ne f = ground (arith, Fresh-insert id k x es ne f.1)

pub Fresh-erase : (id k : ℕ) (es : List (ℕ × Entry)) → Fresh id es → Fresh id (erase k es)
unfolding erase
Fresh-erase id k [] f = tt
Fresh-erase id k ((i, y) ∷ es) f = ground (arith, Fresh-erase id k es f.1)

pub Unique-insert : (k : ℕ) (x : Entry) (es : List (ℕ × Entry)) → Unique es → Unique (insert k x es)
unfolding insert
Unique-insert k x [] u = (tt, tt)
Unique-insert k x ((i, y) ∷ es) u = ground (
  arith,
  nat_key.same_key_iff i k,
  λ (ne : k ≢ i). Fresh-insert i k x es ne u.0,
  Unique-insert k x es u.1,
)

pub Unique-erase : (k : ℕ) (es : List (ℕ × Entry)) → Unique es → Unique (erase k es)
unfolding erase
Unique-erase k [] u = tt
Unique-erase k ((i, y) ∷ es) u = ground (arith, Fresh-erase i k es u.0, Unique-erase k es u.1)

Silent-Fresh : (id : ℕ) (es : List (ℕ × Entry)) → Fresh id es → Silent id es
Silent-Fresh id [] f = tt
Silent-Fresh id (entry ∷ es) f = (λ h. absurd (f.0 h), Silent-Fresh id es f.1)

-- Inserting under another id, or a disabled entry, keeps the id silent.
pub Silent-insert :
    (id k : ℕ) (x : Entry) (es : List (ℕ × Entry))
    → (k ≡ id → x.enabled ≡ false)
    → Silent id es
    → Silent id (insert k x es)
unfolding insert
Silent-insert id k x [] h s = (h, tt)
Silent-insert id k x ((i, y) ∷ es) h s = ground (arith, h, Silent-insert id k x es h s.1)

-- Inserting a disabled entry under the id silences it.
pub silenced :
    (id : ℕ) (x : Entry) (es : List (ℕ × Entry))
    → x.enabled ≡ false
    → Unique es
    → Silent id (insert id x es)
unfolding insert
silenced id x [] h u = (λ p. h, tt)
silenced id x ((i, y) ∷ es) h u = elim (Bool-cases (i == id)) [
  | inl eq ↦
      let same = (nat_key.same_key_iff i id).0 eq in
      rw (eq, insert) (λ p. h, Silent-Fresh id es (subst (λ k. Fresh k es) same u.0))
  | inr ne ↦
      rw (ne, insert)
        (λ p. absurd (ground (arith, ne, nat_key.same_key_iff i id, p)), silenced id x es h u.1)
]

pub silenced_missing : (id : ℕ) (es : List (ℕ × Entry)) → lookup id es ≡ none → Silent id es
unfolding lookup
silenced_missing id [] h = tt
silenced_missing id ((i, y) ∷ es) h =
    ground (arith, nat_key.same_key_iff i id, λ (q : lookup id es ≡ none). silenced_missing id es q)

-- The callbacks called for `id`.
abbrev pub fired_for : {F : Type 0} → ℕ → List (Fired F) → ℕ
fired_for id [] = 0
fired_for id (f ∷ fs) = let rest = fired_for id fs in if f.id == id then suc rest else rest

pub fired_for-append :
    {F : Type 0} (id : ℕ) (fs more : List (Fired F))
    → fired_for id (fs ++ more) ≡ fired_for id fs + fired_for id more
fired_for-append id [] more = omega arith
fired_for-append id (f ∷ fs) more = ground (arith, fired_for-append id fs more)
