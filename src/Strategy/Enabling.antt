-- ===== src/Strategy/Enabling.antt =====
-- Calls of the engine, and entries that are disabled.
use kraken_sdk.Common.{
  ℕ, suc, ◌<◌, ◌≡◌, ◌≢◌, refl, Bool, true, false, Option, none, some, List, [], ◌∷◌, ◌++◌, nat_key,
  lookup, erase, arith, Option-cases, inl, inr,
}
use kraken_sdk.Market.{Middle}
use kraken_sdk.Strategy.{
  AlertStrategy, Update, Entry, StrategyEngine, Fired, add, remove, visit, evaluate, enable,
  disable, switch,
}
use kraken_sdk.Strategy.Entries.{
  Below, Silent, IsValid, Below-insert, Below-suc, Below-erase, Unique-insert, Unique-erase,
  Silent-insert, silenced, silenced_missing, fired_for, fired_for-append,
}

pub data Call (F : Type 0) : Type 0 where
  adds : ℕ → ℕ → Call F
  removes : ℕ → Call F
  enables : ℕ → Call F
  disables : ℕ → Call F
  evaluates : Update F → (ℕ → ℕ) → Call F

-- The calls do not enable `id`.
abbrev pub NotEnabling : {F : Type 0} → ℕ → List (Call F) → Type 0
NotEnabling id [] = Unit
NotEnabling id (enables k ∷ cs) = (k ≢ id) × NotEnabling id cs
NotEnabling id (adds p c ∷ cs) = NotEnabling id cs
NotEnabling id (removes k ∷ cs) = NotEnabling id cs
NotEnabling id (disables k ∷ cs) = NotEnabling id cs
NotEnabling id (evaluates u clock ∷ cs) = NotEnabling id cs

module _ {F S : Type 0} (m : Middle F) (v : AlertStrategy F S) where
  abbrev pub step : StrategyEngine → (ℕ → S) → Call F → (StrategyEngine × (ℕ → S)) × List (Fired F)
  step e objects (adds p c) = (((add e p c).0, objects), [])
  step e objects (removes id) = ((remove e id, objects), [])
  step e objects (enables id) = (enable m v e objects id, [])
  step e objects (disables id) = (disable m v e objects id, [])
  step e objects (evaluates u clock) =
      let (objects', fired) = evaluate m v u clock e.strategies objects in ((e, objects'), fired)

  unfoldable pub run :
      StrategyEngine → (ℕ → S) → List (Call F) → (StrategyEngine × (ℕ → S)) × List (Fired F)
  run e objects [] = ((e, objects), [])
  run e objects (c ∷ cs) =
      let ((e', objects'), fired) = step e objects c in
      let (end, more) = run e' objects' cs in (end, fired ++ more)

  -- The id has been given out, and is silent.
  record IsOff (id : ℕ) (e : StrategyEngine) : Type 0 where
    pub given : id < e.next_id
    pub off : Silent id e.strategies

  switch-IsOff :
      (id k : ℕ) (on : Bool) (f : S → S) (e : StrategyEngine) (objects : ℕ → S) (o : Option Entry)
      → (k ≡ id → on ≡ false)
      → IsOff id e
      → IsOff id (switch m v on f e objects k o).0
  switch-IsOff id k on f e objects none h q = q
  switch-IsOff id k on f e objects (some x) h q = record {
    given = q.given;
    off = Silent-insert id k (record x { enabled = on }) e.strategies h q.off;
  }

  Silent-erase : (id k : ℕ) (es : List (ℕ × Entry)) → Silent id es → Silent id (erase k es)
  unfolding erase
  Silent-erase id k [] s = tt
  Silent-erase id k ((i, y) ∷ es) s = ground (arith, Silent-erase id k es s.1)

  step-IsOff :
      (id : ℕ) (e : StrategyEngine) (objects : ℕ → S) (c : Call F) (cs : List (Call F))
      → NotEnabling id (c ∷ cs)
      → IsOff id e
      → IsOff id (step e objects c).0.0 × NotEnabling id cs
  unfolding add remove enable disable
  step-IsOff id e objects (adds p c) cs ne q = (
    record {
      given = omega (arith, q.given);
      off = Silent-insert id e.next_id _ e.strategies (λ h. absurd (omega (arith, q.given))) q.off;
    },
    ne,
  )
  step-IsOff id e objects (removes k) cs ne q =
      (record { given = q.given; off = Silent-erase id k e.strategies q.off }, ne)
  step-IsOff id e objects (enables k) cs ne q = (
    switch-IsOff id k true v.enable e objects (lookup k e.strategies) (λ h. absurd (ne.0 h)) q,
    ne.1,
  )
  step-IsOff id e objects (disables k) cs ne q =
      (switch-IsOff id k false v.disable e objects (lookup k e.strategies) (λ h. refl) q, ne)
  step-IsOff id e objects (evaluates u clock) cs ne q = (q, ne)

  visit-Silent :
      (id : ℕ) (u : Update F) (clock : ℕ → ℕ) (entry : ℕ × Entry) (objects : ℕ → S)
      → (entry.0 ≡ id → entry.1.enabled ≡ false)
      → fired_for id (visit m v u clock entry objects).1 ≡ 0
  unfolding visit
  visit-Silent id u clock (i, entry) objects h = ground (arith, h, nat_key.same_key_iff i id)

  evaluate-Silent :
      (id : ℕ) (u : Update F) (clock : ℕ → ℕ) (es : List (ℕ × Entry)) (objects : ℕ → S)
      → Silent id es
      → fired_for id (evaluate m v u clock es objects).1 ≡ 0
  unfolding evaluate
  evaluate-Silent id u clock [] objects s = refl
  evaluate-Silent id u clock (entry ∷ es) objects s =
      let objects' = (visit m v u clock entry objects).0 in
      omega (
        arith,
        fired_for-append id (visit m v u clock entry objects).1
            (evaluate m v u clock es objects').1,
        visit-Silent id u clock entry objects s.0,
        evaluate-Silent id u clock es objects' s.1,
      )

  step_silent :
      (id : ℕ) (e : StrategyEngine) (objects : ℕ → S) (c : Call F)
      → IsOff id e
      → fired_for id (step e objects c).1 ≡ 0
  step_silent id e objects (adds p c) q = refl
  step_silent id e objects (removes k) q = refl
  step_silent id e objects (enables k) q = refl
  step_silent id e objects (disables k) q = refl
  step_silent id e objects (evaluates u clock) q =
      evaluate-Silent id u clock e.strategies objects q.off

  run_silent :
      (id : ℕ) (e : StrategyEngine) (objects : ℕ → S) (cs : List (Call F))
      → NotEnabling id cs
      → IsOff id e
      → fired_for id (run e objects cs).1 ≡ 0
  unfolding run
  run_silent id e objects [] ne q = refl
  run_silent id e objects (c ∷ cs) ne q =
      let next = step e objects c in
      let kept = step-IsOff id e objects c cs ne q in
      omega (
        arith,
        fired_for-append id next.1 (run next.0.0 next.0.1 cs).1,
        step_silent id e objects c q,
        run_silent id next.0.0 next.0.1 cs kept.1 kept.0,
      )

  disable-IsOff :
      (id : ℕ) (e : StrategyEngine) (objects : ℕ → S)
      → IsValid e
      → id < e.next_id
      → IsOff id (disable m v e objects id).0
  unfolding disable
  disable-IsOff id e objects ok lt = elim (Option-cases (lookup id e.strategies)) [
    | inl missing ↦
        rw (missing, disable)
          (record { given = lt; off = silenced_missing id e.strategies missing })
    | inr (x, found) ↦
        rw (found, disable) (record { given = lt; off = silenced id _ e.strategies refl ok.unique })
  ]

  -- After `disable`, the callback of that id is not called by any evaluation, whatever calls come
  -- between, until one enables the id again; also where strategies are shared or added later.
  pub disable_silences :
      (id : ℕ) (e : StrategyEngine) (objects : ℕ → S) (cs : List (Call F))
      → IsValid e
      → id < e.next_id
      → NotEnabling id cs
      → let (e', objects') = disable m v e objects id in fired_for id (run e' objects' cs).1 ≡ 0
  disable_silences id e objects cs ok lt ne =
      let after = disable m v e objects id in
      run_silent id after.0 after.1 cs ne (disable-IsOff id e objects ok lt)

  switch-IsValid :
      (k : ℕ) (on : Bool) (f : S → S) (e : StrategyEngine) (objects : ℕ → S) (o : Option Entry)
      → (o ≢ none → k < e.next_id)
      → IsValid e
      → IsValid (switch m v on f e objects k o).0
  switch-IsValid k on f e objects none h q = q
  switch-IsValid k on f e objects (some x) h q = record {
    below = Below-insert e.next_id k _ e.strategies (h (ground arith)) q.below;
    unique = Unique-insert k _ e.strategies q.unique;
  }

  lookup-Below : (n k : ℕ) (es : List (ℕ × Entry)) → Below n es → lookup k es ≢ none → k < n
  unfolding lookup
  lookup-Below n k [] b h = absurd (h refl)
  lookup-Below n k ((i, y) ∷ es) b h =
      ground
        (arith, nat_key.same_key_iff i k, λ (q : lookup k es ≢ none). lookup-Below n k es b.1 q)

  step-IsValid :
      (e : StrategyEngine) (objects : ℕ → S) (c : Call F)
      → IsValid e
      → IsValid (step e objects c).0.0
  unfolding add remove enable disable
  step-IsValid e objects (adds p c) q = record {
    below =
        Below-insert (suc e.next_id) e.next_id _ e.strategies (omega arith)
          (Below-suc e.next_id e.strategies q.below);
    unique = Unique-insert e.next_id _ e.strategies q.unique;
  }
  step-IsValid e objects (removes k) q = record {
    below = Below-erase e.next_id k e.strategies q.below;
    unique = Unique-erase k e.strategies q.unique;
  }
  step-IsValid e objects (enables k) q =
      switch-IsValid k true v.enable e objects (lookup k e.strategies)
        (lookup-Below e.next_id k e.strategies q.below) q
  step-IsValid e objects (disables k) q =
      switch-IsValid k false v.disable e objects (lookup k e.strategies)
        (lookup-Below e.next_id k e.strategies q.below) q
  step-IsValid e objects (evaluates u clock) q = q

  -- Any calls keep the ids of the entries different from each other and below the id that the next
  -- strategy gets.
  pub run-engine-IsValid :
      (e : StrategyEngine) (objects : ℕ → S) (cs : List (Call F))
      → IsValid e
      → IsValid (run e objects cs).0.0
  unfolding run
  run-engine-IsValid e objects [] q = q
  run-engine-IsValid e objects (c ∷ cs) q =
      let next = step e objects c in
      run-engine-IsValid next.0.0 next.0.1 cs (step-IsValid e objects c q)
