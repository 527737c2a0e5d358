-- ===== src/Book/LevelLaws.antt =====
-- The price maps against a specification: after a batch of levels the map holds, at each price, what
-- the last level of the batch for that price says.
use kraken_sdk.Common.{
  ◌≡◌, refl, Bool, true, false, if◌then◌else◌, none, some, List, [], ◌∷◌, arith,
}
use kraken_sdk.Book.LevelSpec.{same, latest, outcome, HasNoZero}
use kraken_sdk.Book.Levels.{
  PriceLevel, IsStrict, put, cut, find, Behind, IsSorted, update_level, apply_level_updates,
}

module _ {F : Type 0} {before : F → F → Bool} (o : IsStrict before) where
  Behind-trans :
      (p x : F) (m : List (PriceLevel F))
      → before p x ≡ true
      → Behind before x m
      → Behind before p m
  Behind-trans p x [] h b = tt
  Behind-trans p x (l ∷ m) h b = (o.trans p x l.price h b.0, Behind-trans p x m h b.1)

  put-Behind :
      (x p q : F) (m : List (PriceLevel F))
      → before x p ≡ true
      → Behind before x m
      → Behind before x (put before p q m)
  unfolding put
  put-Behind x p q [] h b = (h, tt)
  put-Behind x p q (l ∷ m) h b = ground (arith, put-Behind x p q m h b.1)

  put-IsSorted :
      (p q : F) (m : List (PriceLevel F)) → IsSorted before m → IsSorted before (put before p q m)
  unfolding put
  put-IsSorted p q [] s = (tt, tt)
  put-IsSorted p q (l ∷ m) s =
      ground (arith, put-IsSorted p q m s.1, put-Behind l.price p q m, Behind-trans p l.price m)

  cut-Behind :
      (x p : F) (m : List (PriceLevel F)) → Behind before x m → Behind before x (cut before p m)
  unfolding cut
  cut-Behind x p [] b = tt
  cut-Behind x p (l ∷ m) b = ground (arith, cut-Behind x p m b.1)

  cut-IsSorted :
      (p : F) (m : List (PriceLevel F)) → IsSorted before m → IsSorted before (cut before p m)
  unfolding cut
  cut-IsSorted p [] s = tt
  cut-IsSorted p (l ∷ m) s = ground (arith, cut-IsSorted p m s.1, cut-Behind l.price p m s.0)

  find_of_Behind : (p : F) (m : List (PriceLevel F)) → Behind before p m → find before p m ≡ none
  unfolding find
  find_of_Behind p [] b = refl
  find_of_Behind p (l ∷ m) b = rw b.0

  find-put :
      (j p q : F) (m : List (PriceLevel F))
      → find before j (put before p q m) ≡ (if same before p j then some q else find before j m)
  unfolding find put
  find-put j p q [] = ground arith
  find-put j p q (l ∷ m) = ground (
    arith,
    find-put j p q m,
    o.trans j p l.price,
    o.trans j l.price p,
    o.trans l.price j p,
    o.trans l.price p j,
    o.trans p j l.price,
    o.trans p l.price j,
    o.connex p j,
    o.connex l.price p,
    o.connex l.price j,
    o.irrefl p,
    o.irrefl j,
    o.irrefl l.price,
  )

  find-cut :
      (j p : F) (m : List (PriceLevel F))
      → IsSorted before m
      → find before j (cut before p m) ≡ (if same before p j then none else find before j m)
  unfolding find cut
  find-cut j p [] s = ground arith
  find-cut j p (l ∷ m) s = ground (
    arith,
    find-cut j p m s.1,
    find_of_Behind j m,
    find_of_Behind p m,
    Behind-trans j l.price m,
    Behind-trans p l.price m,
    o.trans j p l.price,
    o.trans j l.price p,
    o.trans l.price j p,
    o.trans l.price p j,
    o.trans p j l.price,
    o.trans p l.price j,
    o.connex p j,
    o.connex l.price p,
    o.connex l.price j,
    o.irrefl p,
    o.irrefl j,
    o.irrefl l.price,
  )

module _ {F : Type 0} {before : F → F → Bool} (o : IsStrict before) (is_zero : F → Bool) where
  update_level-IsSorted :
      (l : PriceLevel F) (m : List (PriceLevel F))
      → IsSorted before m
      → IsSorted before (update_level is_zero before l m)
  unfolding update_level
  update_level-IsSorted l m s =
      ground (arith, cut-IsSorted o l.price m s, put-IsSorted o l.price l.quantity m s)

  find-update_level :
      (p : F) (l : PriceLevel F) (m : List (PriceLevel F))
      → IsSorted before m
      → find before p (update_level is_zero before l m) ≡ (
          if same before l.price p
          then (if is_zero l.quantity then none else some l.quantity)
          else find before p m)
  unfolding update_level
  find-update_level p l m s =
      ground (arith, find-cut o p l.price m s, find-put o p l.price l.quantity m)

  pub apply_level_updates-IsSorted :
      (m ls : List (PriceLevel F))
      → IsSorted before m
      → IsSorted before (apply_level_updates is_zero before m ls)
  unfolding apply_level_updates
  apply_level_updates-IsSorted m [] s = s
  apply_level_updates-IsSorted m (l ∷ ls) s =
      apply_level_updates-IsSorted (update_level is_zero before l m) ls
        (update_level-IsSorted l m s)

  pub find-apply_level_updates :
      (p : F) (m ls : List (PriceLevel F))
      → IsSorted before m
      → find before p (apply_level_updates is_zero before m ls)
        ≡ outcome is_zero (latest before p ls) (find before p m)
  unfolding apply_level_updates
  find-apply_level_updates p m [] s = refl
  find-apply_level_updates p m (l ∷ ls) s =
      let next = update_level is_zero before l m in
      let ih = find-apply_level_updates p next ls (update_level-IsSorted l m s) in
      ground (arith, ih, find-update_level p l m s)

module _ {F : Type 0} (before : F → F → Bool) (is_zero : F → Bool) where
  put-HasNoZero :
      (p q : F) (m : List (PriceLevel F))
      → is_zero q ≡ false
      → HasNoZero is_zero m
      → HasNoZero is_zero (put before p q m)
  unfolding put
  put-HasNoZero p q [] h v = (h, tt)
  put-HasNoZero p q (l ∷ m) h v = ground (arith, put-HasNoZero p q m h v.1)

  cut-HasNoZero :
      (p : F) (m : List (PriceLevel F)) → HasNoZero is_zero m → HasNoZero is_zero (cut before p m)
  unfolding cut
  cut-HasNoZero p [] v = tt
  cut-HasNoZero p (l ∷ m) v = ground (arith, cut-HasNoZero p m v.1)

  update_level-HasNoZero :
      (l : PriceLevel F) (m : List (PriceLevel F))
      → HasNoZero is_zero m
      → HasNoZero is_zero (update_level is_zero before l m)
  unfolding update_level
  update_level-HasNoZero l m v =
      ground (arith, cut-HasNoZero l.price m v, put-HasNoZero l.price l.quantity m)

  pub apply_level_updates-HasNoZero :
      (m ls : List (PriceLevel F))
      → HasNoZero is_zero m
      → HasNoZero is_zero (apply_level_updates is_zero before m ls)
  unfolding apply_level_updates
  apply_level_updates-HasNoZero m [] v = v
  apply_level_updates-HasNoZero m (l ∷ ls) v =
      apply_level_updates-HasNoZero (update_level is_zero before l m) ls
        (update_level-HasNoZero l m v)
