-- ===== src/Subscription/Names.antt =====
-- The lists of symbols that the calls work on.
use kraken_sdk.Common.{
  ◌≡◌, refl, ap, String, true, false, not, ◌&&◌, ◌||◌, if◌then◌else◌, List, [], ◌∷◌, ◌++◌,
  string_key, ◌==◌, contains, keep_if, arith,
}
use kraken_sdk.Subscription.{add_all, remove_all}

contains-append :
    (k : String) (xs ys : List String) → contains k (xs ++ ys) ≡ (contains k xs || contains k ys)
contains-append k [] ys = refl
contains-append k (x ∷ xs) ys = ground (arith, contains-append k xs ys)

contains-drop :
    (k gone : String) (xs : List String)
    → contains k (keep_if (λ x. not (x == gone)) xs) ≡ (contains k xs && not (gone == k))
contains-drop k gone [] = refl
contains-drop k gone (x ∷ xs) = ground (
  arith,
  contains-drop k gone xs,
  string_key.same_key_iff x gone,
  string_key.same_key_iff x k,
  string_key.same_key_iff gone k,
)

contains_same :
    (k new : String) (xs : List String) → (new == k) ≡ true → contains new xs ≡ contains k xs
contains_same k new xs h = ap (λ s. contains s xs) ((string_key.same_key_iff new k).0 h)

-- Added are just the symbols named.
pub contains-add_all :
    (k : String) (xs news : List String)
    → contains k (add_all xs news) ≡ (contains k xs || contains k news)
unfolding add_all
contains-add_all k xs [] = ground arith
contains-add_all k xs (new ∷ news) =
    let next = if contains new xs then xs else xs ++ new ∷ [] in
    ground
      (arith, contains-add_all k next news, contains-append k xs (new ∷ []), contains_same k new xs)

-- Removed are just the symbols named.
pub contains-remove_all :
    (k : String) (xs gone : List String)
    → contains k (remove_all xs gone) ≡ (contains k xs && not (contains k gone))
unfolding remove_all
contains-remove_all k xs [] = ground arith
contains-remove_all k xs (g ∷ gone) =
    ground
      (arith, contains-remove_all k (keep_if (λ x. not (x == g)) xs) gone, contains-drop k g xs)

-- No symbol stands in the list twice.
abbrev pub Distinct : List String → Type 0
Distinct [] = Unit
Distinct (x ∷ xs) = (contains x xs ≡ false) × Distinct xs

Distinct-snoc :
    (xs : List String) (new : String)
    → Distinct xs
    → contains new xs ≡ false
    → Distinct (xs ++ new ∷ [])
Distinct-snoc [] new d h = (refl, tt)
Distinct-snoc (x ∷ xs) new d h = (
  ground (
    arith,
    contains-append x xs (new ∷ []),
    string_key.same_key_iff x new,
    string_key.same_key_iff new x,
  ),
  Distinct-snoc xs new d.1 (ground arith),
)

add_one :
    (xs : List String) (new : String)
    → Distinct xs
    → Distinct (if contains new xs then xs else xs ++ new ∷ [])
add_one xs new d = ground (arith, Distinct-snoc xs new)

pub add_all-Distinct : (xs news : List String) → Distinct xs → Distinct (add_all xs news)
unfolding add_all
add_all-Distinct xs [] d = d
add_all-Distinct xs (new ∷ news) d =
    add_all-Distinct (if contains new xs then xs else xs ++ new ∷ []) news (add_one xs new d)

drop-Distinct :
    (gone : String) (xs : List String) → Distinct xs → Distinct (keep_if (λ x. not (x == gone)) xs)
drop-Distinct gone [] d = tt
drop-Distinct gone (x ∷ xs) d = ground (arith, drop-Distinct gone xs d.1, contains-drop x gone xs)

pub remove_all-Distinct : (xs gone : List String) → Distinct xs → Distinct (remove_all xs gone)
unfolding remove_all
remove_all-Distinct xs [] d = d
remove_all-Distinct xs (g ∷ gone) d =
    remove_all-Distinct (keep_if (λ x. not (x == g)) xs) gone (drop-Distinct g xs d)
