-- ===== src/Prelude/Table.antt =====
-- std::unordered_map and std::map as lists of entries. A key has at most one entry where `IsKeyed`
-- holds; the order of the list stands for the order of iteration.
use mathlib.Core.Path.{◌≡◌, refl}
use mathlib.Core.Bool.{Bool}
use mathlib.Core.List.{List, [], ◌∷◌}
use mathlib.Core.Option.{Option, none, some}
use native.Mathlib.Omega.{arith}
use sim_ims.Prelude.Tests.{KeyType, ◌==◌, ==-iff, if◌then◌else◌, is_some, Bool-cases}
use sim_ims.Prelude.Lists.{filter}
use mathlib.Core.Logic.{inl, inr}

abbrev pub Table {ℓ κ} : Type ℓ → Type κ → Type (ℓ ⊔ κ)
Table K V = List (K × V)

module _ {ℓ κ} {K : Type ℓ} {V : Type κ} ⦃e : KeyType K⦄ where
  -- m.find(k)
  unfoldable pub find : Table K V → K → Option V
  find [] k = none
  find ((j, v) ∷ m) k = if j == k then some v else find m k

  -- m[k] = v
  unfoldable pub insert : Table K V → K → V → Table K V
  insert [] k v = (k, v) ∷ []
  insert ((j, w) ∷ m) k v = if j == k then (k, v) ∷ m else (j, w) ∷ insert m k v

  -- m.erase(k)
  unfoldable pub erase : Table K V → K → Table K V
  erase [] k = []
  erase ((j, w) ∷ m) k = let rest = erase m k in if j == k then rest else (j, w) ∷ rest

  abbrev pub contains : Table K V → K → Bool
  contains m k = is_some (find m k)

  pub find-insert :
      (m : Table K V) (k j : K) (v : V)
      → find (insert m k v) j ≡ (if k == j then some v else find m j)
  unfolding find insert
  find-insert [] k j v = refl
  find-insert ((i, w) ∷ m) k j v =
      ground (arith, ==-iff i k, ==-iff i j, ==-iff k j, find-insert m k j v)

  pub find-erase :
      (m : Table K V) (k j : K) → find (erase m k) j ≡ (if k == j then none else find m j)
  unfolding find erase
  find-erase [] k j = ground arith
  find-erase ((i, w) ∷ m) k j = ground (arith, ==-iff i k, ==-iff i j, ==-iff k j, find-erase m k j)

  -- No key has two entries.
  abbrev pub IsKeyed : Table K V → Type κ
  IsKeyed [] = Unit
  IsKeyed ((k, v) ∷ m) = (find m k ≡ none) × IsKeyed m

  pub insert-IsKeyed : (m : Table K V) (k : K) (v : V) → IsKeyed m → IsKeyed (insert m k v)
  unfolding insert find
  insert-IsKeyed [] k v h = (refl, tt)
  insert-IsKeyed ((j, w) ∷ m) k v h =
      ground (arith, ==-iff j k, ==-iff k j, find-insert m k j v, insert-IsKeyed m k v h.1)

  pub erase-IsKeyed : (m : Table K V) (k : K) → IsKeyed m → IsKeyed (erase m k)
  unfolding erase
  erase-IsKeyed [] k h = tt
  erase-IsKeyed ((j, w) ∷ m) k h = ground (arith, find-erase m k j, erase-IsKeyed m k h.1)

  pub erase_absent : (m : Table K V) (k : K) → find m k ≡ none → erase m k ≡ m
  unfolding erase find
  erase_absent [] k h = refl
  erase_absent ((j, w) ∷ m) k h = ground (arith, erase_absent m k)

  -- An entry that passes a test.
  abbrev pub passing : (K × V → Bool) → K → Option V → Option V
  passing p k none = none
  passing p k (some v) = if p (k, v) then some v else none

  pub find-filter :
      (p : K × V → Bool) (m : Table K V) (k : K)
      → IsKeyed m
      → find (filter p m) k ≡ passing p k (find m k)
  unfolding find
  find-filter p [] k h = refl
  find-filter p ((j, w) ∷ m) k h = elim (Bool-cases (j == k)) [
    | inl e ↦ let same = (==-iff j k).0 e in ground (arith, e, same, h.0, find-filter p m k h.1)
    | inr e ↦ ground (arith, e, find-filter p m k h.1)
  ]

  pub filter-IsKeyed : (p : K × V → Bool) (m : Table K V) → IsKeyed m → IsKeyed (filter p m)
  filter-IsKeyed p [] h = tt
  filter-IsKeyed p ((j, w) ∷ m) h =
      ground (arith, h.0, find-filter p m j h.1, filter-IsKeyed p m h.1)
