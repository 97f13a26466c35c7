-- ===== src/Prelude/Map.antt =====
-- The parts of `std::unordered_map` and `std::map` that the program uses, as association lists.
use mathlib.Core.Path.{◌≡◌, refl}
use mathlib.Core.Bool.{Bool, true, false}
use mathlib.Core.Option.{Option, none, some}
use mathlib.Core.List.{List, [], ◌∷◌}
use native.Mathlib.Omega.{arith}
use io_scheduler.Prelude.Tests.{Key, ◌==◌, if◌then◌else◌, or_else, has_value}

abbrev pub Map {ℓ κ} : Type ℓ → Type κ → Type (ℓ ⊔ κ)
Map K V = List (K × V)

module _ {ℓ κ} {K : Type ℓ} {V : Type κ} ⦃e : Key K⦄ where
  unfoldable pub find : K → Map K V → Option V
  find k [] = none
  find k ((j, v) ∷ m) = if j == k then some v else find k m

  -- `count(k) != 0`
  unfoldable pub contains : K → Map K V → Bool
  unfolding find
  contains k m = has_value (find k m)

  -- An entry that is there stays; the flag says whether one was added.
  unfoldable pub emplace : K → V → Map K V → Map K V × Bool
  emplace k v m = elim (find k m) [ none ↦ ((k, v) ∷ m, true) | some w ↦ (m, false) ]

  unfoldable pub erase : K → Map K V → Map K V
  erase k [] = []
  erase k ((j, v) ∷ m) = let rest = erase k m in if j == k then rest else (j, v) ∷ rest

  -- `m[k] = v`
  unfoldable pub assign : K → V → Map K V → Map K V
  assign k v [] = (k, v) ∷ []
  assign k v ((j, w) ∷ m) = let rest = assign k v m in if j == k then (k, v) ∷ m else (j, w) ∷ rest

  pub find-emplace :
      (k : K) (v : V) (m : Map K V) (j : K)
      → find j (emplace k v m).0 ≡ or_else (find j m) (if k == j then some v else none)
  unfolding find emplace
  find-emplace k v m j = ground (arith, e.same_iff k j)

  pub emplace-inserted : (k : K) (v : V) (m : Map K V) → find k m ≡ none → (emplace k v m).1 ≡ true
  unfolding emplace
  emplace-inserted k v m h = ground arith

  pub find-erase :
      (k : K) (m : Map K V) (j : K) → find j (erase k m) ≡ (if k == j then none else find j m)
  unfolding find erase
  find-erase k [] j = ground arith
  find-erase k ((i, w) ∷ m) j =
      ground (arith, find-erase k m j, e.same_iff i k, e.same_iff i j, e.same_iff k j)

  pub find-assign :
      (k : K) (v : V) (m : Map K V) (j : K)
      → find j (assign k v m) ≡ (if k == j then some v else find j m)
  unfolding find assign
  find-assign k v [] j = refl
  find-assign k v ((i, w) ∷ m) j =
      ground (arith, find-assign k v m j, e.same_iff i k, e.same_iff i j, e.same_iff k j)

  -- No key has two entries.
  unfoldable pub distinct : Map K V → Bool
  unfolding find contains
  distinct [] = true
  distinct ((k, v) ∷ m) = let rest = distinct m in if contains k m then false else rest

  pub emplace-distinct :
      (k : K) (v : V) (m : Map K V) → distinct m ≡ true → distinct (emplace k v m).0 ≡ true
  unfolding emplace distinct
  emplace-distinct k v m d = ground arith

  pub erase-distinct : (k : K) (m : Map K V) → distinct m ≡ true → distinct (erase k m) ≡ true
  unfolding erase distinct
  erase-distinct k [] d = refl
  erase-distinct k ((j, v) ∷ m) d = ground (arith, erase-distinct k m, find-erase k m j)

  pub assign-distinct :
      (k : K) (v : V) (m : Map K V) → distinct m ≡ true → distinct (assign k v m) ≡ true
  unfolding assign find distinct
  assign-distinct k v [] d = refl
  assign-distinct k v ((j, w) ∷ m) d =
      ground (arith, assign-distinct k v m, find-assign k v m j, e.same_iff j k, e.same_iff k j)
