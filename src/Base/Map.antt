-- ===== src/Base/Map.antt =====
-- `std::map` with unsigned keys: a list of pairs, the keys in ascending order.
use Prim.Native.Nat.{ℕ}
use mathlib.Core.Option.{Option, none, some}
use mathlib.Core.List.{List, [], ◌∷◌}
use replicated_splinterdb.Base.Tests.{ltb, ◌==◌, if◌then◌else◌}

abbrev pub Map {ℓ} : Type ℓ → Type ℓ
Map V = List (ℕ × V)

module _ {ℓ} {V : Type ℓ} where
  -- m.find(k)
  unfoldable pub find : ℕ → Map V → Option V
  find k [] = none
  find k ((j, v) ∷ m) = if j == k then some v else find k m

  -- m[k] = v
  unfoldable pub assign : ℕ → V → Map V → Map V
  assign k v [] = (k, v) ∷ []
  assign k v ((j, w) ∷ m) =
      if ltb k j then (k, v) ∷ (j, w) ∷ m else if j == k then (k, v) ∷ m else (j, w) ∷ assign k v m

  -- m.erase(m.find(k)), where the key is there
  unfoldable pub erase : ℕ → Map V → Map V
  erase k [] = []
  erase k ((j, v) ∷ m) = if j == k then m else (j, v) ∷ erase k m

  -- Erases from m.lower_bound(k) to the end.
  unfoldable pub erase_from : ℕ → Map V → Map V
  erase_from k [] = []
  erase_from k ((j, v) ∷ m) = if ltb j k then (j, v) ∷ erase_from k m else []

  -- m.upper_bound(k)
  unfoldable pub upper_bound : ℕ → Map V → Option (ℕ × V)
  upper_bound k [] = none
  upper_bound k ((j, v) ∷ m) = if ltb k j then some (j, v) else upper_bound k m

  -- *m.begin()
  abbrev pub first : Map V → Option (ℕ × V)
  first [] = none
  first (p ∷ m) = some p

  -- *m.rbegin()
  abbrev pub last : Map V → Option (ℕ × V)
  last [] = none
  last (p ∷ []) = some p
  last (p ∷ q ∷ m) = last (q ∷ m)
