-- ===== src/Base/Numbered.antt =====
-- Maps whose keys are consecutive numbers, as the maps from log indices to entries are.
use Prim.Native.Nat.{ℕ, zero, suc, ◌+◌, ◌-◌, ◌≤◌, ◌<◌}
use mathlib.Core.Path.{◌≡◌, refl, ap}
use mathlib.Core.Option.{Option, none, some}
use mathlib.Core.List.{List, [], ◌∷◌, ◌++◌}
use mathlib.Core.Logic.{inl, inr}
use native.Mathlib.Omega.{arith}
use replicated_splinterdb.Base.Tests.{ltb, if◌then◌else◌, Bool-cases, ltb→lt}
use replicated_splinterdb.Base.Lists.{length, get_elem?, take, drop}
use replicated_splinterdb.Base.Map.{Map, find, assign, erase, erase_from}

module _ {ℓ} {V : Type ℓ} where
  -- The values of a list under the keys `k`, `k + 1`, ...
  abbrev pub number : ℕ → List V → Map V
  number k [] = []
  number k (x ∷ xs) = (k, x) ∷ number (suc k) xs

  -- The value at place `i - k`, where the keys start at `k`.
  abbrev pub at : ℕ → ℕ → List V → Option V
  at i k xs = if ltb i k then none else get_elem? xs (i - k)

  -- Writes the value at place `i`, or behind the last.
  abbrev pub put_at : ℕ → V → List V → List V
  put_at i v [] = v ∷ []
  put_at zero v (x ∷ xs) = v ∷ xs
  put_at (suc i) v (x ∷ xs) = x ∷ put_at i v xs

module _ {V : Type 0} where
  pub length-number : (k : ℕ) (xs : List V) → length (number k xs) ≡ length xs
  length-number k [] = refl
  length-number k (x ∷ xs) = ap suc (length-number (suc k) xs)

  get_elem?-cons :
      (i k : ℕ) (x : V) (xs : List V)
      → k < i
      → get_elem? (x ∷ xs) (i - k) ≡ get_elem? xs (i - suc k)
  get_elem?-cons i k x xs h = let e : i - k ≡ suc (i - suc k) = omega arith in rw e

  get_elem?-cons_self :
      (i k : ℕ) (x : V) (xs : List V) → i ≡ k → get_elem? (x ∷ xs) (i - k) ≡ some x
  get_elem?-cons_self i k x xs h = let e : i - k ≡ 0 = omega arith in rw e

  pub find-number : (i k : ℕ) (xs : List V) → find i (number k xs) ≡ at i k xs
  unfolding find
  find-number i k [] = ground arith
  find-number i k (x ∷ xs) =
      ground
        (arith, find-number i (suc k) xs, get_elem?-cons i k x xs, get_elem?-cons_self i k x xs)

  take-nil : (n : ℕ) → take {A = V} n [] ≡ []
  take-nil zero = refl
  take-nil (suc n) = refl

  take-cons :
      (i k : ℕ) (x : V) (xs : List V) → k < i → take (i - k) (x ∷ xs) ≡ x ∷ take (i - suc k) xs
  take-cons i k x xs h = let e : i - k ≡ suc (i - suc k) = omega arith in rw e

  take_none : (i k : ℕ) (xs : List V) → i ≤ k → take (i - k) xs ≡ []
  take_none i k xs h = let e : i - k ≡ 0 = omega arith in rw e

  -- Erasing from key `i` on keeps the first `i - k` values.
  pub erase_from-number :
      (i k : ℕ) (xs : List V) → erase_from i (number k xs) ≡ number k (take (i - k) xs)
  unfolding erase_from
  erase_from-number i k [] = rw take-nil
  erase_from-number i k (x ∷ xs) = elim (Bool-cases (ltb k i)) [
    | inl lt ↦ rw (take-cons i k x xs (ltb→lt k i lt), lt, erase_from-number i (suc k) xs)
    | inr ge ↦ rw (take_none i k (x ∷ xs) (ground arith), ge)
  ]

  pub assign-number :
      (k j : ℕ) (v : V) (xs : List V)
      → j ≤ length xs
      → assign (k + j) v (number k xs) ≡ number k (put_at j v xs)
  unfolding assign
  assign-number k zero v [] h = ground arith
  assign-number k (suc j) v [] h = absurd (omega arith)
  assign-number k zero v (x ∷ xs) h = ground arith
  assign-number k (suc j) v (x ∷ xs) h = ground (arith, assign-number (suc k) j v xs)

  pub put_at-length : (v : V) (xs : List V) → put_at (length xs) v xs ≡ xs ++ v ∷ []
  put_at-length v [] = refl
  put_at-length v (x ∷ xs) = ap (◌∷◌ x) (put_at-length v xs)

  erase-number_absent : (i k : ℕ) (xs : List V) → i < k → erase i (number k xs) ≡ number k xs
  unfolding erase
  erase-number_absent i k [] h = refl
  erase-number_absent i k (x ∷ xs) h = ground (arith, erase-number_absent i (suc k) xs)

  pub erase-number : (k : ℕ) (xs : List V) → erase k (number k xs) ≡ number (suc k) (drop 1 xs)
  unfolding erase
  erase-number k [] = refl
  erase-number k (x ∷ xs) = ground arith
