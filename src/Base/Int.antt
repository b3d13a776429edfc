-- ===== src/Base/Int.antt =====
-- Signed integers over the native numbers, and the conversions of fixed width that the program
-- makes between them and unsigned words.
use Prim.Native.Nat.{ℕ, ◌-◌, ◌%◌, ◌^◌, ◌<◌}
use mathlib.Core.Path.{◌≡◌}
use mathlib.Core.Logic.{◌↔◌}
use mathlib.Core.Bool.{Bool, true, false}
use native.Mathlib.Omega.{arith}
use replicated_splinterdb.Base.Tests.{ltb, ◌==◌, if◌then◌else◌}

-- `negsuc n` is -(n + 1).
pub data ℤ : Type 0 where
  pos : ℕ → ℤ
  negsuc : ℕ → ℤ

infix 50 ◌==ℤ◌
abbrev pub ◌==ℤ◌ : ℤ → ℤ → Bool
pos a ==ℤ pos b = a == b
pos a ==ℤ negsuc b = false
negsuc a ==ℤ pos b = false
negsuc a ==ℤ negsuc b = a == b

abbrev pub is_negative : ℤ → Bool
is_negative (pos n) = false
is_negative (negsuc n) = true

-- The value of a word kept to 64 bits.
abbrev pub u64 : ℕ → ℕ
u64 n = n % 2 ^ 64

abbrev pub u32 : ℕ → ℕ
u32 n = n % 2 ^ 32

abbrev pub u16 : ℕ → ℕ
u16 n = n % 2 ^ 16

-- `(int32_t)n` for an unsigned n.
abbrev pub int32_of : ℕ → ℤ
int32_of n = let w = u32 n in if ltb w (2 ^ 31) then pos w else negsuc (2 ^ 32 - w - 1)

-- `(uint64_t)z` for a signed z.
abbrev pub u64_of : ℤ → ℕ
u64_of (pos n) = u64 n
u64_of (negsuc n) = u64 (2 ^ 64 - 1 - n % 2 ^ 64)

pub ==ℤ_iff : (a b : ℤ) → ((a ==ℤ b) ≡ true) ↔ (a ≡ b)
==ℤ_iff a b = ground arith

pub int32_of_small : (n : ℕ) → n < 2 ^ 31 → int32_of n ≡ pos n
int32_of_small n h = ground arith
