-- ===== src/ReadPolicy/Sample.antt =====
-- Plain numbers: a generator that counts, and a hash that is the first byte of a key.
use replicated_splinterdb.Base.{ℕ, ◌+◌, ◌-◌, ◌^◌, ◌<◌, [], ◌∷◌, min, u32, arith}
use replicated_splinterdb.Nuraft.{Bytes}
use replicated_splinterdb.ReadPolicy.{Chance}

abbrev pub first_byte : Bytes → ℕ
first_byte [] = 2 ^ 32 - 1
first_byte (x ∷ k) = u32 x

pub first_byte_bound : (k : Bytes) → first_byte k < 2 ^ 32
first_byte_bound [] = omega arith
first_byte_bound (x ∷ k) = omega arith

abbrev pub counter : Chance
counter = record {
  Rng = ℕ;
  seeded = 0;
  draw = λ lo hi r. (min (lo + r) hi, r + 1);
  draw_bounds = λ lo hi r h. (omega arith, omega arith);
  murmur3 = λ k seed. first_byte k;
  murmur3_bound = λ k seed. first_byte_bound k;
}
