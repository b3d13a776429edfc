-- ===== src/SplinterDb/Keys.antt =====
-- Equality of keys, byte by byte.
use replicated_splinterdb.Base.{◌≡◌, refl, Bool, true, false, ◌&&◌, [], ◌∷◌, ◌==◌, ==_refl, arith}
use replicated_splinterdb.Nuraft.{Bytes}

unfoldable pub bytes_eq : Bytes → Bytes → Bool
bytes_eq [] [] = true
bytes_eq (x ∷ xs) (y ∷ ys) = x == y && bytes_eq xs ys
bytes_eq _ _ = false

pub bytes_eq_refl : (k : Bytes) → bytes_eq k k ≡ true
unfolding bytes_eq
bytes_eq_refl [] = refl
bytes_eq_refl (x ∷ xs) = rw (==_refl x) (bytes_eq_refl xs)

pub eq_of_bytes_eq : (k j : Bytes) → bytes_eq k j ≡ true → k ≡ j
unfolding bytes_eq
eq_of_bytes_eq [] [] h = refl
eq_of_bytes_eq [] (y ∷ ys) h = cc
eq_of_bytes_eq (x ∷ xs) [] h = cc
eq_of_bytes_eq (x ∷ xs) (y ∷ ys) h = ground (arith, eq_of_bytes_eq xs ys)
