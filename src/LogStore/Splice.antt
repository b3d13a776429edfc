-- ===== src/LogStore/Splice.antt =====
-- Writing a run of entries over a list from a place on, as the loop of `apply_pack` does.
use replicated_splinterdb.Base.{
  ℕ, zero, suc, ◌+◌, ◌≤◌, ◌<◌, ◌≡◌, refl, sym, ap, ◌∙◌, List, [], ◌∷◌, ◌++◌, append_assoc, length,
  length-append, length-take, length-drop, max, get_elem?, get_elem?-append_left,
  get_elem?-append_right, take, drop, arith,
}
use replicated_splinterdb.Base.Numbered.{put_at}

module _ {E : Type 0} where
  -- Writes the values from place `j` on, over what stands there and behind the end.
  abbrev pub put_all_at : ℕ → List E → List E → List E
  put_all_at j [] xs = xs
  put_all_at j (e ∷ es) xs = put_all_at (suc j) es (put_at j e xs)

  abbrev pub spliced : ℕ → List E → List E → List E
  spliced j es xs = take j xs ++ (es ++ drop (j + length es) xs)

  pub length-put_at : (j : ℕ) (e : E) (xs : List E) → j ≤ length xs → suc j ≤ length (put_at j e xs)
  length-put_at j e [] h = omega arith
  length-put_at zero e (x ∷ xs) h = omega arith
  length-put_at (suc j) e (x ∷ xs) h = omega (arith, length-put_at j e xs (omega arith))

  take-put_at :
      (j : ℕ) (e : E) (xs : List E)
      → j ≤ length xs
      → take (suc j) (put_at j e xs) ≡ take j xs ++ e ∷ []
  take-put_at zero e [] h = refl
  take-put_at (suc j) e [] h = absurd (omega arith)
  take-put_at zero e (x ∷ xs) h = refl
  take-put_at (suc j) e (x ∷ xs) h = ap (◌∷◌ x) (take-put_at j e xs (omega arith))

  drop-nil : (k : ℕ) → drop {A = E} k [] ≡ []
  drop-nil zero = refl
  drop-nil (suc k) = refl

  drop-put_at :
      (j k : ℕ) (e : E) (xs : List E) → j ≤ length xs → j < k → drop k (put_at j e xs) ≡ drop k xs
  drop-put_at j zero e xs h p = absurd (omega arith)
  drop-put_at j (suc k) e [] h p = drop-nil k
  drop-put_at zero (suc k) e (x ∷ xs) h p = refl
  drop-put_at (suc j) (suc k) e (x ∷ xs) h p = drop-put_at j k e xs (omega arith) (omega arith)

  take-append-drop : (j : ℕ) (xs : List E) → take j xs ++ drop j xs ≡ xs
  take-append-drop zero xs = refl
  take-append-drop (suc j) [] = refl
  take-append-drop (suc j) (x ∷ xs) = ap (◌∷◌ x) (take-append-drop j xs)

  pub length-spliced :
      (j : ℕ) (es xs : List E)
      → j ≤ length xs
      → length (spliced j es xs) ≡ max (length xs) (j + length es)
  length-spliced j es xs h = omega (
    arith,
    length-append (take j xs) (es ++ drop (j + length es) xs),
    length-append es (drop (j + length es) xs),
    length-take j xs,
    length-drop (j + length es) xs,
  )

  pub get_elem?-spliced :
      (j : ℕ) (es xs : List E) (i : ℕ)
      → j ≤ length xs
      → i < length es
      → get_elem? (spliced j es xs) (j + i) ≡ get_elem? es i
  get_elem?-spliced j es xs i within below =
      let len : length (take j xs) ≡ j = omega (arith, length-take j xs) in
      let rest = es ++ drop (j + length es) xs in
      ap (λ (k : ℕ). get_elem? (take j xs ++ rest) (k + i)) (sym len)
      ∙ get_elem?-append_right (take j xs) rest i
      ∙ get_elem?-append_left es (drop (j + length es) xs) i below

  pub put_all_at-spliced :
      (j : ℕ) (es xs : List E) → j ≤ length xs → put_all_at j es xs ≡ spliced j es xs
  put_all_at-spliced j [] xs h =
      let e : j + 0 ≡ j = omega arith in rw e (sym (take-append-drop j xs))
  put_all_at-spliced j (e ∷ es) xs h =
      let p : suc j + length es ≡ j + suc (length es) = omega arith in
      put_all_at-spliced (suc j) es (put_at j e xs) (length-put_at j e xs h)
      ∙ rw (
        take-put_at j e xs h,
        drop-put_at j (suc j + length es) e xs h (omega arith),
        p,
        append_assoc,
      )
