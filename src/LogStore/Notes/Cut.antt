-- ===== src/LogStore/Notes/Cut.antt =====
-- The notes after `write_at`: those of greater indices are taken out, and one is made.
use replicated_splinterdb.Base.{
  ℕ, ◌≤◌, ◌<◌, ◌≡◌, refl, ap, true, false, Bool-cases, inl, inr, [], ◌∷◌, ltb, ◌==◌, arith,
}
use replicated_splinterdb.Base.Map.{Map, assign}
use replicated_splinterdb.LogStore.{keep_up_to}
use replicated_splinterdb.LogStore.Durability.{last_noted, StartsAfter}
use replicated_splinterdb.LogStore.Notes.{IsQueue, DueBy, IsNoted, assign-IsNoted}

-- Notes from an index above `v` on.
cut_none : (v i : ℕ) (m : Map ℕ) → IsQueue i m → v < i → keep_up_to v m ≡ []
unfolding keep_up_to
cut_none v i [] q h = refl
cut_none v i ((t, j) ∷ m) q h =
    let out : ltb v j ≡ true = ground (arith, q.0) in
    rw out (cut_none v j m q.2 (omega (arith, q.0)))

cut-StartsAfter :
    (s d v : ℕ) (m : Map ℕ) → IsQueue d m → StartsAfter s m → StartsAfter s (keep_up_to v m)
unfolding keep_up_to
cut-StartsAfter s d v [] q a = tt
cut-StartsAfter s d v ((t, i) ∷ m) q a = elim (Bool-cases (ltb v i)) [
  | inl out ↦ rw (out, cut_none v i m q.2 (ground (arith, out))) tt
  | inr kept ↦ rw kept a
]

cut-IsQueue : (d v : ℕ) (m : Map ℕ) → IsQueue d m → IsQueue d (keep_up_to v m)
unfolding keep_up_to
cut-IsQueue d v [] q = tt
cut-IsQueue d v ((t, i) ∷ m) q = elim (Bool-cases (ltb v i)) [
  | inl out ↦ rw (out, cut_none v i m q.2 (ground (arith, out))) tt
  | inr kept ↦ rw kept (q.0, cut-StartsAfter t i v m q.2 q.1, cut-IsQueue i v m q.2)
]

cut-DueBy : (t v : ℕ) (m : Map ℕ) → DueBy t m → DueBy t (keep_up_to v m)
unfolding keep_up_to
cut-DueBy t v [] h = tt
cut-DueBy t v ((u, i) ∷ m) h = elim (Bool-cases (ltb v i)) [
  | inl out ↦ rw out (cut-DueBy t v m h.1)
  | inr kept ↦ rw kept (h.0, cut-DueBy t v m h.1)
]

cut_last : (d v : ℕ) (m : Map ℕ) → d ≤ v → last_noted d (keep_up_to v m) ≤ v
unfolding keep_up_to
cut_last d v [] h = h
cut_last d v ((t, i) ∷ m) h = elim (Bool-cases (ltb v i)) [
  | inl out ↦ rw out (cut_last d v m h)
  | inr kept ↦ rw kept (cut_last i v m (ground (arith, kept)))
]

-- The new note is of the index itself, so that it does not matter which of the two is done first.
cut-assign :
    (d t v : ℕ) (m : Map ℕ)
    → IsQueue d m
    → DueBy t m
    → keep_up_to v (assign t v m) ≡ assign t v (keep_up_to v m)
unfolding keep_up_to assign
cut-assign d t v [] q h = ground arith
cut-assign d t v ((u, i) ∷ []) q h = ground (arith, h.0)
cut-assign d t v ((u, i) ∷ (w, j) ∷ m) q h =
    let before : ltb t u ≡ false = ground (arith, h.0) in
    let behind : (u == t) ≡ false = ground (arith, q.1, h.1.0) in
    let rest = cut-assign i t v ((w, j) ∷ m) q.2 h.1 in
    elim (Bool-cases (ltb v i)) [
      | inl out ↦ rw (before, behind, keep_up_to, out, keep_up_to) rest
      | inr kept ↦
          rw (before, behind, keep_up_to, kept, assign, before, behind) (ap (◌∷◌ (u, i)) rest)
    ]

pub cut-IsNoted :
    (d t v : ℕ) (m : Map ℕ)
    → IsQueue d m
    → DueBy t m
    → d ≤ v
    → IsNoted d t v (keep_up_to v (assign t v m))
cut-IsNoted d t v m q h low = rw (cut-assign d t v m q h) (
    assign-IsNoted d t v (keep_up_to v m) (cut-IsQueue d v m q) (cut-DueBy t v m h)
      (cut_last d v m low))
