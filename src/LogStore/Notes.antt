-- ===== src/LogStore/Notes.antt =====
-- The notes of writes that the disk thread has yet to make, in the order in which they are due.
pub mod Cut
use replicated_splinterdb.Base.{ℕ, ◌≤◌, ◌<◌, ◌≡◌, refl, false, [], ◌∷◌, ◌++◌, All, ltb, ◌==◌, arith}
use replicated_splinterdb.Base.Map.{Map, assign}
use replicated_splinterdb.LogStore.Durability.{last_noted, StartsAfter}

-- Notes in the order of their times and of their log indices, from index `d` on.
abbrev pub IsQueue : ℕ → Map ℕ → Type 0
IsQueue d [] = Unit {0}
IsQueue d ((t, i) ∷ m) = (d ≤ i) × StartsAfter t m × IsQueue i m

-- The notes are for times up to `t`.
abbrev pub DueBy : ℕ → Map ℕ → Type 0
DueBy t = All (λ (p : ℕ × ℕ). p.0 ≤ t)

pub last_noted-ge : (d : ℕ) (m : Map ℕ) → IsQueue d m → d ≤ last_noted d m
last_noted-ge d [] q = omega arith
last_noted-ge d ((t, i) ∷ m) q = omega (arith, q.0, last_noted-ge i m q.2)

pub last_noted_mono : (d e : ℕ) (m : Map ℕ) → d ≤ e → last_noted d m ≤ last_noted e m
last_noted_mono d e [] h = h
last_noted_mono d e ((t, i) ∷ m) h = omega arith

pub IsQueue-weaken : (d e : ℕ) (m : Map ℕ) → d ≤ e → IsQueue e m → IsQueue d m
IsQueue-weaken d e [] h q = tt
IsQueue-weaken d e ((t, i) ∷ m) h q = (omega (arith, q.0), q.1, q.2)

pub last_noted-append :
    (d : ℕ) (m k : Map ℕ) → last_noted d (m ++ k) ≡ last_noted (last_noted d m) k
last_noted-append d [] k = refl
last_noted-append d ((t, i) ∷ m) k = last_noted-append i m k

pub IsQueue-rest :
    (d : ℕ) (m k : Map ℕ) → IsQueue d (m ++ k) → IsQueue (last_noted d m) k × (d ≤ last_noted d m)
IsQueue-rest d [] k q = (q, omega arith)
IsQueue-rest d ((t, i) ∷ m) k q = let r = IsQueue-rest i m k q.2 in (r.0, omega (arith, q.0, r.1))

pub DueBy-rest : (t : ℕ) (m k : Map ℕ) → DueBy t (m ++ k) → DueBy t k
DueBy-rest t [] k h = h
DueBy-rest t (p ∷ m) k h = DueBy-rest t m k h.1

pub DueBy-weaken : (t u : ℕ) (m : Map ℕ) → t ≤ u → DueBy t m → DueBy u m
DueBy-weaken t u [] h d = tt
DueBy-weaken t u (p ∷ m) h d = (omega (arith, d.0), DueBy-weaken t u m h d.1)

-- Notes of which the last is of index `v`.
pub record IsNoted (d t v : ℕ) (m : Map ℕ) : Type 0 where
  pub queue : IsQueue d m
  pub in_time : DueBy t m
  pub latest : (e : ℕ) → last_noted e m ≡ v

assign-StartsAfter :
    (s t v : ℕ) (m : Map ℕ) → s < t → StartsAfter s m → StartsAfter s (assign t v m)
unfolding assign
assign-StartsAfter s t v [] h a = h
assign-StartsAfter s t v ((u, i) ∷ m) h a = ground arith

pub assign-IsNoted :
    (d t v : ℕ) (m : Map ℕ)
    → IsQueue d m
    → DueBy t m
    → last_noted d m ≤ v
    → IsNoted d t v (assign t v m)
unfolding assign
assign-IsNoted d t v [] q h top = record {
  queue = (top, tt, tt);
  in_time = (omega arith, tt);
  latest = λ e. refl;
}
assign-IsNoted d t v ((u, i) ∷ []) q h top = ground (arith, q.0, h.0)
assign-IsNoted d t v ((u, i) ∷ (w, j) ∷ m) q h top =
    let before : ltb t u ≡ false = ground (arith, h.0) in
    let behind : (u == t) ≡ false = ground (arith, q.1, h.1.0) in
    let rest = assign-IsNoted i t v ((w, j) ∷ m) q.2 h.1 top in
    rw (before, behind)
      (record {
        queue = (
          q.0,
          assign-StartsAfter u t v ((w, j) ∷ m) (omega (arith, q.1, h.1.0)) q.1,
          rest.queue,
        );
        in_time = (h.0, rest.in_time);
        latest = λ e. rest.latest i;
      })

-- Notes that are all due, of which the first is not, are none.
pub all_due :
    (t : ℕ) (due waiting : Map ℕ) → StartsAfter t waiting → DueBy t (due ++ waiting) → waiting ≡ []
all_due t due [] a h = refl
all_due t due ((u, i) ∷ m) a h = absurd (omega (arith, (DueBy-rest t due ((u, i) ∷ m) h).0, a))
