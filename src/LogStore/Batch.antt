-- ===== src/LogStore/Batch.antt =====
-- `log_entries_ext`: the entries of a range, up to a size in bytes.
use replicated_splinterdb.Base.{
  ℕ, zero, suc, ◌+◌, ◌-◌, ◌^◌, ◌≤◌, ◌<◌, ◌≡◌, refl, ap, List, [], ◌∷◌, length, take, drop, pos,
  negsuc, u64, if◌then◌else◌, ok, arith, Bool, true, false, Bool-cases, inl, inr,
}
use replicated_splinterdb.Nuraft.{Nuraft}
use replicated_splinterdb.LogStore.{InmemLogStore, log_entries_ext, batch, reached}
use replicated_splinterdb.LogStore.View.{
  RaftLog, Represents, next, entry_or_dummy, find_or_dummy-Represents, make_clone_lem,
}
use replicated_splinterdb.LogStore.Reads.{slice, slice_step}

if-ok : {A : Type 0} (b : Bool) (x y : A) → (if b then ok x else ok y) ≡ ok (if b then x else y)
if-ok true x y = refl
if-ok false x y = refl

module _ (n : Nuraft) where
  open n use {Entry}

  -- The bytes of the entries' payloads.
  abbrev pub payload : List Entry → ℕ
  payload [] = 0
  payload (e ∷ es) = n.size (n.get_buf e) + payload es

  -- `ys` is a batch of the entries `xs` for a limit in bytes, 0 being none: a prefix, not empty
  -- unless `xs` is, that stops at the first entry with which the limit is reached. The bytes
  -- `before` count towards the limit.
  pub record IsBatch (limit before : ℕ) (xs ys : List Entry) : Type 0 where
    pub is_prefix : take (length ys) xs ≡ ys
    pub progress : 0 < length xs → 0 < length ys
    pub unlimited : limit ≡ 0 → ys ≡ xs
    pub enough : 0 < limit → length ys < length xs → limit ≤ before + payload ys
    pub no_more : (j : ℕ) → 0 < limit → 0 < j → j < length ys → before + payload (take j xs) < limit

  -- The loop on a list.
  abbrev cut : ℕ → ℕ → List Entry → List Entry
  cut limit accum [] = []
  cut limit accum (e ∷ es) =
      let accum' = u64 (accum + n.size (n.get_buf e)) in
      let more = cut limit accum' es in if reached n (pos limit) accum' then e ∷ [] else e ∷ more

  reached_yes :
      (limit a : ℕ) → limit < 2 ^ 64 → reached n (pos limit) a ≡ true → (0 < limit) × (limit ≤ a)
  unfolding reached
  reached_yes limit a h e = ground arith

  reached_no :
      (limit a : ℕ) → limit < 2 ^ 64 → reached n (pos limit) a ≡ false → 0 < limit → a < limit
  unfolding reached
  reached_no limit a h e p = ground arith

  -- The entry that reaches the limit ends the batch.
  stop-IsBatch :
      (limit before : ℕ) (e : Entry) (es : List Entry)
      → (0 < limit) × (limit ≤ before + n.size (n.get_buf e))
      → IsBatch limit before (e ∷ es) (e ∷ [])
  stop-IsBatch limit before e es h = record {
    is_prefix = refl;
    progress = λ p. omega arith;
    unlimited = λ p. absurd (omega arith);
    enough = λ p q. omega arith;
    no_more = λ j p q r. absurd (omega arith);
  }

  -- An entry that does not is followed by a batch of the rest.
  more-IsBatch :
      (limit before : ℕ) (e : Entry) (es ys : List Entry)
      → (0 < limit → before + n.size (n.get_buf e) < limit)
      → IsBatch limit (before + n.size (n.get_buf e)) es ys
      → IsBatch limit before (e ∷ es) (e ∷ ys)
  more-IsBatch limit before e es ys h b = record {
    is_prefix = ap (◌∷◌ e) b.is_prefix;
    progress = λ p. omega arith;
    unlimited = λ p. ap (◌∷◌ e) (b.unlimited p);
    enough = λ p q. omega (arith, b.enough p (omega arith));
    no_more = more;
  }
    where
      more :
          (j : ℕ)
          → 0 < limit
          → 0 < j
          → j < length (e ∷ ys)
          → before + payload (take j (e ∷ es)) < limit
      more zero p q r = absurd (omega arith)
      more (suc zero) p q r = omega (arith, h p)
      more (suc (suc j)) p q r = omega (arith, b.no_more (suc j) p (omega arith) (omega arith))

  cut-IsBatch :
      (limit before : ℕ) (xs : List Entry)
      → limit < 2 ^ 64
      → before + payload xs < 2 ^ 64
      → IsBatch limit before xs (cut limit before xs)
  cut-IsBatch limit before [] h fits = record {
    is_prefix = refl;
    progress = λ p. p;
    unlimited = λ p. refl;
    enough = λ p q. omega arith;
    no_more = λ j p q r. omega arith;
  }
  cut-IsBatch limit before (e ∷ es) h fits =
      let accum = before + n.size (n.get_buf e) in
      let small : u64 accum ≡ accum = omega arith in
      rw small (elim (Bool-cases (reached n (pos limit) accum)) [
        | inl t ↦ rw t (stop-IsBatch limit before e es (reached_yes limit accum h t))
        | inr f ↦ rw f (
            more-IsBatch limit before e es (cut limit accum es) (reached_no limit accum h f)
              (cut-IsBatch limit accum es h (omega arith)))
      ])

  module _ {s : InmemLogStore Entry} {l : RaftLog Entry} (v : Represents s l) where
    batch-Represents :
        (limit r ii accum : ℕ)
        → l.start ≤ ii
        → ii + r ≤ next l
        → batch n (pos limit) r ii accum s.logs
          ≡ ok (cut limit accum (take r (drop (ii - l.start) l.entries)))
    unfolding batch
    batch-Represents limit zero ii accum lo hi = refl
    batch-Represents limit (suc r) ii accum lo hi =
        rw
          (
            find_or_dummy-Represents ii v,
            batch-Represents limit r (suc ii)
                (u64 (accum + n.size (n.get_buf (entry_or_dummy l ii)))) (omega arith)
                (omega arith),
            make_clone_lem n (entry_or_dummy l ii),
            slice_step ii l.start l.dummy l.entries r lo (omega arith),
          )
          (if-ok (reached n (pos limit) _) _ _)

    -- On a store that stands for a log, `log_entries_ext` of a range within the log, with payloads
    -- and a hint below 2^64, gives a batch of its entries for the hint (`IsBatch`), and no entry
    -- for a negative hint.
    pub log_entries_ext-IsBatch :
        (a b limit k : ℕ)
        → l.start ≤ a
        → a ≤ b
        → b ≤ next l
        → limit < 2 ^ 64
        → payload (slice l a b) < 2 ^ 64
        → (ys : List Entry) × (log_entries_ext n a b (pos limit) s ≡ ok ys)
          × IsBatch limit 0 (slice l a b) ys
          × (log_entries_ext n a b (negsuc k) s ≡ ok [])
    unfolding log_entries_ext
    log_entries_ext-IsBatch a b limit k lo mid hi h fits = (
      cut limit 0 (slice l a b),
      batch-Represents limit (b - a) a 0 lo (omega arith),
      cut-IsBatch limit 0 (slice l a b) h (omega arith),
      refl,
    )
