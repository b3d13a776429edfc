-- ===== src/LogStore/Reads.antt =====
-- `entry_at`, `term_at`, `last_entry`, `log_entries` and `log_entries_ext` on the list of entries that
-- the store stands for.
use replicated_splinterdb.Base.{
  ℕ, zero, suc, ◌+◌, ◌-◌, ◌≤◌, ◌<◌, ◌≡◌, refl, sym, ap, ◌∙◌, Option, none, some, List, [], ◌∷◌,
  length, length-take, length-drop, get_elem?, take, drop, ok, arith, le→ltb_false,
}
use replicated_splinterdb.Base.Numbered.{at}
use replicated_splinterdb.Nuraft.{Nuraft}
use replicated_splinterdb.LogStore.{
  InmemLogStore, entry_at, term_at, last_entry, log_entries, clone_range, next_slot, u64_pred,
}
use replicated_splinterdb.LogStore.View.{
  RaftLog, Represents, next, entry_or_dummy, next_slot-Represents, find_or_dummy-Represents,
  make_clone_lem,
}

module _ {E : Type 0} where
  -- The entries of the indices from `a` up to `b`, `b` not included.
  abbrev pub slice : RaftLog E → ℕ → ℕ → List E
  slice l a b = take (b - a) (drop (a - l.start) l.entries)

  pub length-slice :
      (l : RaftLog E) (a b : ℕ) → l.start ≤ a → a ≤ b → b ≤ next l → length (slice l a b) ≡ b - a
  length-slice l a b lo mid hi = omega (
    arith,
    length-take (b - a) (drop (a - l.start) l.entries),
    length-drop (a - l.start) l.entries,
  )

  -- The last entry, or the dummy entry of an empty log.
  abbrev pub last_or : E → List E → E
  last_or d [] = d
  last_or d (x ∷ xs) = last_or x xs

  abbrev pub value_or : E → Option E → E
  value_or d none = d
  value_or d (some e) = e

  get_elem?-last :
      (d x : E) (xs : List E) → value_or d (get_elem? (x ∷ xs) (length xs)) ≡ last_or x xs
  get_elem?-last d x [] = refl
  get_elem?-last d x (y ∷ xs) = get_elem?-last d y xs

  entry_or_dummy-last :
      (d : E) (k i : ℕ) (xs : List E)
      → 0 < k
      → i + 1 ≡ k + length xs
      → value_or d (at i k xs) ≡ last_or d xs
  entry_or_dummy-last d k i [] h e = ground arith
  entry_or_dummy-last d k i (x ∷ xs) h e =
      let p : i - k ≡ length xs = omega arith in
      rw (le→ltb_false i k (omega arith), p) (get_elem?-last d x xs)

  take-drop_step :
      (d : E) (j r : ℕ) (xs : List E)
      → j < length xs
      → take (suc r) (drop j xs) ≡ value_or d (get_elem? xs j) ∷ take r (drop (suc j) xs)
  take-drop_step d j r [] h = absurd (omega arith)
  take-drop_step d zero r (x ∷ xs) h = refl
  take-drop_step d (suc j) r (x ∷ xs) h = take-drop_step d j r xs (omega arith)

  -- Within the log there is an entry at the index, and a slice begins with it.
  pub slice_step :
      (i k : ℕ) (d : E) (xs : List E) (r : ℕ)
      → k ≤ i
      → i < k + length xs
      → take (suc r) (drop (i - k) xs) ≡ value_or d (at i k xs) ∷ take r (drop (suc i - k) xs)
  slice_step i k d xs r lo hi =
      let e : suc i - k ≡ suc (i - k) = omega arith in
      rw (e, le→ltb_false i k lo) (take-drop_step d (i - k) r xs (omega arith))

module _ (n : Nuraft) where
  open n use {Entry}

  module _ {s : InmemLogStore Entry} {l : RaftLog Entry} (v : Represents s l) where
    -- On a store that stands for a log, `entry_at` gives the entry of an index of the log, and the
    -- dummy entry for any other index.
    pub entry_at-Represents : (i : ℕ) → entry_at n i s ≡ ok (entry_or_dummy l i)
    unfolding entry_at
    entry_at-Represents i =
        rw (find_or_dummy-Represents i v) (ap ok (make_clone_lem n (entry_or_dummy l i)))

    -- On a store that stands for a log, `term_at` gives the term of the entry of an index of the log, and
    -- that of the dummy entry for any other index.
    pub term_at-Represents : (i : ℕ) → term_at n i s ≡ ok (n.get_term (entry_or_dummy l i))
    unfolding term_at
    term_at-Represents i = rw (find_or_dummy-Represents i v)

    -- On a store that stands for a log, `last_entry` gives the last entry of the log, and the dummy
    -- entry where the log is empty.
    pub last_entry-Represents : last_entry n s ≡ ok (last_or l.dummy l.entries)
    unfolding last_entry
    last_entry-Represents =
        rw (find_or_dummy-Represents (u64_pred (next_slot s)) v, next_slot-Represents v)
          (ap ok (
            make_clone_lem n _
            ∙ entry_or_dummy-last l.dummy l.start (u64_pred (next l)) l.entries v.positive
                (omega (arith, v.positive, v.fits))))

    clone_range-Represents :
        (r ii : ℕ)
        → l.start ≤ ii
        → ii + r ≤ next l
        → clone_range n r ii s.logs ≡ ok (take r (drop (ii - l.start) l.entries))
    unfolding clone_range
    clone_range-Represents zero ii lo hi = refl
    clone_range-Represents (suc r) ii lo hi =
        rw
          (
            find_or_dummy-Represents ii v,
            clone_range-Represents r (suc ii) (omega arith) (omega arith),
            make_clone_lem n (entry_or_dummy l ii),
          )
          (ap ok (sym (slice_step ii l.start l.dummy l.entries r lo (omega arith))))

    -- On a store that stands for a log, `log_entries` of a range within the log gives its entries,
    -- in order.
    pub log_entries-Represents :
        (a b : ℕ) → l.start ≤ a → a ≤ b → b ≤ next l → log_entries n a b s ≡ ok (slice l a b)
    unfolding log_entries
    log_entries-Represents a b lo mid hi =
        rw (le→ltb_false b a mid) (clone_range-Represents (b - a) a lo (omega arith))
