-- ===== src/LogStore/Writes.antt =====
-- `append`, `write_at` and `compact` on the list of entries that the store stands for.
use replicated_splinterdb.Base.{
  ℕ, zero, suc, max, ◌∙◌, ◌+◌, ◌-◌, ◌^◌, ◌≤◌, ◌<◌, ◌≡◌, refl, List, [], ◌∷◌, ◌++◌, length,
  length-append, length-take, length-drop, take, drop, arith,
}
use replicated_splinterdb.Base.Map.{assign, erase, erase_from}
use replicated_splinterdb.Base.Numbered.{
  number, put_at-length, assign-number, erase_from-number, erase-number,
}
use replicated_splinterdb.Nuraft.{Nuraft}
use replicated_splinterdb.LogStore.{
  InmemLogStore, append, write_at, compact, erase_range, next_slot, make_clone,
}
use replicated_splinterdb.LogStore.View.{
  RaftLog, Represents, next, next_slot-Represents, make_clone_lem,
}

module _ {E : Type 0} where
  abbrev pub appended : RaftLog E → E → RaftLog E
  appended l e = record l { entries = l.entries ++ e ∷ [] }

  -- Entries from `index` on make way for the new one.
  abbrev pub overwritten : RaftLog E → ℕ → E → RaftLog E
  overwritten l index e = record l { entries = take (index - l.start) l.entries ++ e ∷ [] }

  abbrev pub compacted : RaftLog E → ℕ → RaftLog E
  compacted l last = record l {
    start = max l.start (last + 1);
    entries = drop (suc last - l.start) l.entries;
  }

  -- Writing right behind the last entry.
  assign-behind :
      (d e : E) (k i : ℕ) (xs : List E)
      → 0 < k
      → i ≡ k + length xs
      → assign i e ((0, d) ∷ number k xs) ≡ (0, d) ∷ number k (xs ++ e ∷ [])
  unfolding assign
  assign-behind d e k i xs h p =
      ground (arith, assign-number k (length xs) e xs, put_at-length e xs)

module _ (n : Nuraft) where
  open n use {Entry}

  append_logs :
      (e : Entry) (now : ℕ) (s : InmemLogStore Entry)
      → ((append n e now s).1.logs ≡ assign (next_slot s) (make_clone n e) s.logs)
        × ((append n e now s).1.start_idx ≡ s.start_idx)
  unfolding append
  append_logs e now s = ground arith

  -- On a store that stands for a log, `append` returns the index behind the last entry and puts the
  -- entry there, if that index is below 2^64 - 1.
  pub append-Represents :
      (e : Entry) (now : ℕ) (s : InmemLogStore Entry) (l : RaftLog Entry)
      → Represents s l
      → next l + 1 < 2 ^ 64
      → ((append n e now s).0 ≡ next l) × Represents (append n e now s).1 (appended l e)
  unfolding append
  append-Represents e now s l r room = (
    next_slot-Represents r,
    record {
      logs_eq =
          (append_logs e now s).0
          ∙ rw (next_slot-Represents r, make_clone_lem n e, r.logs_eq)
              (assign-behind l.dummy e l.start (next l) l.entries r.positive refl);
      start_eq = (append_logs e now s).1 ∙ r.start_eq;
      positive = r.positive;
      fits = omega (arith, length-append l.entries (e ∷ []), room);
    },
  )

  write_at_logs :
      (index : ℕ) (e : Entry) (now : ℕ) (s : InmemLogStore Entry)
      → ((write_at n index e now s).logs ≡ assign index (make_clone n e) (erase_from index s.logs))
        × ((write_at n index e now s).start_idx ≡ s.start_idx)
  unfolding write_at
  write_at_logs index e now s = ground arith

  erase_from-logs :
      (index : ℕ) (l : RaftLog Entry)
      → 0 < index
      → erase_from index ((0, l.dummy) ∷ number l.start l.entries)
        ≡ (0, l.dummy) ∷ number l.start (take (index - l.start) l.entries)
  unfolding erase_from
  erase_from-logs index l h = ground (arith, erase_from-number index l.start l.entries)

  -- On a store that stands for a log, `write_at` at an index of the log or right behind it, below
  -- 2^64 - 1, puts the entry there and discards what stood from there on.
  pub write_at-Represents :
      (index : ℕ) (e : Entry) (now : ℕ) (s : InmemLogStore Entry) (l : RaftLog Entry)
      → Represents s l
      → l.start ≤ index
      → index ≤ next l
      → index + 1 < 2 ^ 64
      → Represents (write_at n index e now s) (overwritten l index e)
  write_at-Represents index e now s l r lo hi room = record {
    logs_eq =
        (write_at_logs index e now s).0
        ∙ rw (make_clone_lem n e, r.logs_eq, erase_from-logs index l (omega (arith, r.positive)))
            (assign-behind l.dummy e l.start index kept r.positive (omega (arith, kept_length)));
    start_eq = (write_at_logs index e now s).1 ∙ r.start_eq;
    positive = r.positive;
    fits = omega (arith, length-append kept (e ∷ []), kept_length, room);
  }
    where
      kept : List Entry
      kept = take (index - l.start) l.entries

      kept_length : length kept ≡ index - l.start
      kept_length = omega (arith, length-take (index - l.start) l.entries)

module _ {E : Type 0} where
  erase-logs :
      (d : E) (k : ℕ) (xs : List E)
      → 0 < k
      → erase k ((0, d) ∷ number k xs) ≡ (0, d) ∷ number (suc k) (drop 1 xs)
  unfolding erase
  erase-logs d k xs h = ground (arith, erase-number k xs)

  drop-suc : (r : ℕ) (xs : List E) → drop r (drop 1 xs) ≡ drop (suc r) xs
  drop-suc zero [] = refl
  drop-suc (suc r) [] = refl
  drop-suc r (x ∷ xs) = refl

  erase_range-number :
      (d : E) (r k : ℕ) (xs : List E)
      → 0 < k
      → erase_range r k ((0, d) ∷ number k xs) ≡ (0, d) ∷ number (k + r) (drop r xs)
  unfolding erase_range
  erase_range-number d zero k xs h = let e : k + 0 ≡ k = omega arith in rw e
  erase_range-number d (suc r) k xs h =
      rw
        (
          erase-logs d k xs h,
          erase_range-number d r (suc k) (drop 1 xs) (omega arith),
          drop-suc r xs,
        )
        (let e : suc k + r ≡ k + suc r = omega arith in rw e)

  -- On a store that stands for a log, `compact` drops the entries up to an index below 2^64 - 1,
  -- past the end of the log too, and the log then starts behind that index, or where it started if
  -- that is later.
  pub compact-Represents :
      (last : ℕ) (s : InmemLogStore E) (l : RaftLog E)
      → Represents s l
      → last + 1 < 2 ^ 64
      → Represents (compact last s).1 (compacted l last)
  unfolding compact
  compact-Represents last s l r room = record {
    logs_eq =
        rw
          (
            r.start_eq,
            r.logs_eq,
            erase_range-number l.dummy (suc last - l.start) l.start l.entries r.positive,
          )
          (let e : l.start + (suc last - l.start) ≡ max l.start (last + 1) = omega arith in rw e);
    start_eq = ground (arith, r.start_eq, room);
    positive = omega (arith, r.positive);
    fits = omega (arith, length-drop (suc last - l.start) l.entries, r.fits, room);
  }
