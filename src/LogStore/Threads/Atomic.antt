-- ===== src/LogStore/Threads/Atomic.antt =====
-- A read of a range beside calls that leave the range alone.
use replicated_splinterdb.Base.{
  ℕ, zero, suc, ◌+◌, ◌-◌, ◌≤◌, ◌<◌, ◌≡◌, refl, sym, ap, fun_ext, ◌∙◌, List, [], ℤ, is_negative, u64,
  if◌then◌else◌, ok, bind, length, get_elem?-below, le→ltb_false, arith,
}
use replicated_splinterdb.Base.Numbered.{at}
use replicated_splinterdb.Nuraft.{Nuraft}
use replicated_splinterdb.LogStore.{
  InmemLogStore, find_or_dummy, clone_range, log_entries, batch, log_entries_ext,
}
use replicated_splinterdb.LogStore.View.{
  RaftLog, Represents, next, entry_or_dummy, find_or_dummy-Represents,
}
use replicated_splinterdb.LogStore.Reads.{value_or}
use replicated_splinterdb.LogStore.Reach.{Step, after_step, Step-Represents}
use replicated_splinterdb.LogStore.Untouched.{IsKept, Spares, Step-IsKept}
use replicated_splinterdb.LogStore.Threads.{
  clone_each, log_entries_each, batch_each, log_entries_ext_each,
}

module _ {E : Type 0} where
  at_or_dummy :
      (d e : E) (i k : ℕ) (xs : List E)
      → k ≤ i
      → i < k + length xs
      → value_or e (at i k xs) ≡ value_or d (at i k xs)
  at_or_dummy d e i k xs lo hi =
      let (x, found) = get_elem?-below xs (i - k) (omega arith) in
      rw (le→ltb_false i k lo, found) refl

  -- An entry that is kept is found, whatever the dummy entries are.
  entry_or_dummy-IsKept :
      (l m : RaftLog E) (i : ℕ)
      → l.start ≤ i
      → i < next l
      → IsKept l m i
      → entry_or_dummy m i ≡ entry_or_dummy l i
  entry_or_dummy-IsKept l m i lo hi k =
      ap (value_or m.dummy) k.same ∙ at_or_dummy l.dummy m.dummy i l.start l.entries lo hi

module _ (n : Nuraft) where
  open n use {Entry}

  -- Calls of other threads that leave the indices from `a` up to `b` alone.
  pub data Others (a b : ℕ) (s : InmemLogStore Entry) : InmemLogStore Entry → Type 0 where
    quiet : Others a b s s
    beside :
        {t u : InmemLogStore Entry}
        → Others a b s t
        → (st : Step n t u) → ((i : ℕ) → a ≤ i → i < b → Spares n st i)
        → Others a b s u

  -- What the store stands for after such calls.
  pub record IsSpared (a b : ℕ) (l : RaftLog Entry) (t : InmemLogStore Entry) : Type 0 where
    pub log : RaftLog Entry
    pub represents : Represents t log
    pub kept : (i : ℕ) → a ≤ i → i < b → IsKept l log i

  pub Others-IsSpared :
      (a b : ℕ) (l : RaftLog Entry) {s t : InmemLogStore Entry}
      → Represents s l
      → l.start ≤ a
      → b ≤ next l
      → Others a b s t
      → IsSpared a b l t
  Others-IsSpared a b l v lo hi quiet = record {
    log = l;
    represents = v;
    kept = λ i p q. record { above = omega arith; below = omega arith; same = refl };
  }
  Others-IsSpared a b l v lo hi (beside r st spares) =
      let before = Others-IsSpared a b l v lo hi r in
      record {
        log = after_step n st before.log;
        represents = Step-Represents n st before.log before.represents;
        kept = λ i p q.
            let old = before.kept i p q in
            let new =
              Step-IsKept n st before.log i before.represents old.above old.below (spares i p q) in
            record { above = new.above; below = new.below; same = new.same ∙ old.same };
      }

  module _ (a b : ℕ) {s : InmemLogStore Entry} {l : RaftLog Entry} (v : Represents s l)
      (lo : l.start ≤ a) (hi : b ≤ next l) (seen : ℕ → InmemLogStore Entry)
      (others : (i : ℕ) → a ≤ i → i < b → Others a b s (seen i)) where
    read_same : (i : ℕ) → a ≤ i → i < b → find_or_dummy i (seen i).logs ≡ find_or_dummy i s.logs
    read_same i p q =
        let spared = Others-IsSpared a b l v lo hi (others i p q) in
        find_or_dummy-Represents i spared.represents
        ∙ ap ok
            (entry_or_dummy-IsKept l spared.log i (omega arith) (omega arith) (spared.kept i p q))
        ∙ sym (find_or_dummy-Represents i v)

    clone_each_lem :
        (r ii : ℕ) → a ≤ ii → ii + r ≤ b → clone_each n r ii seen ≡ clone_range n r ii s.logs
    unfolding clone_each clone_range
    clone_each_lem zero ii p q = refl
    clone_each_lem (suc r) ii p q =
        rw (read_same ii p (omega arith), clone_each_lem r (suc ii) (omega arith) (omega arith))

    batch_each_lem :
        (hint : ℤ) (r ii accum : ℕ)
        → a ≤ ii
        → ii + r ≤ b
        → batch_each n hint r ii accum seen ≡ batch n hint r ii accum s.logs
    unfolding batch_each batch
    batch_each_lem hint zero ii accum p q = refl
    batch_each_lem hint (suc r) ii accum p q = rw (read_same ii p (omega arith)) (
        ap (bind (find_or_dummy ii s.logs)) (
          fun_ext λ src.
            rw
              (batch_each_lem hint r (suc ii) (u64 (accum + n.size (n.get_buf src))) (omega arith)
                (omega arith))
              refl))

    -- On a store that stands for a log, for a range within the log: if the calls of other threads
    -- that come between the reads leave the range alone (they append, write behind it, compact
    -- before it, flush, or are the disk emulation's), `log_entries` and `log_entries_ext`, which
    -- take the lock for each entry, return what they would return had they held it throughout from
    -- the start.
    pub log_entries_atomic :
        (hint : ℤ)
        → a ≤ b
        → (log_entries_each n a b seen ≡ log_entries n a b s)
          × (log_entries_ext_each n a b hint seen ≡ log_entries_ext n a b hint s)
    unfolding log_entries_each log_entries log_entries_ext_each log_entries_ext
    log_entries_atomic hint mid = (
      rw (le→ltb_false b a mid) (clone_each_lem (b - a) a (omega arith) (omega arith)),
      ap (λ r. if is_negative hint then ok [] else r)
          (batch_each_lem hint (b - a) a 0 (omega arith) (omega arith)),
    )
