-- ===== src/LogStore/Reach.antt =====
-- The stores that the calls of the Raft library can bring about, one call at a time.
use replicated_splinterdb.Base.{ℕ, ◌+◌, ◌^◌, ◌≤◌, ◌<◌, ◌≡◌, refl, List, [], length, ◌∙◌, arith}
use replicated_splinterdb.Nuraft.{Nuraft}
use replicated_splinterdb.LogStore.{
  InmemLogStore, new_log_store, next_slot, append, write_at, compact,
}
use replicated_splinterdb.LogStore.Pack.{apply_pack}
use replicated_splinterdb.LogStore.Disk.{flush, set_disk_delay, disk_emul_round, destroy}
use replicated_splinterdb.LogStore.View.{RaftLog, Represents, next_slot-Represents}
use replicated_splinterdb.LogStore.Packed.{packed}
use replicated_splinterdb.LogStore.Transfer.{received, receive-Represents}
use replicated_splinterdb.LogStore.Writes.{
  appended, overwritten, compacted, append-Represents, write_at-Represents, compact-Represents,
}

module _ (n : Nuraft) where
  open n use {Entry}

  -- A call, with what the Raft library sees to before it makes it: it writes at an index of the log
  -- or right behind it, and does not use up the 64 bits of an index.
  pub data Step (s : InmemLogStore Entry) : InmemLogStore Entry → Type 0 where
    appends : (e : Entry) (now : ℕ) → next_slot s + 1 < 2 ^ 64 → Step s (append n e now s).1
    writes :
        (index : ℕ) (e : Entry) (now : ℕ)
        → s.start_idx ≤ index
        → index ≤ next_slot s
        → index + 1 < 2 ^ 64
        → Step s (write_at n index e now s)
    receives :
        (index : ℕ) (es : List Entry)
        → s.start_idx ≤ index
        → index ≤ next_slot s
        → 0 < length es
        → index + length es < 2 ^ 64
        → Step s (apply_pack n index (packed n es) s).1
    compacts : (last : ℕ) → last + 1 < 2 ^ 64 → Step s (compact last s).1
    flushes : Step s (flush s).1
    delays : (raft delay_ms : ℕ) → Step s (set_disk_delay raft delay_ms s)
    wakes : (cur_time : ℕ) → Step s (disk_emul_round cur_time s).store
    stops : Step s (destroy s)

  pub data Reach (s : InmemLogStore Entry) : InmemLogStore Entry → Type 0 where
    here : Reach s s
    after : {t u : InmemLogStore Entry} → Reach s t → Step t u → Reach s u

  pub new_log_store-Represents :
      Represents
        (new_log_store n)
        (record { dummy = n.default_entry 0 (n.alloc 8); start = 1; entries = [] })
  unfolding new_log_store
  new_log_store-Represents = record {
    logs_eq = refl;
    start_eq = refl;
    positive = omega arith;
    fits = omega arith;
  }

  destroy_logs :
      (s : InmemLogStore Entry)
      → ((destroy s).logs ≡ s.logs) × ((destroy s).start_idx ≡ s.start_idx)
  unfolding destroy
  destroy_logs s = ground arith

  flush_logs :
      (s : InmemLogStore Entry)
      → ((flush s).1.logs ≡ s.logs) × ((flush s).1.start_idx ≡ s.start_idx)
  unfolding flush
  flush_logs s = (refl, refl)

  delay_logs :
      (raft ms : ℕ) (s : InmemLogStore Entry)
      → ((set_disk_delay raft ms s).logs ≡ s.logs)
        × ((set_disk_delay raft ms s).start_idx ≡ s.start_idx)
  unfolding set_disk_delay
  delay_logs raft ms s = (refl, refl)

  round_logs :
      (t : ℕ) (s : InmemLogStore Entry)
      → ((disk_emul_round t s).store.logs ≡ s.logs)
        × ((disk_emul_round t s).store.start_idx ≡ s.start_idx)
  unfolding disk_emul_round
  round_logs t s = ground arith

  -- A change of other fields.
  same_logs :
      {s t : InmemLogStore Entry} {l : RaftLog Entry}
      → t.logs ≡ s.logs
      → t.start_idx ≡ s.start_idx
      → Represents s l
      → Represents t l
  same_logs p q v = record {
    logs_eq = p ∙ v.logs_eq;
    start_eq = q ∙ v.start_eq;
    positive = v.positive;
    fits = v.fits;
  }

  -- What a call makes of the log that the store stands for.
  abbrev pub after_step : {s t : InmemLogStore Entry} → Step s t → RaftLog Entry → RaftLog Entry
  after_step (appends e now room) l = appended l e
  after_step (writes index e now lo hi room) l = overwritten l index e
  after_step (receives index es lo hi some_entry room) l = received n l index es
  after_step (compacts last room) l = compacted l last
  after_step flushes l = l
  after_step (delays raft ms) l = l
  after_step (wakes t) l = l
  after_step stops l = l

  pub Step-Represents :
      {s t : InmemLogStore Entry} (st : Step s t) (l : RaftLog Entry)
      → Represents s l
      → Represents t (after_step st l)
  Step-Represents {s} (appends e now room) l v =
      (append-Represents n e now s l v (omega (arith, next_slot-Represents v))).1
  Step-Represents {s} (writes index e now lo hi room) l v =
      write_at-Represents n index e now s l v (omega (arith, v.start_eq))
        (omega (arith, next_slot-Represents v)) room
  Step-Represents {s} (receives index es lo hi some_entry room) l v =
      receive-Represents n es index s l v (omega (arith, v.start_eq))
        (omega (arith, next_slot-Represents v)) some_entry room
  Step-Represents {s} (compacts last room) l v = compact-Represents last s l v room
  Step-Represents {s} flushes l v = same_logs (flush_logs s).0 (flush_logs s).1 v
  Step-Represents {s} (delays raft ms) l v =
      same_logs (delay_logs raft ms s).0 (delay_logs raft ms s).1 v
  Step-Represents {s} (wakes t) l v = same_logs (round_logs t s).0 (round_logs t s).1 v
  Step-Represents {s} stops l v = same_logs (destroy_logs s).0 (destroy_logs s).1 v

  -- Whatever calls have led from a new store to this one, made within the log and below 2^64, it
  -- holds a dummy entry and a run of consecutive entries from its start index on.
  pub Reach-Represents :
      (s : InmemLogStore Entry) → Reach (new_log_store n) s → (l : RaftLog Entry) × Represents s l
  Reach-Represents s here = (_, new_log_store-Represents)
  Reach-Represents s (after r st) =
      let (l, v) = Reach-Represents _ r in (after_step st l, Step-Represents st l v)
