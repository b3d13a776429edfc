-- ===== src/LogStore/Writeback.antt =====
-- Runs of the log store in which the disk is emulated and nothing is overwritten: calls of `append` and
-- `compact`, and rounds of the disk thread between them, in any order.
pub mod Effects
pub mod Kept
pub mod Bounds
pub mod Rewrites
use replicated_splinterdb.Base.{
  ℕ, zero, suc, max, ◌+◌, ◌-◌, ◌*◌, ◌^◌, ◌≤◌, ◌<◌, ◌≡◌, refl, sym, ap, ◌∙◌, Option, none, some,
  Bool, true, false, List, [], ◌∷◌, ◌++◌, length, length-append, length-drop, ltb, leb, ◌==◌,
  if◌then◌else◌, arith, Bool-cases, inl, inr, u64,
}
use replicated_splinterdb.Base.Map.{Map, assign}
use replicated_splinterdb.Nuraft.{Nuraft}
use replicated_splinterdb.LogStore.{
  InmemLogStore, append, compact, being_written, next_slot, new_log_store,
}
use replicated_splinterdb.LogStore.Disk.{disk_emul_round, set_disk_delay}
use replicated_splinterdb.LogStore.View.{RaftLog, Represents, next, next_slot-Represents}
use replicated_splinterdb.LogStore.Writes.{
  append-Represents, compact-Represents, compacted, appended,
}
use replicated_splinterdb.LogStore.Durability.{
  last_noted, IsSplit, IsRound, disk_emul_round-IsRound,
}
use replicated_splinterdb.LogStore.Notes.{
  IsQueue, DueBy, last_noted-ge, last_noted-append, IsQueue-rest, DueBy-rest, DueBy-weaken, IsNoted,
  assign-IsNoted, all_due,
}

-- A store and the time of the last call on it, in microseconds.
pub record Timed (E : Type 0) : Type 0 where
  pub store : InmemLogStore E
  pub clock : ℕ

module _ (n : Nuraft) (delay_ms : ℕ) where
  open n use {Entry}

  -- The time of day does not go back, and neither an index nor a time uses up its 64 bits.
  pub data Turn (c : Timed Entry) : Timed Entry → Type 0 where
    appends :
        (e : Entry) (now : ℕ)
        → c.clock ≤ now
        → now + delay_ms * 1000 < 2 ^ 64
        → next_slot c.store + 1 < 2 ^ 64
        → Turn c (record { store = (append n e now c.store).1; clock = now })
    compacts :
        (last : ℕ)
        → last < next_slot c.store
        → Turn c (record { store = (compact last c.store).1; clock = c.clock })
    wakes :
        (now : ℕ)
        → c.clock ≤ now
        → Turn c (record { store = (disk_emul_round now c.store).store; clock = now })

  pub data Turns (c : Timed Entry) : Timed Entry → Type 0 where
    here : Turns c c
    after : {d e : Timed Entry} → Turns c d → Turn d e → Turns c e

  -- A store with the delay set and its thread running, all of whose entries are durable or noted, in
  -- order, from index `lowest` on: the last note is of the last index.
  pub record Writes (lowest : ℕ) (c : Timed Entry) : Type 0 where
    pub log : RaftLog Entry
    pub represents : Represents c.store log
    pub delayed : c.store.disk_emul_delay ≡ delay_ms
    pub live : c.store.disk_emul_thread_stop_signal ≡ false
    pub below : lowest ≤ c.store.disk_emul_last_durable_index
    pub queue : IsQueue lowest c.store.disk_emul_logs_being_written
    pub in_time : DueBy (c.clock + delay_ms * 1000) c.store.disk_emul_logs_being_written
    pub latest :
        suc (last_noted c.store.disk_emul_last_durable_index c.store.disk_emul_logs_being_written)
        ≡ next log

  -- No note is of an index below the durable one.
  abbrev pub Inv : Timed Entry → Type 0
  Inv c = Writes c.store.disk_emul_last_durable_index c

  -- A new store after `set_disk_delay`.
  abbrev pub emulated : ℕ → ℕ → Timed Entry
  emulated raft clock = record {
    store = set_disk_delay raft delay_ms (new_log_store n);
    clock = clock;
  }
