-- ===== src/LogStore/Writeback/Rewrites.antt =====
-- Runs in which `write_at` overwrites entries as well, durable ones too.
use replicated_splinterdb.Base.{
  ℕ, suc, ◌+◌, ◌-◌, ◌*◌, ◌^◌, ◌≤◌, ◌<◌, ◌≡◌, ◌∙◌, [], ◌∷◌, length-append, length-take, take, u64,
  arith,
}
use replicated_splinterdb.Nuraft.{Nuraft}
use replicated_splinterdb.LogStore.{write_at, next_slot}
use replicated_splinterdb.LogStore.Disk.{disk_emul_round, last_durable_index}
use replicated_splinterdb.LogStore.View.{next_slot-Represents}
use replicated_splinterdb.LogStore.Writes.{overwritten, write_at-Represents}
use replicated_splinterdb.LogStore.Notes.{IsQueue-weaken, DueBy-weaken}
use replicated_splinterdb.LogStore.Notes.Cut.{cut-IsNoted}
use replicated_splinterdb.LogStore.Writeback.{
  Timed, Turn, appends, compacts, wakes, Writes, emulated,
}
use replicated_splinterdb.LogStore.Writeback.Effects.{write_disk}
use replicated_splinterdb.LogStore.Writeback.Kept.{
  appends-Writes, compacts-Writes, wakes-Writes, emulated-Inv,
}
use replicated_splinterdb.LogStore.Writeback.Bounds.{late_round}

module _ (n : Nuraft) (delay_ms : ℕ) where
  open n use {Entry}

  -- A turn, or a `write_at` at an index of the log or right behind it.
  pub data Rewrite (c : Timed Entry) : Timed Entry → Type 0 where
    turns : {d : Timed Entry} → Turn n delay_ms c d → Rewrite c d
    writes :
        (index : ℕ) (e : Entry) (now : ℕ)
        → c.clock ≤ now
        → now + delay_ms * 1000 < 2 ^ 64
        → c.store.start_idx ≤ index
        → index ≤ next_slot c.store
        → index + 1 < 2 ^ 64
        → Rewrite c (record { store = write_at n index e now c.store; clock = now })

  pub data Rewrites (c : Timed Entry) : Timed Entry → Type 0 where
    here : Rewrites c c
    after : {d e : Timed Entry} → Rewrites c d → Rewrite d e → Rewrites c e

  write_at-Writes :
      (index : ℕ) (e : Entry) (now : ℕ) (c : Timed Entry)
      → 0 < delay_ms
      → c.clock ≤ now
      → now + delay_ms * 1000 < 2 ^ 64
      → c.store.start_idx ≤ index
      → index ≤ next_slot c.store
      → index + 1 < 2 ^ 64
      → Writes n delay_ms 0 c
      → Writes n delay_ms 0 (record { store = write_at n index e now c.store; clock = now })
  write_at-Writes index e now c h later fits lo hi room inv =
      let s = c.store in
      let disk = write_disk n delay_ms index e now s h inv.delayed in
      let start = inv.represents.start_eq in
      let slot = next_slot-Represents inv.represents in
      let key : u64 (now + delay_ms * 1000) ≡ now + delay_ms * 1000 = omega arith in
      let cut =
        cut-IsNoted 0 (now + delay_ms * 1000) index s.disk_emul_logs_being_written inv.queue
          (DueBy-weaken (c.clock + delay_ms * 1000) (now + delay_ms * 1000) _ (omega arith)
            inv.in_time)
          (omega arith) in
      record {
        log = overwritten inv.log index e;
        represents =
            write_at-Represents n index e now s inv.log inv.represents (omega (arith, start))
              (omega (arith, slot)) room;
        delayed = disk.0 ∙ inv.delayed;
        live = disk.1 ∙ inv.live;
        below = omega arith;
        queue = rw (disk.3, key) cut.queue;
        in_time = rw (disk.3, key) cut.in_time;
        latest =
            rw (disk.2, disk.3, key, cut.latest s.disk_emul_last_durable_index)
              (omega (
                arith,
                start,
                slot,
                length-append (take (index - inv.log.start) inv.log.entries) (e ∷ []),
                length-take (index - inv.log.start) inv.log.entries,
              ));
      }

  Writes-weaken :
      (lowest : ℕ) (c : Timed Entry) → Writes n delay_ms lowest c → Writes n delay_ms 0 c
  Writes-weaken lowest c inv = record {
    log = inv.log;
    represents = inv.represents;
    delayed = inv.delayed;
    live = inv.live;
    below = omega arith;
    queue = IsQueue-weaken 0 lowest _ (omega arith) inv.queue;
    in_time = inv.in_time;
    latest = inv.latest;
  }

  Rewrite-Writes :
      {c d : Timed Entry}
      → 0 < delay_ms
      → Rewrite c d
      → Writes n delay_ms 0 c
      → Writes n delay_ms 0 d
  Rewrite-Writes {c} h (turns (appends e now later fits room)) inv =
      appends-Writes n delay_ms 0 e now c h later fits room inv
  Rewrite-Writes {c} h (turns (compacts last within)) inv =
      compacts-Writes n delay_ms 0 last c within inv
  Rewrite-Writes {c} h (turns (wakes now later)) inv =
      Writes-weaken _ _ (wakes-Writes n delay_ms 0 now c later inv)
  Rewrite-Writes {c} h (writes index e now later fits lo hi room) inv =
      write_at-Writes index e now c h later fits lo hi room inv

  Rewrite_at-Writes :
      {c d : Timed Entry}
      → 0 < delay_ms
      → Writes n delay_ms 0 c
      → Rewrites c d
      → Writes n delay_ms 0 d
  Rewrite_at-Writes h inv here = inv
  Rewrite_at-Writes h inv (after r st) = Rewrite-Writes h st (Rewrite_at-Writes h inv r)

  -- After every run from a new store with a positive disk delay set, of `append`, of `write_at` at
  -- an index of the log or right behind it, of `compact` below the next slot and of rounds of the
  -- disk thread, in any order, at times that do not decrease and with times and indices below 2^64:
  -- a round of the disk thread that begins at least the delay after the time of the last turn makes
  -- the durable index the last index of the store, and no note is left.
  pub durable_after_rewrites :
      (raft clock : ℕ) (d : Timed Entry) (now : ℕ)
      → 0 < delay_ms
      → Rewrites (emulated n delay_ms raft clock) d
      → d.clock + delay_ms * 1000 ≤ now
      → let t = (disk_emul_round now d.store).store in
        (suc (last_durable_index t) ≡ next_slot t) × (t.disk_emul_logs_being_written ≡ [])
  durable_after_rewrites raft clock d now h run late =
      late_round n delay_ms 0 d now h
        (Rewrite_at-Writes h
          (Writes-weaken _ (emulated n delay_ms raft clock) (emulated-Inv n delay_ms raft clock))
          run)
        late
