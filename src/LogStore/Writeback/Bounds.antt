-- ===== src/LogStore/Writeback/Bounds.antt =====
-- How far the durable index lags behind the log.
use replicated_splinterdb.Base.{
  ℕ, suc, ◌+◌, ◌-◌, ◌*◌, ◌≤◌, ◌<◌, ◌≡◌, ap, false, [], ◌∷◌, length-append, length-drop, ◌==◌, arith,
}
use replicated_splinterdb.Nuraft.{Nuraft}
use replicated_splinterdb.LogStore.{InmemLogStore, next_slot}
use replicated_splinterdb.LogStore.Disk.{disk_emul_round, last_durable_index}
use replicated_splinterdb.LogStore.View.{next_slot-Represents}
use replicated_splinterdb.LogStore.Writes.{append-Represents, compact-Represents}
use replicated_splinterdb.LogStore.Durability.{last_noted, disk_emul_round-IsRound}
use replicated_splinterdb.LogStore.Notes.{last_noted-ge, IsQueue-rest, DueBy-weaken, all_due}
use replicated_splinterdb.LogStore.Writeback.{
  Timed, Turn, appends, compacts, wakes, Turns, Writes, Inv, emulated,
}
use replicated_splinterdb.LogStore.Writeback.Effects.{append_disk, compact_disk, round-Represents}
use replicated_splinterdb.LogStore.Writeback.Kept.{emulated-Inv, Turn-Inv, Turns-Inv, wakes-Writes}

module _ (n : Nuraft) (delay_ms : ℕ) where
  open n use {Entry}

  pub last_durable_delayed :
      (s : InmemLogStore Entry)
      → 0 < delay_ms
      → s.disk_emul_delay ≡ delay_ms
      → last_durable_index s ≡ s.disk_emul_last_durable_index
  unfolding last_durable_index
  last_durable_delayed s h same = let on : (s.disk_emul_delay == 0) ≡ false = ground arith in rw on

  -- No turn lowers the durable index or the next slot.
  Turn-grows :
      {c d : Timed Entry}
      → Turn n delay_ms c d
      → 0 < delay_ms
      → Inv n delay_ms c
      → (c.store.disk_emul_last_durable_index ≤ d.store.disk_emul_last_durable_index)
        × (next_slot c.store ≤ next_slot d.store)
  Turn-grows {c} (appends e now later fits room) h inv =
      let slot = next_slot-Represents inv.represents in
      let stored =
        (append-Represents n e now c.store inv.log inv.represents (omega (arith, slot))).1 in
      (
        omega (arith, (append_disk n delay_ms e now c.store h inv.delayed).2),
        omega (arith, slot, next_slot-Represents stored, length-append inv.log.entries (e ∷ [])),
      )
  Turn-grows {c} (compacts last within) h inv =
      let slot = next_slot-Represents inv.represents in
      let kept =
        compact-Represents last c.store inv.log inv.represents
          (omega (arith, slot, inv.represents.fits)) in
      (
        omega (arith, (compact_disk n delay_ms last c.store).2),
        omega (
          arith,
          slot,
          next_slot-Represents kept,
          length-drop (suc last - inv.log.start) inv.log.entries,
        ),
      )
  Turn-grows {c} (wakes now later) h inv =
      let round = disk_emul_round-IsRound now c.store inv.live in
      (
        omega (
          arith,
          round.durable,
          (IsQueue-rest _ round.due _ (rw round.is_split.in_order at inv.queue)).1,
        ),
        omega (
          arith,
          next_slot-Represents inv.represents,
          next_slot-Represents (round-Represents n delay_ms now c.store inv.log inv.represents),
        ),
      )

  -- In every run from a new store with a positive disk delay set, of `append`, of `compact` below
  -- the next slot and of rounds of the disk thread, in any order, at times that do not decrease and
  -- with times and indices below 2^64: the durable index is below the next slot, and one more such
  -- turn lowers neither the durable index nor the next slot.
  pub last_durable_index_bounds :
      (raft clock : ℕ) (d e : Timed Entry)
      → 0 < delay_ms
      → Turns n delay_ms (emulated n delay_ms raft clock) d
      → Turn n delay_ms d e
      → (last_durable_index d.store < next_slot d.store)
        × (last_durable_index d.store ≤ last_durable_index e.store)
        × (next_slot d.store ≤ next_slot e.store)
  last_durable_index_bounds raft clock d e h run step =
      let now = Turns-Inv n delay_ms h (emulated-Inv n delay_ms raft clock) run in
      let then_inv = Turn-Inv n delay_ms h step now in
      let moved = Turn-grows step h now in
      (
        omega (
          arith,
          last_durable_delayed d.store h now.delayed,
          next_slot-Represents now.represents,
          now.latest,
          last_noted-ge _ _ now.queue,
        ),
        omega (
          arith,
          last_durable_delayed d.store h now.delayed,
          last_durable_delayed e.store h then_inv.delayed,
          moved.0,
        ),
        moved.1,
      )

  -- A round that begins at least the delay after the last call.
  pub late_round :
      (lowest : ℕ) (d : Timed Entry) (now : ℕ)
      → 0 < delay_ms
      → Writes n delay_ms lowest d
      → d.clock + delay_ms * 1000 ≤ now
      → let t = (disk_emul_round now d.store).store in
        (suc (last_durable_index t) ≡ next_slot t) × (t.disk_emul_logs_being_written ≡ [])
  late_round lowest d now h before late =
      let then_inv = wakes-Writes n delay_ms lowest now d (omega arith) before in
      let round = disk_emul_round-IsRound now d.store before.live in
      let t = (disk_emul_round now d.store).store in
      let none_left = all_due now round.due t.disk_emul_logs_being_written round.is_split.to_come (
        DueBy-weaken (d.clock + delay_ms * 1000) now _ late
          (rw round.is_split.in_order at before.in_time)) in
      (
        omega (
          arith,
          last_durable_delayed t h then_inv.delayed,
          next_slot-Represents then_inv.represents,
          then_inv.latest,
          ap (last_noted t.disk_emul_last_durable_index) none_left,
        ),
        none_left,
      )

  -- After every run from a new store with a positive disk delay set, of `append`, of `compact`
  -- below the next slot and of rounds of the disk thread, in any order, at times that do not
  -- decrease and with times and indices below 2^64: a round of the disk thread that begins at least
  -- the delay after the time of the last turn makes the durable index the last index of the store,
  -- and no note is left.
  pub durable_after_delay :
      (raft clock : ℕ) (d : Timed Entry) (now : ℕ)
      → 0 < delay_ms
      → Turns n delay_ms (emulated n delay_ms raft clock) d
      → d.clock + delay_ms * 1000 ≤ now
      → let t = (disk_emul_round now d.store).store in
        (suc (last_durable_index t) ≡ next_slot t) × (t.disk_emul_logs_being_written ≡ [])
  durable_after_delay raft clock d now h run late =
      late_round d.store.disk_emul_last_durable_index d now h
        (Turns-Inv n delay_ms h (emulated-Inv n delay_ms raft clock) run) late
