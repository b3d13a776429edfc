-- ===== src/LogStore/Writeback/Kept.antt =====
-- The invariant over the turns, one kind at a time, and at a new store.
use replicated_splinterdb.Base.{
  ℕ, suc, ◌+◌, ◌-◌, ◌*◌, ◌^◌, ◌≤◌, ◌<◌, ◌≡◌, refl, ◌∙◌, [], ◌∷◌, ◌++◌, length-append, length-drop,
  arith, u64,
}
use replicated_splinterdb.Nuraft.{Nuraft}
use replicated_splinterdb.LogStore.{append, compact, next_slot, new_log_store}
use replicated_splinterdb.LogStore.Disk.{disk_emul_round, set_disk_delay}
use replicated_splinterdb.LogStore.View.{next_slot-Represents}
use replicated_splinterdb.LogStore.Writes.{
  append-Represents, compact-Represents, compacted, appended,
}
use replicated_splinterdb.LogStore.Durability.{last_noted, disk_emul_round-IsRound}
use replicated_splinterdb.LogStore.Notes.{
  last_noted-append, last_noted_mono, IsQueue-rest, DueBy-rest, DueBy-weaken, assign-IsNoted,
}
use replicated_splinterdb.LogStore.Writeback.{
  Timed, Turn, appends, compacts, wakes, Turns, here, after, Writes, Inv, emulated,
}
use replicated_splinterdb.LogStore.Writeback.Effects.{
  append_disk, compact_disk, round_rest, round-Represents,
}

module _ (n : Nuraft) (delay_ms : ℕ) where
  open n use {Entry}

  pub appends-Writes :
      (lowest : ℕ) (e : Entry) (now : ℕ) (c : Timed Entry)
      → 0 < delay_ms
      → c.clock ≤ now
      → now + delay_ms * 1000 < 2 ^ 64
      → next_slot c.store + 1 < 2 ^ 64
      → Writes n delay_ms lowest c
      → Writes n delay_ms lowest (record { store = (append n e now c.store).1; clock = now })
  appends-Writes lowest e now c h later fits room inv =
      let s = c.store in
      let disk = append_disk n delay_ms e now s h inv.delayed in
      let slot = next_slot-Represents inv.represents in
      let key : u64 (now + delay_ms * 1000) ≡ now + delay_ms * 1000 = omega arith in
      let one =
        assign-IsNoted lowest (now + delay_ms * 1000) (next_slot s) s.disk_emul_logs_being_written
          inv.queue
          (DueBy-weaken (c.clock + delay_ms * 1000) (now + delay_ms * 1000) _ (omega arith)
            inv.in_time)
          (omega (
            arith,
            inv.latest,
            slot,
            inv.below,
            last_noted_mono lowest s.disk_emul_last_durable_index s.disk_emul_logs_being_written
                inv.below,
          )) in
      record {
        log = appended inv.log e;
        represents = (append-Represents n e now s inv.log inv.represents (omega (arith, slot))).1;
        delayed = disk.0 ∙ inv.delayed;
        live = disk.1 ∙ inv.live;
        below = omega (arith, disk.2, inv.below);
        queue = rw (disk.3, key) one.queue;
        in_time = rw (disk.3, key) one.in_time;
        latest =
            rw (disk.2, disk.3, key, one.latest s.disk_emul_last_durable_index)
              (omega (arith, slot, length-append inv.log.entries (e ∷ [])));
      }

  pub compacts-Writes :
      (lowest last : ℕ) (c : Timed Entry)
      → last < next_slot c.store
      → Writes n delay_ms lowest c
      → Writes n delay_ms lowest (record { store = (compact last c.store).1; clock = c.clock })
  compacts-Writes lowest last c within inv =
      let slot = next_slot-Represents inv.represents in
      let disk = compact_disk n delay_ms last c.store in
      record {
        log = compacted inv.log last;
        represents =
            compact-Represents last c.store inv.log inv.represents
              (omega (arith, slot, inv.represents.fits));
        delayed = disk.0 ∙ inv.delayed;
        live = disk.1 ∙ inv.live;
        below = omega (arith, disk.2, inv.below);
        queue = rw disk.3 inv.queue;
        in_time = rw disk.3 inv.in_time;
        latest =
            rw (disk.2, disk.3)
              (omega
                (arith, inv.latest, slot, length-drop (suc last - inv.log.start) inv.log.entries));
      }

  pub wakes-Writes :
      (lowest now : ℕ) (c : Timed Entry)
      → c.clock ≤ now
      → (inv : Writes n delay_ms lowest c)
      → Writes n delay_ms
          (last_noted lowest (disk_emul_round-IsRound now c.store inv.live).due)
          (record { store = (disk_emul_round now c.store).store; clock = now })
  wakes-Writes lowest now c later inv =
      let s = c.store in
      let rest = round_rest n delay_ms now s in
      let round = disk_emul_round-IsRound now s inv.live in
      let waiting = (disk_emul_round now s).store.disk_emul_logs_being_written in
      let split : s.disk_emul_logs_being_written ≡ round.due ++ waiting = round.is_split.in_order in
      record {
        log = inv.log;
        represents = round-Represents n delay_ms now s inv.log inv.represents;
        delayed = rest.0 ∙ inv.delayed;
        live = rest.1 ∙ inv.live;
        below = omega (
          arith,
          round.durable,
          last_noted_mono lowest s.disk_emul_last_durable_index round.due inv.below,
        );
        queue = (IsQueue-rest lowest round.due waiting (rw split at inv.queue)).0;
        in_time =
            DueBy-weaken (c.clock + delay_ms * 1000) (now + delay_ms * 1000) waiting (omega arith)
              (DueBy-rest (c.clock + delay_ms * 1000) round.due waiting (rw split at inv.in_time));
        latest =
            rw
              (
                round.durable,
                ← last_noted-append s.disk_emul_last_durable_index round.due waiting,
                ← split,
              )
              inv.latest;
      }

  pub Turn-Inv :
      {c d : Timed Entry} → 0 < delay_ms → Turn n delay_ms c d → Inv n delay_ms c → Inv n delay_ms d
  Turn-Inv {c} h (appends e now later fits room) inv =
      rw (append_disk n delay_ms e now c.store h inv.delayed).2
        (appends-Writes c.store.disk_emul_last_durable_index e now c h later fits room inv)
  Turn-Inv {c} h (compacts last within) inv =
      rw (compact_disk n delay_ms last c.store).2
        (compacts-Writes c.store.disk_emul_last_durable_index last c within inv)
  Turn-Inv {c} h (wakes now later) inv =
      rw (disk_emul_round-IsRound now c.store inv.live).durable
        (wakes-Writes c.store.disk_emul_last_durable_index now c later inv)

  pub Turns-Inv :
      {c d : Timed Entry}
      → 0 < delay_ms
      → Inv n delay_ms c
      → Turns n delay_ms c d
      → Inv n delay_ms d
  Turns-Inv h inv here = inv
  Turns-Inv h inv (after r t) = Turn-Inv h t (Turns-Inv h inv r)

  pub emulated-Inv : (raft clock : ℕ) → Inv n delay_ms (emulated n delay_ms raft clock)
  unfolding set_disk_delay new_log_store
  emulated-Inv raft clock = record {
    log = record { dummy = n.default_entry 0 (n.alloc 8); start = 1; entries = [] };
    represents = record {
      logs_eq = refl;
      start_eq = refl;
      positive = omega arith;
      fits = omega arith;
    };
    delayed = refl;
    live = refl;
    below = omega arith;
    queue = tt;
    in_time = tt;
    latest = refl;
  }
