-- ===== src/LogStore/Writeback/Effects.antt =====
-- What the turns do to the fields of the emulated disk.
use replicated_splinterdb.Base.{ℕ, ◌+◌, ◌*◌, ◌<◌, ◌≡◌, refl, ◌∙◌, false, ◌==◌, arith, u64}
use replicated_splinterdb.Base.Map.{assign}
use replicated_splinterdb.Nuraft.{Nuraft}
use replicated_splinterdb.LogStore.{
  InmemLogStore, append, write_at, keep_up_to, compact, being_written, next_slot,
}
use replicated_splinterdb.LogStore.Disk.{disk_emul_round}
use replicated_splinterdb.LogStore.View.{RaftLog, Represents}

module _ (n : Nuraft) (delay_ms : ℕ) where
  open n use {Entry}

  pub append_disk :
      (e : Entry) (now : ℕ) (s : InmemLogStore Entry)
      → 0 < delay_ms
      → s.disk_emul_delay ≡ delay_ms
      → let t = (append n e now s).1 in
        (t.disk_emul_delay ≡ s.disk_emul_delay)
        × (t.disk_emul_thread_stop_signal ≡ s.disk_emul_thread_stop_signal)
        × (t.disk_emul_last_durable_index ≡ s.disk_emul_last_durable_index)
        × (t.disk_emul_logs_being_written
            ≡ assign (u64 (now + delay_ms * 1000)) (next_slot s) s.disk_emul_logs_being_written)
  unfolding append being_written
  append_disk e now s h same =
      let on : (s.disk_emul_delay == 0) ≡ false = ground arith in
      rw (on, same) (refl, refl, refl, refl)

  pub write_disk :
      (index : ℕ) (e : Entry) (now : ℕ) (s : InmemLogStore Entry)
      → 0 < delay_ms
      → s.disk_emul_delay ≡ delay_ms
      → let t = write_at n index e now s in
        (t.disk_emul_delay ≡ s.disk_emul_delay)
        × (t.disk_emul_thread_stop_signal ≡ s.disk_emul_thread_stop_signal)
        × (t.disk_emul_last_durable_index ≡ s.disk_emul_last_durable_index)
        × (t.disk_emul_logs_being_written
            ≡ keep_up_to index
                (assign (u64 (now + delay_ms * 1000)) index s.disk_emul_logs_being_written))
  unfolding write_at being_written
  write_disk index e now s h same =
      let on : (s.disk_emul_delay == 0) ≡ false = ground arith in
      rw (on, same) (refl, refl, refl, refl)

  pub compact_disk :
      (last : ℕ) (s : InmemLogStore Entry)
      → let t = (compact last s).1 in
        (t.disk_emul_delay ≡ s.disk_emul_delay)
        × (t.disk_emul_thread_stop_signal ≡ s.disk_emul_thread_stop_signal)
        × (t.disk_emul_last_durable_index ≡ s.disk_emul_last_durable_index)
        × (t.disk_emul_logs_being_written ≡ s.disk_emul_logs_being_written)
  unfolding compact
  compact_disk last s = (refl, refl, refl, refl)

  pub round_rest :
      (now : ℕ) (s : InmemLogStore Entry)
      → let t = (disk_emul_round now s).store in
        (t.disk_emul_delay ≡ s.disk_emul_delay)
        × (t.disk_emul_thread_stop_signal ≡ s.disk_emul_thread_stop_signal)
        × (t.logs ≡ s.logs)
        × (t.start_idx ≡ s.start_idx)
  unfolding disk_emul_round
  round_rest now s = ground arith

  pub round-Represents :
      (now : ℕ) (s : InmemLogStore Entry) (l : RaftLog Entry)
      → Represents s l
      → Represents (disk_emul_round now s).store l
  round-Represents now s l r = record {
    logs_eq = (round_rest now s).2 ∙ r.logs_eq;
    start_eq = (round_rest now s).3 ∙ r.start_eq;
    positive = r.positive;
    fits = r.fits;
  }
