-- ===== src/LogStore/Durability/Behind.antt =====
-- The durable index after `write_at` has cut the log short.
use replicated_splinterdb.Base.{
  ℕ, ◌+◌, ◌-◌, ◌*◌, ◌^◌, ◌≤◌, ◌<◌, ◌≡◌, some, [], ◌∷◌, length-append, length-take, take, u64, arith,
}
use replicated_splinterdb.Base.Map.{find}
use replicated_splinterdb.Nuraft.{Nuraft}
use replicated_splinterdb.LogStore.{InmemLogStore, write_at, next_slot}
use replicated_splinterdb.LogStore.Disk.{last_durable_index}
use replicated_splinterdb.LogStore.View.{RaftLog, Represents, next, next_slot-Represents}
use replicated_splinterdb.LogStore.Writes.{write_at-Represents}
use replicated_splinterdb.LogStore.Durability.{write_at_overstates}

-- On a store with a delay that stands for a log, `write_at` at an index of the log or right behind
-- it, below 2^64 - 1, leaves a durable index past the end of the log if a greater index had been
-- reported as durable: the report is at the next slot or above. The entry that it writes is only
-- noted as being written.
pub durable_past_end :
    (n : Nuraft) (index : ℕ) (e : n.Entry) (now : ℕ) (s : InmemLogStore n.Entry)
    (l : RaftLog n.Entry)
    → Represents s l
    → l.start ≤ index
    → index ≤ next l
    → index + 1 < 2 ^ 64
    → 0 < s.disk_emul_delay
    → index < last_durable_index s
    → (next_slot (write_at n index e now s) ≤ last_durable_index (write_at n index e now s))
      × (find
            (u64 (now + s.disk_emul_delay * 1000))
            (write_at n index e now s).disk_emul_logs_being_written
          ≡ some index)
durable_past_end n index e now s l v lo hi room delayed durable =
    let t = write_at n index e now s in
    let over = write_at_overstates n index e now s delayed (omega arith) in
    let same : last_durable_index t ≡ last_durable_index s =
      unfold write_at in unfold last_durable_index in ground arith in
    let slot = next_slot-Represents (write_at-Represents n index e now s l v lo hi room) in
    (
      omega (
        arith,
        same,
        slot,
        v.positive,
        length-append (take (index - l.start) l.entries) (e ∷ []),
        length-take (index - l.start) l.entries,
      ),
      over.1,
    )
