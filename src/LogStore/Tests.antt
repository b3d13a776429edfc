-- ===== src/LogStore/Tests.antt =====
-- The theorems on the log store at a store of two entries.
use replicated_splinterdb.Base.{
  ℕ, suc, Bool, leb, ◌<◌, ◌≤◌, ◌≡◌, refl, true, false, some, List, [], ◌∷◌, map, pos, negsuc, ok,
  arith,
}
use replicated_splinterdb.Base.Map.{find}
use replicated_splinterdb.Nuraft.{carried, wire_fields}
use replicated_splinterdb.Nuraft.Sample.{sample, PlainEntry, PlainBuffer, plain_entry}
use replicated_splinterdb.LogStore.{
  InmemLogStore, new_log_store, append, write_at, compact, entry_at, log_entries, log_entries_ext,
  next_slot,
}
use replicated_splinterdb.LogStore.Pack.{pack, apply_pack}
use replicated_splinterdb.LogStore.Disk.{disk_emul_round, last_durable_index, set_disk_delay}
use replicated_splinterdb.LogStore.View.{RaftLog, Represents}
use replicated_splinterdb.LogStore.Writes.{
  appended, overwritten, compacted, append-Represents, write_at-Represents, compact-Represents,
}
use replicated_splinterdb.LogStore.Reads.{slice, entry_at-Represents, log_entries-Represents}
use replicated_splinterdb.LogStore.Batch.{IsBatch, log_entries_ext-IsBatch}
use replicated_splinterdb.LogStore.Transfer.{received, apply_pack-pack}
use replicated_splinterdb.LogStore.Reach.{Reach, here, after, appends, Reach-Represents}
use replicated_splinterdb.LogStore.Writeback
use replicated_splinterdb.LogStore.Writeback.{Timed, Turn, emulated}
use replicated_splinterdb.LogStore.Writeback.Bounds.{last_durable_index_bounds}
use replicated_splinterdb.LogStore.Writeback.Rewrites
use replicated_splinterdb.LogStore.Writeback.Rewrites.{Rewrites, turns, durable_after_rewrites}
use replicated_splinterdb.LogStore.Threads.{log_entries_each, log_entries_ext_each}
use replicated_splinterdb.LogStore.Threads.Atomic.{Others, quiet, beside, log_entries_atomic}
use replicated_splinterdb.LogStore.Durability.Behind.{durable_past_end}
use replicated_splinterdb.LogStore.Durability.{IsRound, disk_emul_round-IsRound}

abbrev first_entry : PlainEntry
first_entry = plain_entry 1 (7 ∷ 8 ∷ [])

abbrev second_entry : PlainEntry
second_entry = plain_entry 2 (9 ∷ [])

abbrev two_entries : InmemLogStore PlainEntry
two_entries = record {
  logs = (0, plain_entry 0 []) ∷ (1, first_entry) ∷ (2, second_entry) ∷ [];
  start_idx = 1;
  raft_server_bwd_pointer = some 3;
  disk_emul_delay = 5;
  disk_emul_logs_being_written = (100, 1) ∷ (900, 2) ∷ [];
  disk_emul_thread = true;
  disk_emul_thread_stop_signal = false;
  disk_emul_ea_invoked = true;
  disk_emul_last_durable_index = 2;
}

abbrev two_log : RaftLog PlainEntry
two_log = record { dummy = plain_entry 0 []; start = 1; entries = first_entry ∷ second_entry ∷ [] }

-- A follower that was compacted up to index 1 and has nothing since.
abbrev follower : InmemLogStore PlainEntry
follower = record two_entries { logs = (0, plain_entry 0 []) ∷ []; start_idx = 2 }

abbrev follower_log : RaftLog PlainEntry
follower_log = record { dummy = plain_entry 0 []; start = 2; entries = [] }

two_entries-Represents : Represents two_entries two_log
two_entries-Represents = record {
  logs_eq = refl;
  start_eq = refl;
  positive = omega arith;
  fits = omega arith;
}

append-Represents_example :
    ((append sample first_entry 0 two_entries).0 ≡ 3)
    × Represents (append sample first_entry 0 two_entries).1 (appended two_log first_entry)
append-Represents_example =
    append-Represents sample first_entry 0 two_entries two_log two_entries-Represents (omega arith)

write_at-Represents_example :
    Represents (write_at sample 2 first_entry 0 two_entries) (overwritten two_log 2 first_entry)
write_at-Represents_example =
    write_at-Represents sample 2 first_entry 0 two_entries two_log two_entries-Represents
      (omega arith) (omega arith) (omega arith)

compact-Represents_example : Represents (compact 1 two_entries).1 (compacted two_log 1)
compact-Represents_example =
    compact-Represents 1 two_entries two_log two_entries-Represents (omega arith)

entry_at-Represents_example : entry_at sample 2 two_entries ≡ ok second_entry
entry_at-Represents_example = entry_at-Represents sample two_entries-Represents 2

log_entries-Represents_example :
    log_entries sample 1 3 two_entries ≡ ok (first_entry ∷ second_entry ∷ [])
log_entries-Represents_example =
    log_entries-Represents sample two_entries-Represents 1 3 (omega arith) (omega arith)
      (omega arith)

log_entries_ext-IsBatch_example :
    (ys : List PlainEntry) × (log_entries_ext sample 1 3 (pos 2) two_entries ≡ ok ys)
    × IsBatch sample 2 0 (slice two_log 1 3) ys
    × (log_entries_ext sample 1 3 (negsuc 0) two_entries ≡ ok [])
log_entries_ext-IsBatch_example =
    log_entries_ext-IsBatch sample two_entries-Represents 1 3 2 0 (omega arith) (omega arith)
      (omega arith) (omega arith) (omega arith)

-- An entry with a timestamp and a CRC, which do not go over the wire.
abbrev stamped : PlainEntry
stamped = record second_entry { timestamp = 77; has_crc = true; crc = 5 }

abbrev stamped_store : InmemLogStore PlainEntry
stamped_store = record two_entries {
  logs = (0, plain_entry 0 []) ∷ (1, first_entry) ∷ (2, stamped) ∷ [];
}

abbrev stamped_log : RaftLog PlainEntry
stamped_log = record two_log { entries = first_entry ∷ stamped ∷ [] }

stamped_store-Represents : Represents stamped_store stamped_log
stamped_store-Represents = record {
  logs_eq = refl;
  start_eq = refl;
  positive = omega arith;
  fits = omega arith;
}

apply_pack-pack_example :
    (b : PlainBuffer) × (pack sample 2 (pos 1) stamped_store ≡ ok b)
    × ((apply_pack sample 2 b follower).0 ≡ ok tt)
    × Represents (apply_pack sample 2 b follower).1 (received sample follower_log 2 (stamped ∷ []))
    × (map (wire_fields sample) (map (carried sample) (stamped ∷ []))
        ≡ map (wire_fields sample) (stamped ∷ []))
apply_pack-pack_example =
    apply_pack-pack sample stamped_store follower stamped_log follower_log 2 1
      stamped_store-Represents (omega arith) (omega arith) (omega arith) (omega arith) refl
      (omega arith) (omega arith) (omega arith) (omega arith)

abbrev one_entry : InmemLogStore PlainEntry
one_entry = (append sample first_entry 0 (new_log_store sample)).1

one_entry-Reach : Reach sample (new_log_store sample) one_entry
unfolding new_log_store
one_entry-Reach = after here (appends first_entry 0 (unfold next_slot in omega arith))

Reach-Represents_example : (l : RaftLog PlainEntry) × Represents one_entry l
Reach-Represents_example = Reach-Represents sample one_entry one_entry-Reach

disk_emul_round-IsRound_example : IsRound 500 two_entries (disk_emul_round 500 two_entries)
disk_emul_round-IsRound_example = disk_emul_round-IsRound 500 two_entries refl

durable_past_end_example :
    (next_slot (write_at sample 1 second_entry 10 two_entries)
      ≤ last_durable_index (write_at sample 1 second_entry 10 two_entries))
    × (find 5010 (write_at sample 1 second_entry 10 two_entries).disk_emul_logs_being_written
        ≡ some 1)
durable_past_end_example =
    durable_past_end sample 1 second_entry 10 two_entries two_log two_entries-Represents
      (omega arith) (omega arith) (omega arith) (omega arith)
      (unfold last_durable_index in omega arith)

-- A new store with a delay of 5 milliseconds, and one entry appended at time 10.
abbrev written : Timed PlainEntry
written = record {
  store = (append sample first_entry 10 (emulated sample 5 3 0).store).1;
  clock = 10;
}

written-Turn : Turn sample 5 (emulated sample 5 3 0) written
unfolding set_disk_delay new_log_store
written-Turn =
    Writeback.appends first_entry 10 (omega arith) (omega arith) (unfold next_slot in omega arith)

last_durable_index_bounds_example :
    (last_durable_index (emulated sample 5 3 0).store < next_slot (emulated sample 5 3 0).store)
    × (last_durable_index (emulated sample 5 3 0).store ≤ last_durable_index written.store)
    × (next_slot (emulated sample 5 3 0).store ≤ next_slot written.store)
last_durable_index_bounds_example =
    last_durable_index_bounds sample 5 3 0 (emulated sample 5 3 0) written (omega arith)
      Writeback.here written-Turn

-- At time 20, the entry is overwritten.
abbrev rewritten : Timed PlainEntry
rewritten = record { store = write_at sample 1 second_entry 20 written.store; clock = 20 }

rewritten-Rewrites : Rewrites sample 5 (emulated sample 5 3 0) rewritten
unfolding set_disk_delay new_log_store append replicated_splinterdb.Base.Map.assign
rewritten-Rewrites = Rewrites.after (Rewrites.after Rewrites.here (turns written-Turn)) (
    Rewrites.writes 1 second_entry 20 (omega arith) (omega arith) (omega arith)
      (unfold next_slot in omega arith) (omega arith))

durable_after_rewrites_example :
    (suc (last_durable_index (disk_emul_round 6000 rewritten.store).store)
      ≡ next_slot (disk_emul_round 6000 rewritten.store).store)
    × ((disk_emul_round 6000 rewritten.store).store.disk_emul_logs_being_written ≡ [])
durable_after_rewrites_example =
    durable_after_rewrites sample 5 3 0 rewritten 6000 (omega arith) rewritten-Rewrites
      (omega arith)

-- Of the reads of the indices 1 and 2, the second comes after an append by another thread.
abbrev before_append : Bool → InmemLogStore PlainEntry
before_append true = two_entries
before_append false = (append sample first_entry 7 two_entries).1

before_append-Others : (b : Bool) → Others sample 1 3 two_entries (before_append b)
before_append-Others true = quiet
before_append-Others false =
    beside quiet (appends first_entry 7 (unfold next_slot in omega arith)) (λ i p q. tt)

abbrev seen_between : ℕ → InmemLogStore PlainEntry
seen_between i = before_append (leb i 1)

log_entries_atomic_example :
    (log_entries_each sample 1 3 seen_between ≡ log_entries sample 1 3 two_entries)
    × (log_entries_ext_each sample 1 3 (pos 0) seen_between
        ≡ log_entries_ext sample 1 3 (pos 0) two_entries)
log_entries_atomic_example =
    log_entries_atomic sample 1 3 two_entries-Represents (omega arith) (omega arith) seen_between
      (λ i p q. before_append-Others (leb i 1)) (pos 0) (omega arith)
