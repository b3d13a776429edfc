-- ===== src/LogStore/Disk.antt =====
-- The emulated disk of src/server/in_memory_log_store.cpp: `flush`, `set_disk_delay`,
-- `last_durable_index`, the destructor, and the thread `disk_emul_loop`, one round at a time. The
-- time of day is an argument, in microseconds.
use replicated_splinterdb.Base.{
  ℕ, ◌-◌, ◌*◌, Bool, true, false, Option, none, some, [], ◌∷◌, leb, ◌==◌, if◌then◌else◌,
}
use replicated_splinterdb.Base.Map.{Map, first}
use replicated_splinterdb.LogStore.{InmemLogStore, u64_pred, next_slot}

module _ {E : Type 0} where
  unfoldable pub flush : InmemLogStore E → Bool × InmemLogStore E
  unfolding next_slot
  flush s = (true, record s { disk_emul_last_durable_index = u64_pred (next_slot s) })

  unfoldable pub set_disk_delay : ℕ → ℕ → InmemLogStore E → InmemLogStore E
  set_disk_delay raft delay_ms s = record s {
    disk_emul_delay = delay_ms;
    raft_server_bwd_pointer = some raft;
    disk_emul_thread = true;
  }

  unfoldable pub last_durable_index : InmemLogStore E → ℕ
  unfolding next_slot
  last_durable_index s =
      if s.disk_emul_delay == 0 then u64_pred (next_slot s) else s.disk_emul_last_durable_index

  -- ~inmem_log_store up to the join of the thread
  unfoldable pub destroy : InmemLogStore E → InmemLogStore E
  destroy s =
      if s.disk_emul_thread
      then record s { disk_emul_thread_stop_signal = true; disk_emul_ea_invoked = true }
      else s

-- What the inner loop of a round changes.
pub record Flushed : Type 0 where
  pub durable : ℕ
  pub waiting : Map ℕ
  pub call_notification : Bool

-- Takes the notes whose time has come off the front, and keeps the last of their log indices.
unfoldable pub take_due : ℕ → Flushed → Map ℕ → Flushed
take_due cur_time f [] = record f { waiting = [] }
take_due cur_time f ((t, i) ∷ m) =
    let more = take_due cur_time (record f { durable = i; call_notification = true }) m in
    if leb t cur_time then more else record f { waiting = (t, i) ∷ m }

-- next_sleep_us, by the note that comes first
unfoldable pub next_sleep_us : ℕ → Map ℕ → ℕ
next_sleep_us cur_time m = elim (first m) [ none ↦ 100 * 1000 | some (t, i) ↦ t - cur_time ]

-- One round: whether the thread goes on, whether it notifies the Raft server, how long it sleeps.
pub record Round (E : Type 0) : Type 0 where
  pub store : InmemLogStore E
  pub goes_on : Bool
  pub notified : Option ℕ
  pub sleep_us : ℕ

unfoldable pub notify : Bool → Option ℕ → Option ℕ
notify true raft = raft
notify false raft = none

unfoldable pub disk_emul_round : {E : Type 0} → ℕ → InmemLogStore E → Round E
unfolding take_due next_sleep_us notify
disk_emul_round cur_time s =
    let woken = record s { disk_emul_ea_invoked = false } in
    let start : Flushed = record {
      durable = s.disk_emul_last_durable_index;
      waiting = [];
      call_notification = false;
    } in
    let f = take_due cur_time start s.disk_emul_logs_being_written in
    if s.disk_emul_thread_stop_signal
    then record { store = woken; goes_on = false; notified = none; sleep_us = 0 }
    else record {
      store = record woken {
        disk_emul_last_durable_index = f.durable;
        disk_emul_logs_being_written = f.waiting;
      };
      goes_on = true;
      notified = notify f.call_notification s.raft_server_bwd_pointer;
      sleep_us = next_sleep_us cur_time f.waiting;
    }
