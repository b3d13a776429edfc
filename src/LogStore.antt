-- ===== src/LogStore.antt =====
-- The Raft log kept in memory: src/server/in_memory_log_store.h and in_memory_log_store.cpp, class
-- inmem_log_store. The build is a Release build (CMakeLists.txt), so `assert` does nothing. Each
-- method holds `logs_lock_` while it reads or writes the map, and is one step here.
pub mod Pack
pub mod Disk
pub mod View
pub mod Writes
mod Tests
pub mod Durability
pub mod Notes
pub mod Writeback
pub mod Reach
pub mod Untouched
pub mod Threads
pub mod Splice
pub mod Transfer
pub mod Packed
pub mod Batch
pub mod Reads
use replicated_splinterdb.Base.{
  ℕ, zero, suc, ◌+◌, ◌-◌, ◌*◌, ◌^◌, Bool, true, false, not, ◌&&◌, Option, none, some, List, [], ◌∷◌,
  length, ℤ, pos, ◌==ℤ◌, is_negative, u64, u64_of, ltb, leb, ◌==◌, if◌then◌else◌, Result, ok, throw,
  undefined, length_error, bind,
}
use replicated_splinterdb.Base.Map.{Map, find, assign, erase, erase_from}
use replicated_splinterdb.Nuraft.{Nuraft}

pub record InmemLogStore (E : Type 0) : Type 0 where
  -- log index ↦ log data; index 0 holds a dummy entry
  pub logs : Map E
  pub start_idx : ℕ
  -- which raft_server the disk thread notifies
  pub raft_server_bwd_pointer : Option ℕ
  pub disk_emul_delay : ℕ
  -- timestamp ↦ log index
  pub disk_emul_logs_being_written : Map ℕ
  -- the thread exists; it is told to stop; its event awaiter is signalled
  pub disk_emul_thread : Bool
  pub disk_emul_thread_stop_signal : Bool
  pub disk_emul_ea_invoked : Bool
  pub disk_emul_last_durable_index : ℕ

-- An unsigned 64-bit `x - 1`.
abbrev pub u64_pred : ℕ → ℕ
u64_pred x = u64 (x + (2 ^ 64 - 1))

-- Dereferencing an iterator that may be end().
abbrev pub deref {ℓ} : {A : Type ℓ} → Option A → Result A
deref none = undefined
deref (some a) = ok a

-- logs_.find(i), and logs_.find(0) where that is end()
unfoldable pub find_or_dummy : {E : Type 0} → ℕ → Map E → Result E
find_or_dummy i m = elim (find i m) [ none ↦ deref (find 0 m) | some e ↦ ok e ]

-- Drops the notes on logs after `index`.
unfoldable pub keep_up_to : ℕ → Map ℕ → Map ℕ
keep_up_to index [] = []
keep_up_to index ((t, i) ∷ m) =
    let rest = keep_up_to index m in if ltb index i then rest else (t, i) ∷ rest

module _ {E : Type 0} where
  unfoldable pub next_slot : InmemLogStore E → ℕ
  next_slot s = u64_pred (s.start_idx + length s.logs)

  unfoldable pub start_index : InmemLogStore E → ℕ
  start_index s = s.start_idx

  -- The loop of `compact`, over its rounds.
  unfoldable pub erase_range : ℕ → ℕ → Map E → Map E
  erase_range zero ii m = m
  erase_range (suc r) ii m = erase_range r (suc ii) (erase ii m)

  unfoldable pub compact : ℕ → InmemLogStore E → Bool × InmemLogStore E
  compact last s = (
    true,
    record s {
      logs = erase_range (suc last - s.start_idx) s.start_idx s.logs;
      start_idx = if leb s.start_idx last then u64 (last + 1) else s.start_idx;
    },
  )

  -- What `append` and `write_at` note for the disk thread: log `idx` is written out by `now`, the
  -- time of day in microseconds, plus the delay.
  unfoldable pub being_written : ℕ → ℕ → InmemLogStore E → InmemLogStore E
  being_written now idx s = record s {
    disk_emul_logs_being_written =
        assign (u64 (now + s.disk_emul_delay * 1000)) idx s.disk_emul_logs_being_written;
    disk_emul_ea_invoked = true;
  }

  unfoldable pub close : InmemLogStore E → InmemLogStore E
  close s = s

module _ (n : Nuraft) where
  open n use {Entry, Buffer}

  unfoldable pub new_log_store : InmemLogStore Entry
  new_log_store = record {
    logs = (0, n.default_entry 0 (n.alloc 8)) ∷ [];
    start_idx = 1;
    raft_server_bwd_pointer = none;
    disk_emul_delay = 0;
    disk_emul_logs_being_written = [];
    disk_emul_thread = false;
    disk_emul_thread_stop_signal = false;
    disk_emul_ea_invoked = false;
    disk_emul_last_durable_index = 0;
  }

  unfoldable pub make_clone : Entry → Entry
  make_clone e =
      n.new_entry (n.get_term e) (n.clone (n.get_buf e)) (n.get_val_type e) (n.get_timestamp e)
        (n.has_crc32 e) (n.get_crc32 e) false

  unfoldable pub last_entry : InmemLogStore Entry → Result Entry
  unfolding make_clone next_slot find_or_dummy
  last_entry s = bind (find_or_dummy (u64_pred (next_slot s)) s.logs) (λ e. ok (make_clone e))

  unfoldable pub append : Entry → ℕ → InmemLogStore Entry → ℕ × InmemLogStore Entry
  unfolding make_clone next_slot being_written
  append entry now s =
      let idx = next_slot s in
      let stored = record s { logs = assign idx (make_clone entry) s.logs } in
      (idx, if s.disk_emul_delay == 0 then stored else being_written now idx stored)

  unfoldable pub write_at : ℕ → Entry → ℕ → InmemLogStore Entry → InmemLogStore Entry
  unfolding make_clone being_written
  write_at index entry now s =
      let stored = record s { logs = assign index (make_clone entry) (erase_from index s.logs) } in
      let noted = being_written now index stored in
      if s.disk_emul_delay == 0 then stored else record noted {
        disk_emul_logs_being_written = keep_up_to index noted.disk_emul_logs_being_written;
      }

  -- The loop of `log_entries`, over its rounds.
  unfoldable pub clone_range : ℕ → ℕ → Map Entry → Result (List Entry)
  clone_range zero ii m = ok []
  clone_range (suc r) ii m =
      bind (find_or_dummy ii m)
        λ src. bind (clone_range r (suc ii) m) λ rest. ok (make_clone src ∷ rest)

  -- `resize(end - start)` refuses the huge number that a negative difference wraps to.
  unfoldable pub log_entries : ℕ → ℕ → InmemLogStore Entry → Result (List Entry)
  log_entries start end s =
      if ltb end start
      then throw (length_error "vector::_M_default_append")
      else clone_range (end - start) start s.logs

  -- The test that ends the loop of `log_entries_ext`.
  unfoldable pub reached : ℤ → ℕ → Bool
  reached hint accum = not (hint ==ℤ pos 0) && leb (u64_of hint) accum

  unfoldable pub batch : ℤ → ℕ → ℕ → ℕ → Map Entry → Result (List Entry)
  batch hint zero ii accum m = ok []
  batch hint (suc r) ii accum m = bind (find_or_dummy ii m) λ src.
      let accum' = u64 (accum + n.size (n.get_buf src)) in
      let more = bind (batch hint r (suc ii) accum' m) (λ rest. ok (make_clone src ∷ rest)) in
      if reached hint accum' then ok (make_clone src ∷ []) else more

  unfoldable pub log_entries_ext : ℕ → ℕ → ℤ → InmemLogStore Entry → Result (List Entry)
  log_entries_ext start end hint s =
      if is_negative hint then ok [] else batch hint (end - start) start 0 s.logs

  unfoldable pub entry_at : ℕ → InmemLogStore Entry → Result Entry
  unfolding make_clone
  entry_at index s = bind (find_or_dummy index s.logs) (λ src. ok (make_clone src))

  unfoldable pub term_at : ℕ → InmemLogStore Entry → Result ℕ
  term_at index s = bind (find_or_dummy index s.logs) (λ e. ok (n.get_term e))
