-- ===== src/StateMachine.antt =====
-- The state machine of the Raft library over SplinterDB: src/server/splinterdb_state_machine.h and
-- splinterdb_state_machine.cpp, class splinterdb_state_machine. `S` is nuraft::snapshot.
pub mod Commit
pub mod Replicas
mod Tests
use replicated_splinterdb.Base.{
  ℕ, Bool, true, false, not, Option, none, some, [], ℤ, pos, ◌==ℤ◌, if◌then◌else◌, Result, ok,
  throw, undefined, runtime_error, bind, Exec, pure, raise, lift, gets, modify, ◌>>=◌, ◌>>◌,
}
use replicated_splinterdb.Base.Map.{Map, last}
use replicated_splinterdb.Nuraft.{Nuraft, Bytes, i32}
use replicated_splinterdb.SplinterDb.{SplinterDb}
use replicated_splinterdb.LogStore.Pack.{checked}
use replicated_splinterdb.Operation.{
  SplinterdbOperation, OperationType, put, update, delete, unknown, deserialize,
}

-- splinterdb_snapshot: a pointer to the library's snapshot
pub record SplinterdbSnapshot (S : Type 0) : Type 0 where
  pub snapshot : S

pub record SplinterdbStateMachine (D S : Type 0) : Type 0 where
  pub spl_handle : D
  -- the last committed Raft log number
  pub last_committed_idx : ℕ
  -- whether the commit thread has been registered by SplinterDB
  pub commit_thread_initialized : Bool
  -- by their Raft log numbers
  pub snapshots : Map (SplinterdbSnapshot S)
  pub disable_snapshots : Bool

module _ {D S : Type 0} where
  unfoldable pub commit_config : ℕ → SplinterdbStateMachine D S → SplinterdbStateMachine D S
  commit_config log_idx s = record s { last_committed_idx = log_idx }

  unfoldable pub save_logical_snp_obj : S → Exec (SplinterdbStateMachine D S) (Unit {0})
  save_logical_snp_obj snp = raise (runtime_error "Not implemented.")

  unfoldable pub apply_snapshot : S → Exec (SplinterdbStateMachine D S) Bool
  apply_snapshot snp = raise (runtime_error "Not implemented.")

  unfoldable pub read_logical_snp_obj : S → ℕ → Exec (SplinterdbStateMachine D S) ℤ
  read_logical_snp_obj snp obj_id = raise (runtime_error "Not implemented.")

  unfoldable pub free_user_snp_ctx : Exec (SplinterdbStateMachine D S) (Unit {0})
  free_user_snp_ctx = raise (runtime_error "Not implemented.")

  unfoldable pub last_snapshot : SplinterdbStateMachine D S → Option S
  last_snapshot s = elim (last s.snapshots) [ none ↦ none | some (idx, ctx) ↦ some ctx.snapshot ]

  unfoldable pub last_commit_index : SplinterdbStateMachine D S → ℕ
  last_commit_index s = s.last_committed_idx

  unfoldable pub create_snapshot : S → Exec (SplinterdbStateMachine D S) (Unit {0})
  create_snapshot snp = raise (runtime_error "Not implemented.")

  unfoldable pub chk_create_snapshot : SplinterdbStateMachine D S → Bool
  chk_create_snapshot s = not s.disable_snapshots

-- The buffer that `commit` returns. The serializer that fills it has a cursor of its own: the cursor
-- of the buffer stays at the start.
unfoldable pub reply : (n : Nuraft) → ℤ → Result n.Buffer
reply n ret_code =
    bind (checked (n.put (i32 ret_code) (n.rewind (n.alloc 4)))) λ ret. ok (n.rewind ret)

module _ (n : Nuraft) (db : SplinterDb) {S : Type 0} where
  open n use {Buffer}
  open db use {Db}

  -- The constructor.
  unfoldable pub new_state_machine : db.Config → Bool → Result (SplinterdbStateMachine Db S)
  new_state_machine config disable_snapshots =
      let (rc, handle) = db.create config in
      if rc ==ℤ pos 0
      then ok (record {
        spl_handle = handle;
        last_committed_idx = 0;
        commit_thread_initialized = false;
        snapshots = [];
        disable_snapshots = disable_snapshots;
      })
      else throw (runtime_error "Failed to create SplinterDB instance.")

  -- The destructor.
  unfoldable pub destroy : SplinterdbStateMachine Db S → SplinterdbStateMachine Db S
  destroy s = record s { spl_handle = db.close s.spl_handle }

  -- The first commit registers the thread that makes it.
  unfoldable pub register_commit_thread : Exec (SplinterdbStateMachine Db S) (Unit {0})
  register_commit_thread = modify λ s. if s.commit_thread_initialized then s else record s {
    commit_thread_initialized = true;
    spl_handle = db.register_thread s.spl_handle;
  }

  -- One call of SplinterDB on the handle.
  unfoldable pub on_handle : (Db → ℤ × Db) → Exec (SplinterdbStateMachine Db S) ℤ
  on_handle f s = (ok (f s.spl_handle).0, record s { spl_handle = (f s.spl_handle).1 })

  -- The switch over the type of an operation. A type that wants a value is read with one; without it
  -- `value()` would follow an empty optional.
  unfoldable pub perform :
      OperationType → Bytes → Option Bytes → Exec (SplinterdbStateMachine Db S) ℤ
  unfolding on_handle
  perform put key (some value) = on_handle (db.insert key value)
  perform put key none = lift undefined
  perform update key (some value) = on_handle (db.update key value)
  perform update key none = lift undefined
  perform delete key value = on_handle (db.remove key)
  perform (unknown t) key value = raise (runtime_error "Unknown operation type.")

  unfoldable pub commit : ℕ → Buffer → Exec (SplinterdbStateMachine Db S) Buffer
  commit log_idx buf = do
    register_commit_thread
    operation ← lift (deserialize n buf)
    ret_code ← perform operation.type operation.key operation.value
    modify (λ s. record s { last_committed_idx = log_idx })
    lift (reply n ret_code)
