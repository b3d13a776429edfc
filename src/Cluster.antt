-- ===== src/Cluster.antt =====
-- A cluster at work: the requests that the handlers of src/server/server.cpp log, the log that the Raft
-- library has the servers agree on, and the state machines that commit it, each in its own time. What
-- the Raft library does is not modelled: a step of the cluster is one call that it makes.
pub mod Clients
pub mod Committed
pub mod Handlers
pub mod Meaning
pub mod Mutations
pub mod Invariant
pub mod PutThenGet
pub mod Reads
pub mod Requests
mod Tests
use replicated_splinterdb.Base.{
  ℕ, suc, ◌≡◌, ◌<◌, ◌^◌, Bool, false, Option, none, some, List, [], ◌∷◌, ◌++◌, get_elem?, ℤ, pos,
  ◌==◌, if◌then◌else◌, Result, ok,
}
use replicated_splinterdb.Nuraft.{Nuraft, Bytes}
use replicated_splinterdb.SplinterDb.{SplinterDb}
use replicated_splinterdb.Operation.{
  SplinterdbOperation, make_put, make_delete, serialize, deserialize,
}
use replicated_splinterdb.Operation.RoundTrip.{wire_size}
use replicated_splinterdb.Replica.{register_thread}
use replicated_splinterdb.Server.{handle_clearcache, handle_dumpcache}
use replicated_splinterdb.StateMachine.{
  SplinterdbStateMachine, new_state_machine, commit, commit_config,
}
use replicated_splinterdb.StateMachine.Commit.{call, registered}

-- A mutation that a client asks a server for.
pub data Request : Type 0 where
  put_request update_request : Bytes → Bytes → Request
  delete_request : Bytes → Request

-- The operation that the handler of the request logs; that of an update makes a put.
unfoldable pub logged : Request → SplinterdbOperation
unfolding make_put make_delete
logged (put_request key value) = make_put key value
logged (update_request key value) = make_put key value
logged (delete_request key) = make_delete key

-- An entry of the agreed log: the buffer of an operation, or a change of the configuration.
pub data Agreed (B : Type 0) : Type 0 where
  app_log : B → Agreed B
  conf_log : Agreed B

abbrev pub update_at : {A : Type 0} → (ℕ → A) → ℕ → A → ℕ → A
update_at f i a j = if i == j then a else f j

-- The servers are numbered; `committed` is how many entries each has committed.
pub record Cluster (B D S : Type 0) : Type 0 where
  pub log : List (Agreed B)
  pub machines : ℕ → SplinterdbStateMachine D S
  pub committed : ℕ → ℕ

module _ (n : Nuraft) (db : SplinterDb) {S : Type 0} where
  open n use {Buffer}
  open db use {Db}

  -- The operation of a buffer, as `commit` reads it, makes this call of SplinterDB with success.
  abbrev pub CallSucceeds : Buffer → SplinterdbStateMachine Db S → Type 0
  CallSucceeds buf s =
      (op : SplinterdbOperation)
      → deserialize n buf ≡ ok op
      → (call db op.type op.key op.value (registered n db s)).0 ≡ pos 0

  -- The cluster where the state machine of one server has this handle.
  abbrev pub with_handle : Cluster Buffer Db S → ℕ → Db → Cluster Buffer Db S
  with_handle c i d = record c {
    machines = update_at c.machines i (record (c.machines i) { spl_handle = d });
  }

  pub data Step (c : Cluster Buffer Db S) : Cluster Buffer Db S → Type 0 where
    -- A request that was serialized is agreed on.
    agrees :
        (r : Request) (buf : Buffer)
        → wire_size (logged r) < 2 ^ 31
        → serialize n (logged r) ≡ ok buf
        → Step c (record c { log = c.log ++ app_log buf ∷ [] })
    agrees_conf : Step c (record c { log = c.log ++ conf_log ∷ [] })
    -- A server commits the next entry, the first under index 1.
    commits :
        (i : ℕ) (buf : Buffer)
        → get_elem? c.log (c.committed i) ≡ some (app_log buf)
        → CallSucceeds buf (c.machines i)
        → Step c (record c {
          machines =
              update_at c.machines i (commit n db (suc (c.committed i)) buf (c.machines i)).1;
          committed = update_at c.committed i (suc (c.committed i));
        })
    commits_conf :
        (i : ℕ)
        → get_elem? c.log (c.committed i) ≡ some conf_log
        → Step c (record c {
          machines = update_at c.machines i (commit_config (suc (c.committed i)) (c.machines i));
          committed = update_at c.committed i (suc (c.committed i));
        })
    -- The handlers that clear and print the cache.
    clears_cache :
        (i : ℕ) → Step c (with_handle c i (handle_clearcache db (c.machines i).spl_handle).1)
    dumps_cache :
        (i : ℕ) (directory : Bytes)
        → Step c (with_handle c i (handle_dumpcache db directory (c.machines i).spl_handle).1)
    -- A worker of a server begins.
    registers : (i : ℕ) → Step c (with_handle c i (register_thread db (c.machines i).spl_handle))
    -- A server ends and begins anew: its log was in memory, and it makes a new instance of SplinterDB.
    restarts :
        (i : ℕ) (config : db.Config) (disable_snapshots : Bool) (s : SplinterdbStateMachine Db S)
        → new_state_machine n db config disable_snapshots ≡ ok s
        → Step c (record c {
          machines = update_at c.machines i s;
          committed = update_at c.committed i 0;
        })

  -- The servers as their constructors left them, and no log.
  pub record IsStart (c : Cluster Buffer Db S) : Type 0 where
    pub config : ℕ → db.Config
    pub disable_snapshots : ℕ → Bool
    pub empty_log : c.log ≡ []
    pub none_committed : (i : ℕ) → c.committed i ≡ 0
    pub created :
        (i : ℕ) → new_state_machine n db (config i) (disable_snapshots i) ≡ ok (c.machines i)

  pub data Reach (c : Cluster Buffer Db S) : Cluster Buffer Db S → Type 0 where
    here : Reach c c
    after : {d e : Cluster Buffer Db S} → Reach c d → Step d e → Reach c e
