-- ===== src/Node.antt =====
-- One server at work: its log store and its state machine, as the calls of the Raft library drive them
-- together. What the library does in between is not modelled: a step is one call that it makes, with
-- what it sees to before.
mod Tests
pub mod Held
pub mod InCluster
pub mod Invariant
pub mod Kept
pub mod Commits
pub mod Carried
pub mod CatchUp
pub mod Reads
use replicated_splinterdb.Base.{
  ℕ, suc, ◌+◌, ◌≡◌, ◌≤◌, ◌<◌, Bool, List, [], ◌∷◌, ◌++◌, length, Result, ok,
}
use replicated_splinterdb.Nuraft.{Nuraft, Bytes}
use replicated_splinterdb.SplinterDb.{SplinterDb}
use replicated_splinterdb.Operation.{SplinterdbOperation, deserialize}
use replicated_splinterdb.Replica.{register_thread}
use replicated_splinterdb.Server.{handle_clearcache, handle_dumpcache}
use replicated_splinterdb.LogStore.{InmemLogStore, new_log_store, next_slot, entry_at}
use replicated_splinterdb.LogStore.Reach as Log
use replicated_splinterdb.StateMachine.{
  SplinterdbStateMachine, new_state_machine, commit, commit_config,
}
use replicated_splinterdb.Cluster.{Agreed, app_log, conf_log, CallSucceeds}
use replicated_splinterdb.Cluster.Meaning.{IsReadable}

-- A committed entry, and which of the two calls committed it.
pub data Done (E : Type 0) : Type 0 where
  applied configured : E → Done E

abbrev pub entry_of : {E : Type 0} → Done E → E
entry_of (applied e) = e
entry_of (configured e) = e

-- `done` has the entries that were committed so far, the first under index 1.
pub record Node (E D S : Type 0) : Type 0 where
  pub store : InmemLogStore E
  pub machine : SplinterdbStateMachine D S
  pub done : List (Done E)

module _ (n : Nuraft) where
  open n use {Entry, Buffer}

  abbrev pub agreed : Done Entry → Agreed Buffer
  agreed (applied e) = app_log (n.get_buf e)
  agreed (configured e) = conf_log

  -- The Raft library overwrites no committed entry, and drops no other one by a compaction.
  abbrev pub Admits : {s t : InmemLogStore Entry} → Log.Step n s t → ℕ → Type 0
  Admits (Log.appends e now room) k = Unit {0}
  Admits (Log.writes index e now lo hi room) k = k < index
  Admits (Log.receives index es lo hi some_entry room) k = k < index
  Admits (Log.compacts last room) k = last ≤ k
  Admits Log.flushes k = Unit {0}
  Admits (Log.delays raft ms) k = Unit {0}
  Admits (Log.wakes t) k = Unit {0}
  Admits Log.stops k = Unit {0}

module _ (n : Nuraft) (db : SplinterDb) {S : Type 0} where
  open n use {Entry, Buffer}
  open db use {Db}

  abbrev pub with_db : Node Entry Db S → Db → Node Entry Db S
  with_db c d = record c { machine = record c.machine { spl_handle = d } }

  pub data Step (c : Node Entry Db S) : Node Entry Db S → Type 0 where
    stores :
        {t : InmemLogStore Entry} (st : Log.Step n c.store t)
        → Admits n st (length c.done)
        → Step c (record c { store = t })
    -- The entry behind the last committed one, as the log store gives it, is committed.
    commits :
        (e : Entry)
        → suc (length c.done) < next_slot c.store
        → entry_at n (suc (length c.done)) c.store ≡ ok e
        → IsReadable n db (app_log (n.get_buf e))
        → CallSucceeds n db (n.get_buf e) c.machine
        → Step c (record c {
          machine = (commit n db (suc (length c.done)) (n.get_buf e) c.machine).1;
          done = c.done ++ applied e ∷ [];
        })
    commits_conf :
        (e : Entry)
        → suc (length c.done) < next_slot c.store
        → entry_at n (suc (length c.done)) c.store ≡ ok e
        → Step c (record c {
          machine = commit_config (suc (length c.done)) c.machine;
          done = c.done ++ configured e ∷ [];
        })
    -- The handlers that clear and print the cache, and a worker that begins.
    clears_cache : Step c (with_db c (handle_clearcache db c.machine.spl_handle).1)
    dumps_cache :
        (directory : Bytes)
        → Step c (with_db c (handle_dumpcache db directory c.machine.spl_handle).1)
    registers : Step c (with_db c (register_thread db c.machine.spl_handle))

  -- The server as the constructors of its parts left it.
  pub record IsNew (c : Node Entry Db S) : Type 0 where
    pub config : db.Config
    pub disable_snapshots : Bool
    pub new_store : c.store ≡ new_log_store n
    pub created : new_state_machine n db config disable_snapshots ≡ ok c.machine
    pub none_done : c.done ≡ []

  pub data Reach (c : Node Entry Db S) : Node Entry Db S → Type 0 where
    here : Reach c c
    after : {d e : Node Entry Db S} → Reach c d → Step d e → Reach c e
