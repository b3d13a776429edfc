-- ===== src/Node/Tests.antt =====
-- The theorems on one server: it appends and commits a put, and a new server catches up with it.
use replicated_splinterdb.Base.{
  ℕ, suc, ◌-◌, ◌≡◌, refl, true, false, List, [], ◌∷◌, length, map, take, drop, some, pos, ok, arith,
}
use replicated_splinterdb.Nuraft.Sample.{sample, PlainEntry, plain_entry}
use replicated_splinterdb.SplinterDb.Sample.{sample_db, PlainDb}
use replicated_splinterdb.Operation.{SplinterdbOperation, put, deserialize}
use replicated_splinterdb.LogStore.{
  InmemLogStore, new_log_store, next_slot, append, entry_at, log_entries,
}
use replicated_splinterdb.LogStore.Reach as Log
use replicated_splinterdb.StateMachine.{SplinterdbStateMachine, new_state_machine, commit}
use replicated_splinterdb.StateMachine.Commit.{commit-effect}
use replicated_splinterdb.Cluster.Meaning.{meaning, nothing}
use replicated_splinterdb.Node.{Node, applied, entry_of, IsNew, stores, commits, Reach, here, after}
use replicated_splinterdb.Node.Invariant.{history}
use replicated_splinterdb.Node.Kept.{log_explains_data, committed_stays}
use replicated_splinterdb.Nuraft.Sample.{PlainBuffer}
use replicated_splinterdb.Operation.{make_put}
use replicated_splinterdb.Operation.RoundTrip.{
  serialized, serialize-serialized, deserialize-serialized,
}
use replicated_splinterdb.Cluster as C
use replicated_splinterdb.Cluster.{Cluster, put_request, logged, app_log}
use replicated_splinterdb.Node.InCluster.{Mirrors}
use replicated_splinterdb.Node.Reads.{IsServing, node_reads_log}
use replicated_splinterdb.Node.CatchUp.{CatchesUp, caught_up}

abbrev Server : Type 0
Server = Node PlainEntry PlainDb ℕ

abbrev fresh_machine : SplinterdbStateMachine PlainDb ℕ
fresh_machine = record {
  spl_handle = [];
  last_committed_idx = 0;
  commit_thread_initialized = false;
  snapshots = [];
  disable_snapshots = true;
}

abbrev new_server : Server
new_server = record { store = new_log_store sample; machine = fresh_machine; done = [] }

new_server-IsNew : IsNew sample sample_db new_server
unfolding new_state_machine
new_server-IsNew = record {
  config = tt;
  disable_snapshots = true;
  new_store = refl;
  created = refl;
  none_done = refl;
}

abbrev one_put : SplinterdbOperation
one_put = record { key = 107 ∷ []; value = some (118 ∷ []); type = put }

abbrev put_entry : PlainEntry
put_entry = record (plain_entry 1 (serialized sample one_put).content) {
  items = (serialized sample one_put).put_items;
}

parsed_lem : deserialize sample (sample.get_buf put_entry) ≡ ok one_put
parsed_lem = deserialize-serialized sample one_put tt (omega arith)

abbrev appended : Server
appended = record new_server { store = (append sample put_entry 0 (new_log_store sample)).1 }

appended-Reach : Reach sample sample_db new_server appended
appended-Reach =
    after here (
      stores (Log.appends put_entry 0 (unfold next_slot in unfold new_log_store in omega arith)) tt)

abbrev committed : Server
committed = record appended {
  machine = (commit sample sample_db 1 (sample.get_buf put_entry) fresh_machine).1;
  done = applied put_entry ∷ [];
}

committed-Reach : Reach sample sample_db new_server committed
unfolding next_slot new_log_store append entry_at replicated_splinterdb.Base.Map.assign
    replicated_splinterdb.LogStore.find_or_dummy replicated_splinterdb.Base.Map.find
committed-Reach = after appended-Reach (
    commits put_entry (omega arith) refl (one_put, parsed_lem, tt)
      (λ op e. ground (arith, e, parsed_lem)))

log_explains_data_example :
    (committed.machine.last_committed_idx ≡ 1)
    × (log_entries sample committed.store.start_idx
          (suc committed.machine.last_committed_idx)
          committed.store
        ≡ ok (map entry_of (drop (committed.store.start_idx - 1) committed.done)))
    × (sample_db.view committed.machine.spl_handle
        ≡ meaning sample sample_db (history sample committed.done) (nothing sample sample_db))
log_explains_data_example =
    log_explains_data sample sample_db new_server committed new_server-IsNew committed-Reach

-- The server appends one more entry.
abbrev longer : Server
longer = record committed { store = (append sample put_entry 5 committed.store).1 }

longer-Reach : Reach sample sample_db committed longer
unfolding append replicated_splinterdb.Base.Map.assign
longer-Reach =
    after here (
      stores (Log.appends put_entry 5 (unfold next_slot in unfold new_log_store in omega arith)) tt)

index_lem : committed.machine.last_committed_idx ≡ 1
index_lem =
    (commit-effect sample sample_db 1 (sample.get_buf put_entry) one_put fresh_machine parsed_lem tt
      refl).1

committed_stays_example : entry_at sample 1 longer.store ≡ entry_at sample 1 committed.store
unfolding append new_log_store
committed_stays_example =
    committed_stays sample sample_db new_server committed longer 1 new_server-IsNew committed-Reach
      longer-Reach (omega arith) (omega (arith, index_lem)) (omega arith) (omega arith)

caught_up_example : CatchesUp sample sample_db committed new_server (applied put_entry ∷ []) 0
unfolding append new_log_store
caught_up_example =
    caught_up sample sample_db new_server committed new_server new_server (applied put_entry ∷ [])
      new_server-IsNew committed-Reach new_server-IsNew here refl (omega arith) (omega arith)
      (omega arith) ((λ op e. ground (arith, e, parsed_lem)), tt)

-- A cluster of such servers that agrees on the put.
abbrev start : Cluster PlainBuffer PlainDb ℕ
start = record { log = []; machines = λ i. fresh_machine; committed = λ i. 0 }

start-IsStart : C.IsStart sample sample_db start
unfolding new_state_machine
start-IsStart = record {
  config = λ i. tt;
  disable_snapshots = λ i. true;
  empty_log = refl;
  none_committed = λ i. refl;
  created = λ i. refl;
}

abbrev agreed_put : Cluster PlainBuffer PlainDb ℕ
agreed_put = record start { log = app_log (serialized sample one_put) ∷ [] }

agreed_put-Reach : C.Reach sample sample_db start agreed_put
unfolding logged make_put
agreed_put-Reach = C.after C.here (
    C.agrees (put_request (107 ∷ []) (118 ∷ [])) (serialized sample one_put) (omega arith)
      (serialize-serialized sample one_put (omega arith)).0)

new_server-Mirrors : Mirrors sample sample_db 2 new_server agreed_put
new_server-Mirrors = record { machine = refl; index = refl }

node_reads_log_example : IsServing sample sample_db committed agreed_put.log (107 ∷ [])
node_reads_log_example =
    node_reads_log sample sample_db start agreed_put new_server committed 2 [] (107 ∷ [])
      start-IsStart agreed_put-Reach new_server-IsNew new_server-Mirrors committed-Reach refl
