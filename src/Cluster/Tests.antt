-- ===== src/Cluster/Tests.antt =====
-- The theorems on a cluster: an update is agreed on and committed by server 0, the others lag behind.
mod PutThenGet
use replicated_splinterdb.Base.{
  ok_eq, sym, ℕ, suc, ◌-◌, none, List, ◌++◌, length, get_elem?, Exec, Result, throw, undefined,
  exited, ◌≡◌, refl, inr, true, false, some, [], ◌∷◌, take, pos, ok, arith,
}
use replicated_splinterdb.Nuraft.Sample.{sample, PlainBuffer}
use replicated_splinterdb.SplinterDb.Sample.{sample_db, PlainDb}
use replicated_splinterdb.Operation.{SplinterdbOperation, put, make_put, deserialize}
use replicated_splinterdb.Operation.RoundTrip.{
  serialized, serialize-serialized, deserialize-serialized,
}
use replicated_splinterdb.StateMachine.{SplinterdbStateMachine, new_state_machine, commit}
use replicated_splinterdb.StateMachine.Commit.{commit-effect}
use replicated_splinterdb.Server.{handle_get}
use replicated_splinterdb.SplinterDb.Keys.{bytes_eq}
use replicated_splinterdb.Rpc.{RpcReadResult}
use replicated_splinterdb.Endpoint.{parse_endpoint, valid_port}
use replicated_splinterdb.ReadPolicy.{round_robin, next_server}
use replicated_splinterdb.ReadPolicy.Sample.{counter}
use replicated_splinterdb.Client.{Net, find_client, emplace}
use replicated_splinterdb.Client.Connect.{new_client, get}
use replicated_splinterdb.Client.Sample.{two_servers, made}
use replicated_splinterdb.Rpc.{RpcMutationResult, was_accepted}
use replicated_splinterdb.Operation.{serialize}
use replicated_splinterdb.Replica.{ReplicaConfig, new_replica_config}
use replicated_splinterdb.Replica.Sample.{sample_raft}
use replicated_splinterdb.Server.{handle_put}
use replicated_splinterdb.Client.{put as client_put, get_leader_handle, retry_mutation}
use replicated_splinterdb.Cluster.{Request, put_request, delete_request, Agreed}
use replicated_splinterdb.Cluster.Handlers.{handle}
use replicated_splinterdb.Cluster.Mutations.{call, mutate, IsServed, accepted_is_logged}
use replicated_splinterdb.Cluster.Clients.{IsCarried, client_reads_log}
use replicated_splinterdb.Cluster.{
  update_request, logged, app_log, Cluster, update_at, agrees, commits, IsStart, Reach, here, after,
}
use replicated_splinterdb.Cluster.Meaning.{meaning, nothing}
use replicated_splinterdb.Cluster.Reads.{IsAnswer, get_reads_log, get_last_put}

abbrev Running : Type 0
Running = Cluster PlainBuffer PlainDb ℕ

abbrev fresh : SplinterdbStateMachine PlainDb ℕ
fresh = record {
  spl_handle = [];
  last_committed_idx = 0;
  commit_thread_initialized = false;
  snapshots = [];
  disable_snapshots = true;
}

abbrev start : Running
start = record { log = []; machines = λ i. fresh; committed = λ i. 0 }

start-IsStart : IsStart sample sample_db start
unfolding new_state_machine
start-IsStart = record {
  config = λ i. tt;
  disable_snapshots = λ i. true;
  empty_log = refl;
  none_committed = λ i. refl;
  created = λ i. refl;
}

abbrev one_put : SplinterdbOperation
one_put = record { key = 107 ∷ []; value = some (118 ∷ []); type = put }

abbrev one_buffer : PlainBuffer
one_buffer = serialized sample one_put

abbrev agreed : Running
agreed = record start { log = app_log one_buffer ∷ [] }

agreed-Reach : Reach sample sample_db start agreed
unfolding logged make_put
agreed-Reach = after here (
    agrees (update_request (107 ∷ []) (118 ∷ [])) one_buffer (omega arith)
      (serialize-serialized sample one_put (omega arith)).0)

parsed_lem : deserialize sample one_buffer ≡ ok one_put
parsed_lem = deserialize-serialized sample one_put tt (omega arith)

abbrev committed_once : Running
committed_once = record agreed {
  machines = update_at agreed.machines 0 (commit sample sample_db 1 one_buffer fresh).1;
  committed = update_at agreed.committed 0 1;
}

committed_once-Reach : Reach sample sample_db start committed_once
committed_once-Reach =
    after agreed-Reach (commits 0 one_buffer refl (λ op e. ground (arith, e, parsed_lem)))

index_lem : (committed_once.machines 0).last_committed_idx ≡ 1
index_lem = (commit-effect sample sample_db 1 one_buffer one_put fresh parsed_lem tt refl).1

get_reads_log_example :
    IsAnswer
      (meaning sample sample_db
        (take (committed_once.machines 0).last_committed_idx committed_once.log)
        (nothing sample sample_db)
        (107 ∷ []))
      (handle_get sample_db (107 ∷ []) (committed_once.machines 0).spl_handle)
get_reads_log_example =
    get_reads_log sample sample_db start committed_once start-IsStart committed_once-Reach 0
      (107 ∷ [])

get_last_put_example :
    handle_get sample_db (107 ∷ []) (committed_once.machines 0).spl_handle
    ≡ record { value = some (118 ∷ []); rc = pos 0 }
unfolding logged make_put
get_last_put_example =
    get_last_put sample sample_db start committed_once start-IsStart committed_once-Reach 0 0
      one_buffer (107 ∷ []) (118 ∷ []) refl (inr parsed_lem) (omega (arith, index_lem))
      (λ q e h h' at_q. absurd (omega (arith, index_lem)))

-- Two connections, to the servers 0 and 1 of the cluster; a get is carried to the server's handler.
abbrev number : ℕ → ℕ
number c = c - 1

abbrev carried_net : Net
carried_net = record two_servers {
  call_get =
      λ k c w. (ok (handle_get sample_db k (committed_once.machines (number c)).spl_handle), suc w);
}

abbrev always : ℕ → Running
always w = committed_once

carried_net-IsCarried : IsCarried sample sample_db start carried_net always number
carried_net-IsCarried = record {
  runs = λ w. committed_once-Reach;
  carried = λ key cl w r e. (committed_once, here, here, sym (ok_eq e));
}

connected_lem : (new_client carried_net counter [] 1 round_robin 3 10000 3 false 0).0 ≡ ok made
unfolding new_client parse_endpoint valid_port emplace bytes_eq
connected_lem = refl

picked_lem : (next_server counter (107 ∷ []) made.read_policy).0 ≡ ok (pos 1)
unfolding next_server
picked_lem = refl

abbrev got : RpcReadResult
got = handle_get sample_db (107 ∷ []) (committed_once.machines 0).spl_handle

got_lem : (get carried_net counter (107 ∷ []) none (made, 0)).0 ≡ ok got
unfolding get next_server
got_lem = refl

client_reads_log_example :
    (cl : ℕ) × (find_client (pos 1) made.clients ≡ some cl)
    × (d : Running) × Reach sample sample_db committed_once d
    × Reach sample sample_db d committed_once
    × IsAnswer
        (meaning sample sample_db
          (take (d.machines (number cl)).last_committed_idx d.log)
          (nothing sample sample_db)
          (107 ∷ []))
        got
client_reads_log_example =
    client_reads_log sample sample_db start carried_net counter [] 1 round_robin 3 10000 3 false 0 0
      made [] (107 ∷ []) (pos 1) got always number start-IsStart carried_net-IsCarried connected_lem
      picked_lem got_lem

-- A world that is the agreed log: every mutation is handled, accepted and agreed on.
abbrev config : ReplicaConfig (Unit {0})
config = new_replica_config 16 tt

abbrev with_entry : Result PlainBuffer → List (Agreed PlainBuffer) → List (Agreed PlainBuffer)
with_entry (ok buf) log = log ++ app_log buf ∷ []
with_entry _ log = log

abbrev serve : Request → Exec (List (Agreed PlainBuffer)) RpcMutationResult
serve r log =
    ((handle sample sample_raft config r 0).0, with_entry (serialize sample (logged r)) log)

abbrev log_net : Net
log_net = record {
  World = List (Agreed PlainBuffer);
  Conn = ℕ;
  connect = λ host port w. (ok port, w);
  set_timeout = λ t c w. w;
  sleep_ms = λ t w. w;
  call_ping = λ c w. (ok [], w);
  call_get_all_servers = λ c w. (ok (record { endpoints = [] }), w);
  call_get_leader_id = λ c w. (ok (pos 1), w);
  call_get = λ k c w. (ok (record { value = none; rc = pos 22 }), w);
  call_put = λ k v c. serve (put_request k v);
  call_update = λ k v c. serve (update_request k v);
  call_delete = λ k c. serve (delete_request k);
  call_dumpcache = λ d c w. (ok true, w);
  call_clearcache = λ c w. (ok true, w);
}

serve_lem : (r : Request) (cl : ℕ) (w : List (Agreed PlainBuffer)) → call log_net r cl w ≡ serve r w
serve_lem (put_request key value) cl w = refl
serve_lem (update_request key value) cl w = refl
serve_lem (delete_request key) cl w = refl

last_entry_lem :
    (log : List (Agreed PlainBuffer)) (e : Agreed PlainBuffer)
    → get_elem? (log ++ e ∷ []) (length log) ≡ some e
last_entry_lem [] e = refl
last_entry_lem (x ∷ log) e = last_entry_lem log e

with_entry_lem :
    (o : Result PlainBuffer) (buf : PlainBuffer) (log : List (Agreed PlainBuffer))
    → o ≡ ok buf
    → get_elem? (with_entry o log) (length log) ≡ some (app_log buf)
with_entry_lem (ok b) buf log e = rw (sym (ok_eq e)) (last_entry_lem log (app_log b))
with_entry_lem (throw x) buf log e = cc
with_entry_lem undefined buf log e = cc
with_entry_lem (exited c) buf log e = cc

log_net-IsServed : IsServed sample log_net (λ w. w) (λ cl. sample_raft) (λ cl w. 0) (λ cl. config)
log_net-IsServed = record {
  carried = λ r cl w q e. rw (serve_lem r cl w) at e;
  agreed = λ r cl w buf written code. (
    length w,
    rw (serve_lem r cl w) (with_entry_lem (serialize sample (logged r)) buf w written),
  );
}

abbrev done : RpcMutationResult
done = record { splinterdb_rc = pos 0; raft_rc = pos 0; raft_msg = [] }

put_lem : (mutate log_net (put_request (107 ∷ []) (118 ∷ [])) (made, [])).0 ≡ ok done
unfolding client_put get_leader_handle retry_mutation handle_put new_replica_config serialize
    make_put
put_lem = refl

accepted_is_logged_example :
    (p : ℕ) × (buf : PlainBuffer) × (get_elem?
        (mutate log_net (put_request (107 ∷ []) (118 ∷ [])) (made, [])).1.1
        p
      ≡ some (app_log buf))
    × (deserialize sample buf ≡ ok (logged (put_request (107 ∷ []) (118 ∷ []))))
unfolding logged was_accepted
accepted_is_logged_example =
    accepted_is_logged sample log_net (λ w. w) (λ cl. sample_raft) (λ cl w. 0) (λ cl. config)
      (put_request (107 ∷ []) (118 ∷ [])) (made, []) done log_net-IsServed (omega arith) put_lem
      refl
