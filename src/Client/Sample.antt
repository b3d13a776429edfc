-- ===== src/Client/Sample.antt =====
-- A network of two servers: a connection is the port of its server, the world counts the calls, and
-- server 1 is the leader.
use replicated_splinterdb.Base.{
  ℕ, suc, false, none, true, List, [], ◌∷◌, ℤ, pos, negsuc, ◌==◌, if◌then◌else◌, ok, Exec,
}
use replicated_splinterdb.Rpc.{RpcMutationResult, RpcServerInfo}
use replicated_splinterdb.ReadPolicy.{round_robin, round_robin_policy}
use replicated_splinterdb.Client.{Net, Client, Clients, Run}

abbrev pub answer : ℤ → RpcMutationResult
answer rc = record { splinterdb_rc = pos 0; raft_rc = rc; raft_msg = [] }

-- Server 1 accepts, the others are not the leader.
abbrev pub mutate : ℕ → Exec ℕ RpcMutationResult
mutate c w = (ok (answer (if c == 1 then pos 0 else negsuc 2)), suc w)

-- "a:1" and "b:2"
abbrev pub two_endpoints : List RpcServerInfo
two_endpoints =
    record { id = pos 1; endpoint = 97 ∷ 58 ∷ 49 ∷ [] }
    ∷ record { id = pos 2; endpoint = 98 ∷ 58 ∷ 50 ∷ [] }
    ∷ []

abbrev pub two_servers : Net
two_servers = record {
  World = ℕ;
  Conn = ℕ;
  connect = λ host port w. (ok port, w);
  set_timeout = λ t c w. w;
  sleep_ms = λ t w. w;
  call_ping = λ c w. (ok (112 ∷ 111 ∷ 110 ∷ 103 ∷ []), suc w);
  call_get_all_servers = λ c w. (ok (record { endpoints = two_endpoints }), suc w);
  call_get_leader_id = λ c w. (ok (pos 1), suc w);
  call_get = λ k c w. (ok (record { value = none; rc = pos 22 }), suc w);
  call_put = λ k v c. mutate c;
  call_update = λ k v c. mutate c;
  call_delete = λ k c. mutate c;
  call_dumpcache = λ d c w. (ok true, suc w);
  call_clearcache = λ c w. (ok true, suc w);
}

abbrev pub both : Clients ℕ
both = (pos 1, 1) ∷ (pos 2, 2) ∷ []

-- A client that takes this server for the leader.
abbrev pub believing : ℤ → Run two_servers ℕ
believing leader = (
  record {
    clients = both;
    read_policy = round_robin_policy (pos 1 ∷ pos 2 ∷ []) 0;
    algo = round_robin;
    leader_id = leader;
    num_retries = 3;
    print_errors = false;
  },
  0,
)

-- What the constructor makes of the two servers.
abbrev pub made : Client ℕ ℕ
made = record (believing (pos 1)).0 { read_policy = round_robin_policy (pos 1 ∷ pos 2 ∷ []) 0 }
