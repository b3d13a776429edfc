-- ===== src/Client/Tests.antt =====
-- The theorems on the client, on a network of two servers: a connection is the id of its server, the
-- world counts the calls, and server 1 is the leader.
use replicated_splinterdb.Base.{
  ℕ, suc, ◌≤◌, ◌≡◌, refl, ◌⊎◌, inl, false, none, some, List, [], ◌∷◌, pos, negsuc, ok, throw,
  runtime_error, arith,
}
use replicated_splinterdb.ReadPolicy.{round_robin}
use replicated_splinterdb.Client.{
  Net, find_client, get_leader_handle, retry_loop, retry_mutation, put, update, get_leader_id,
}
use replicated_splinterdb.Client.Sample.{made, answer, two_servers, both, believing}
use replicated_splinterdb.ReadPolicy.{next_server}
use replicated_splinterdb.ReadPolicy.Sample.{counter}
use replicated_splinterdb.Endpoint.{parse_endpoint, valid_port}
use replicated_splinterdb.SplinterDb.Keys.{bytes_eq}
use replicated_splinterdb.Client.{emplace}
use replicated_splinterdb.Client.Connect.{new_client, get}
use replicated_splinterdb.Client.Policy.Calls.{Call, gets, puts, after_calls, get_reaches_server}
use replicated_splinterdb.Client.Leader.{Named, get_leader_id_outcome, get_leader_id_finds}
use replicated_splinterdb.Cluster.{update_request, delete_request}
use replicated_splinterdb.Cluster.Mutations.{mutate as changed}
use replicated_splinterdb.Cluster.Requests.{mutate_answered_by_first_leader, mutate_within}
use replicated_splinterdb.Client.Search.{get_leader_id_cost}
use replicated_splinterdb.Client.Mutation.{Answer}

get_leader_id_outcome_example :
    Named (get_leader_id two_servers 3 both 0).0
    ⊎ ((get_leader_id two_servers 3 both 0).0
        ≡ throw (runtime_error "failed to connect to any server"))
get_leader_id_outcome_example =
    get_leader_id_outcome two_servers (λ c w. inl (pos 1, refl)) 3 both 0

get_leader_id_finds_example : Named (get_leader_id two_servers 3 both 0).0
get_leader_id_finds_example =
    get_leader_id_finds two_servers (λ c w. inl (pos 1, refl)) 3 ((pos 1, 1) ∷ []) [] (pos 2) 2 0
      (omega arith) (λ w. (pos 1, refl, λ e. cc))

-- The client turns to server 1 in its first try, and still asks server 2 in the others.
stale_lem :
    (changed two_servers (update_request [] []) (believing (pos 2))).0 ≡ ok (answer (negsuc 2))
unfolding update get_leader_handle retry_mutation retry_loop
stale_lem = refl

mutate_answered_by_first_leader_example :
    (cl : ℕ) × (find_client (pos 2) both ≡ some cl)
    × Answer two_servers (two_servers.call_update [] [] cl) (answer (negsuc 2))
mutate_answered_by_first_leader_example =
    mutate_answered_by_first_leader two_servers (update_request [] []) (believing (pos 2))
      (answer (negsuc 2)) stale_lem

-- Only mutations are counted.
abbrev quiet_servers : Net
quiet_servers = record two_servers { call_get_leader_id = λ c w. (ok (pos 1), w) }

mutate_within_example : (changed quiet_servers (delete_request []) (believing (pos 2))).1.1 ≤ 3
mutate_within_example =
    mutate_within quiet_servers (λ w. w) (delete_request []) (believing (pos 2)) (λ c w. refl)
      (λ d w. refl) (λ c w. omega arith)

-- A network without a leader, whose world counts the questions about it.
abbrev no_leader : Net
no_leader = record two_servers { call_get_leader_id = λ c w. (ok (negsuc 0), suc w) }

get_leader_id_cost_example : (get_leader_id no_leader 3 both 0).1 ≤ 6
get_leader_id_cost_example =
    get_leader_id_cost no_leader (λ w. w) 1 0 (λ c w. omega arith) (λ d w. omega arith) 3 both 0

made_lem : (new_client two_servers counter [] 1 round_robin 3 10000 3 false 0).0 ≡ ok made
unfolding new_client parse_endpoint valid_port emplace bytes_eq
made_lem = refl

-- The third get, after two gets and a put, goes to server 1 again.
abbrev gets_and_put : List Call
gets_and_put = gets [] none ∷ puts [] [] ∷ gets [] none ∷ []

picked_lem :
    (next_server counter []
      (after_calls two_servers counter gets_and_put (made, 0)).0.read_policy).0
    ≡ ok (pos 1)
unfolding next_server get put get_leader_handle retry_mutation
picked_lem = refl

get_reaches_server_example :
    (cl : ℕ) × (find_client
        (pos 1)
        (after_calls two_servers counter gets_and_put (made, 0)).0.clients
      ≡ some cl)
    × ((get two_servers counter [] none (after_calls two_servers counter gets_and_put (made, 0))).0
        ≡ (two_servers.call_get [] cl (after_calls two_servers counter gets_and_put (made, 0)).1).0)
get_reaches_server_example =
    get_reaches_server two_servers counter [] 1 round_robin 3 10000 3 false 0 0 made gets_and_put []
      (pos 1) made_lem picked_lem
