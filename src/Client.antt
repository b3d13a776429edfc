-- ===== src/Client.antt =====
-- The client of a cluster: include/replicated-splinterdb/client/client.h and src/client/client.cpp.
-- What it prints is left out. `Net` is what it uses of rpclib, a git submodule, and of the clock.
pub mod Accepted
pub mod Bounds
pub mod Connections
pub mod Connect
pub mod Leader
pub mod Mutation
pub mod Policy
pub mod Sample
pub mod Search
mod Tests
use replicated_splinterdb.Base.{
  ℕ, zero, suc, ◌*◌, Bool, true, false, ◌||◌, Option, none, some, List, [], ◌∷◌, map, ℤ, pos,
  negsuc, ◌==ℤ◌, ltb, ◌==◌, u64, if◌then◌else◌, Result, ok, throw, undefined, exited, runtime_error,
  out_of_range, Exec, pure, raise, lift, ◌>>=◌, ◌>>◌,
}
use replicated_splinterdb.Nuraft.{Bytes}
use replicated_splinterdb.SplinterDb.Keys.{bytes_eq}
use replicated_splinterdb.Rpc.{
  RpcReadResult, RpcMutationResult, was_accepted, RpcServerInfo, RpcClusterEndpoints,
}
use replicated_splinterdb.Endpoint.{parse_endpoint, valid_port}
use replicated_splinterdb.ReadPolicy.{
  Chance, Algorithm, fixed, ReadPolicy, new_policy, next_server, set_mapping,
}

-- Each call of a connection may throw.
pub record Net : Type 1 where
  pub World : Type 0
  -- rpc::client
  pub Conn : Type 0
  pub connect : Bytes → ℕ → Exec World Conn
  pub set_timeout : ℕ → Conn → World → World
  pub sleep_ms : ℕ → World → World
  pub call_ping : Conn → Exec World Bytes
  pub call_get_all_servers : Conn → Exec World RpcClusterEndpoints
  pub call_get_leader_id : Conn → Exec World ℤ
  pub call_get : Bytes → Conn → Exec World RpcReadResult
  pub call_put : Bytes → Bytes → Conn → Exec World RpcMutationResult
  pub call_update : Bytes → Bytes → Conn → Exec World RpcMutationResult
  pub call_delete : Bytes → Conn → Exec World RpcMutationResult
  pub call_dumpcache : Bytes → Conn → Exec World Bool
  pub call_clearcache : Conn → Exec World Bool

-- Connections by server id, in the order of the ids.
abbrev pub Clients : Type 0 → Type 0
Clients C = List (ℤ × C)

pub record Client (C R : Type 0) : Type 0 where
  pub clients : Clients C
  pub read_policy : ReadPolicy R
  pub algo : Algorithm
  pub leader_id : ℤ
  pub num_retries : ℕ
  pub print_errors : Bool

abbrev before : ℤ → ℤ → Bool
before (pos a) (pos b) = ltb a b
before (pos a) (negsuc b) = false
before (negsuc a) (pos b) = true
before (negsuc a) (negsuc b) = ltb b a

module _ {C : Type 0} where
  unfoldable pub find_client : ℤ → Clients C → Option C
  find_client id [] = none
  find_client id ((i, c) ∷ cs) = if i ==ℤ id then some c else find_client id cs

  -- clients_.emplace: an id that is there keeps its connection.
  unfoldable pub emplace : ℤ → C → Clients C → Clients C
  emplace id c [] = (id, c) ∷ []
  emplace id c ((i, d) ∷ cs) =
      let rest = emplace id c cs in
      if i ==ℤ id then (i, d) ∷ cs else if before id i then (id, c) ∷ (i, d) ∷ cs else (i, d) ∷ rest

-- try { m } catch (const std::exception&) { h }
unfoldable pub catch : {S A : Type 0} → Exec S A → Exec S A → Exec S A
catch m h s = elim (m s).0 [
  | ok a ↦ (ok a, (m s).1)
  | throw e ↦ h (m s).1
  | undefined ↦ (undefined, (m s).1)
  | exited c ↦ (exited c, (m s).1)
]

-- A result that no call has set is not initialised.
unfoldable pub initialised : Option RpcMutationResult → Result RpcMutationResult
initialised none = undefined
initialised (some r) = ok r

-- The state of a method of the client.
abbrev pub Run : Net → Type 0 → Type 0
Run net R = Client net.Conn R × net.World

module _ {W S A : Type 0} where
  -- A call that changes the world beside a state of its own.
  unfoldable pub on_world : Exec W A → Exec (S × W) A
  on_world m s = ((m s.1).0, (s.0, (m s.1).1))

module _ (net : Net) where
  open net use {World, Conn}

  -- Sleeps for the delay and doubles it.
  unfoldable pub back_off : Exec (ℕ × World) (Unit {0})
  back_off s = (ok tt, (u64 (s.0 * 2), net.sleep_ms s.0 s.1))

  -- The inner loop of get_leader_id, with `tries` turns left.
  unfoldable pub poll : ℕ → Conn → Exec (ℕ × World) ℤ
  unfolding on_world back_off
  poll zero c = raise (runtime_error "no live leader")
  poll (suc tries) c =
      let rest = poll tries c in
      on_world (net.call_get_leader_id c) >>= λ leader_id.
      if leader_id ==ℤ negsuc 0 then back_off >> rest else pure leader_id

  -- The outer loop.
  unfoldable pub ask_all : ℕ → Clients Conn → Exec (ℕ × World) ℤ
  unfolding poll catch
  ask_all num_retries [] = raise (runtime_error "failed to connect to any server")
  ask_all num_retries ((srv_id, c) ∷ cs) =
      let rest = ask_all num_retries cs in catch (poll num_retries c) (back_off >> rest)

  unfoldable pub get_leader_id : ℕ → Clients Conn → Exec World ℤ
  unfolding ask_all
  get_leader_id num_retries clients w =
      ((ask_all num_retries clients (100, w)).0, (ask_all num_retries clients (100, w)).1.1)

  unfoldable pub get_all_servers : Clients Conn → Exec World RpcClusterEndpoints
  unfolding catch
  get_all_servers [] = raise (runtime_error "failed to connect to any server")
  get_all_servers ((srv_id, c) ∷ cs) =
      let rest = get_all_servers cs in catch (net.call_get_all_servers c) rest

  -- A call on every connection, whose answer is only printed.
  unfoldable pub call_each : (Conn → Exec World Bool) → Clients Conn → Exec World (Unit {0})
  call_each f [] = pure tt
  call_each f ((id, c) ∷ cs) = let rest = call_each f cs in f c >>= λ result. rest

  unfoldable pub trigger_cache_dumps : Bytes → Clients Conn → Exec World (Unit {0})
  unfolding call_each
  trigger_cache_dumps directory = call_each (net.call_dumpcache directory)

  unfoldable pub trigger_cache_clear : Clients Conn → Exec World (Unit {0})
  unfolding call_each
  trigger_cache_clear = call_each net.call_clearcache

  module _ {R : Type 0} where
    unfoldable pub get_leader_handle : Exec (Run net R) Conn
    unfolding find_client
    get_leader_handle s = elim (find_client s.0.leader_id s.0.clients) [
      | none ↦ (throw (out_of_range "map::at"), s)
      | some c ↦ (ok c, s)
    ]

    -- `leader_id_ = get_leader_id()`
    unfoldable pub renew_leader : Exec (Run net R) Bool
    unfolding get_leader_id
    renew_leader s =
        (on_world (get_leader_id s.0.num_retries s.0.clients) >>= λ id t.
        (ok true, (record t.0 { leader_id = id }, t.1)))
          s

    unfoldable pub try_handle_leader_change : ℤ → Exec (Run net R) Bool
    unfolding renew_leader
    try_handle_leader_change raft_result_code =
        if raft_result_code ==ℤ negsuc 2 || raft_result_code ==ℤ negsuc 0
        then renew_leader
        else pure false

    unfoldable pub sleep : ℕ → Exec (Run net R) (Unit {0})
    sleep delay_ms s = (ok tt, (s.0, net.sleep_ms delay_ms s.1))

    -- What the loop of retry_mutation does with an answer; `again` is the rest of the loop.
    unfoldable pub after_result :
        RpcMutationResult
        → ℕ
        → (ℕ → Option RpcMutationResult → Exec (Run net R) RpcMutationResult)
        → Exec (Run net R) RpcMutationResult
    unfolding try_handle_leader_change sleep was_accepted
    after_result result delay_ms again =
        if was_accepted result
        then pure result
        else if result.raft_rc ==ℤ pos 999
        then pure result
        else try_handle_leader_change result.raft_rc >>= λ changed.
            if changed
            then sleep delay_ms >> again (u64 (delay_ms * 2)) (some result)
            else again delay_ms (some result)

    -- The loop of retry_mutation, with `tries` turns left and the last result.
    unfoldable pub retry_loop :
        ℕ
        → Exec World RpcMutationResult
        → ℕ
        → Option RpcMutationResult
        → Exec (Run net R) RpcMutationResult
    unfolding on_world after_result initialised
    retry_loop zero f delay_ms last = lift (initialised last)
    retry_loop (suc tries) f delay_ms last =
        let again = retry_loop tries f in
        on_world f >>= λ result. after_result result delay_ms again

    unfoldable pub retry_mutation :
        Exec World RpcMutationResult → Exec (Run net R) RpcMutationResult
    unfolding retry_loop
    retry_mutation f s = retry_loop s.0.num_retries f 100 none s

    -- The three mutations bind the handle of the leader first and retry with that handle.
    unfoldable pub put : Bytes → Bytes → Exec (Run net R) RpcMutationResult
    unfolding get_leader_handle retry_mutation
    put key value = get_leader_handle >>= λ cl. retry_mutation (net.call_put key value cl)

    unfoldable pub update : Bytes → Bytes → Exec (Run net R) RpcMutationResult
    unfolding get_leader_handle retry_mutation
    update key value = get_leader_handle >>= λ cl. retry_mutation (net.call_update key value cl)

    unfoldable pub del : Bytes → Exec (Run net R) RpcMutationResult
    unfolding get_leader_handle retry_mutation
    del key = get_leader_handle >>= λ cl. retry_mutation (net.call_delete key cl)
