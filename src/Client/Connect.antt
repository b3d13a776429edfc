-- ===== src/Client/Connect.antt =====
-- The constructor of the client, and the operations that go by its read policy.
use replicated_splinterdb.Base.{
  ℕ, Bool, true, false, Option, none, some, List, [], ◌∷◌, map, ℤ, pos, negsuc, if◌then◌else◌, ok,
  undefined, exited, runtime_error, Exec, pure, raise, lift, ◌>>=◌, ◌>>◌,
}
use replicated_splinterdb.Nuraft.{Bytes}
use replicated_splinterdb.SplinterDb.Keys.{bytes_eq}
use replicated_splinterdb.Rpc.{RpcReadResult, RpcServerInfo, RpcClusterEndpoints}
use replicated_splinterdb.Endpoint.{parse_endpoint, valid_port}
use replicated_splinterdb.ReadPolicy.{
  Chance, Algorithm, fixed, new_policy, next_server, set_mapping,
}
use replicated_splinterdb.Client.{Net, Clients, Client, Run, find_client, emplace, catch, on_world}

-- "pong"
abbrev pub pong : Bytes
pong = 112 ∷ 111 ∷ 110 ∷ 103 ∷ []

-- static_cast<uint16_t> of a port in its range
abbrev pub port_number : ℤ → ℕ
port_number (pos p) = p
port_number (negsuc p) = 0

abbrev is_fixed : Algorithm → Bool
is_fixed fixed = true
is_fixed _ = false

module _ (net : Net) where
  open net use {World, Conn}

  -- The try block of the constructor.
  unfoldable pub greet : Conn → Exec World (RpcClusterEndpoints × ℤ)
  greet cl = do
    answer ← net.call_ping cl
    (if bytes_eq answer pong
        then pure tt
        else raise (runtime_error "server returned unexpected response"))
    srvs ← net.call_get_all_servers cl
    leader_id ← net.call_get_leader_id cl
    pure (srvs, leader_id)

  -- One turn of the loop over the servers, and the rest of it. A server that does not accept the
  -- connection is skipped; the message about a bad port is cut to its constant part.
  unfoldable pub connect_all : List RpcServerInfo → Clients Conn → Exec World (Clients Conn)
  unfolding catch
  connect_all [] cs = pure cs
  connect_all (srv ∷ srvs) cs =
      let go_on = connect_all srvs in
      lift (parse_endpoint srv.endpoint) >>= λ e.
      if valid_port e.1
      then catch (net.connect e.0 (port_number e.1) >>= λ c. pure (emplace srv.id c cs)) (pure cs)
        >>= go_on
      else raise (runtime_error "invalid port number for host")

  unfoldable pub set_timeouts : ℕ → Clients Conn → Exec World (Unit {0})
  set_timeouts timeout_ms [] w = (ok tt, w)
  set_timeouts timeout_ms ((id, c) ∷ cs) w =
      set_timeouts timeout_ms cs (net.set_timeout timeout_ms c w)

  module _ (chance : Chance) where
    open chance use {Rng}

    unfoldable pub new_client :
        Bytes → ℕ → Algorithm → ℕ → ℕ → ℕ → Bool → Exec World (Client Conn Rng)
    unfolding catch greet connect_all set_timeouts new_policy
    new_client host port read_algo rp_num_tokens timeout_ms num_retries print_errors = do
      cl ← net.connect host port
      greeting ← catch (greet cl) (lift (exited (pos 1)))
      clients ← connect_all greeting.0.endpoints []
      set_timeouts timeout_ms clients
      policy ← lift (new_policy chance read_algo (map (λ c. c.0) clients) rp_num_tokens)
      pure (record {
        clients = clients;
        read_policy = policy;
        algo = read_algo;
        leader_id = greeting.1;
        num_retries = num_retries;
        print_errors = print_errors;
      })

    -- The server asked for, or that of the read policy.
    unfoldable pub target_server : Bytes → Option ℤ → Exec (Run net Rng) ℤ
    unfolding next_server
    target_server key (some server) s = (ok server, s)
    target_server key none s =
        let r = next_server chance key s.0.read_policy in
        (r.0, (record s.0 { read_policy = r.1 }, s.1))

    -- Following the end of the map is undefined.
    unfoldable pub get : Bytes → Option ℤ → Exec (Run net Rng) RpcReadResult
    unfolding target_server find_client on_world
    get key server = target_server key server >>= λ target s.
        elim (find_client target s.0.clients) [
          | none ↦ (undefined, s)
          | some c ↦ on_world (net.call_get key c) s
        ]

    unfoldable pub set_fixed_key_mapping : List (Bytes × ℕ) → Client Conn Rng → Client Conn Rng
    unfolding set_mapping
    set_fixed_key_mapping m c =
        if is_fixed c.algo then record c { read_policy = set_mapping m c.read_policy } else c
