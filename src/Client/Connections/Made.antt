-- ===== src/Client/Connections/Made.antt =====
-- What the constructor of the client returns, step by step.
use replicated_splinterdb.Base.{ℕ, ◌>>◌, Bool, [], map, ℤ, pos, exited, Exec, pure, lift, ◌>>=◌}
use replicated_splinterdb.Rpc.{RpcClusterEndpoints}
use replicated_splinterdb.ReadPolicy.{ReadPolicy, Chance, Algorithm, new_policy}
use replicated_splinterdb.Client.{Net, Clients, Client, catch}
use replicated_splinterdb.Client.Connect.{greet, connect_all, set_timeouts}

module _ (net : Net) (chance : Chance) where
  open net use {World, Conn}
  open chance use {Rng}

  -- What the constructor does with the connection to the given server, with its answers, and with the
  -- connections.
  module _ (algo : Algorithm) (num_tokens timeout_ms num_retries : ℕ) (print_errors : Bool) where
    abbrev with_policy : Clients Conn → ℤ → ReadPolicy Rng → Exec World (Client Conn Rng)
    with_policy clients leader_id policy = pure (record {
      clients = clients;
      read_policy = policy;
      algo = algo;
      leader_id = leader_id;
      num_retries = num_retries;
      print_errors = print_errors;
    })

    abbrev with_clients : ℤ → Clients Conn → Exec World (Client Conn Rng)
    with_clients leader_id clients =
        set_timeouts net timeout_ms clients
        >> (lift (new_policy chance algo (map (λ c. c.0) clients) num_tokens)
            >>= with_policy clients leader_id)

    abbrev with_greeting : RpcClusterEndpoints × ℤ → Exec World (Client Conn Rng)
    with_greeting greeting = connect_all net greeting.0.endpoints [] >>= with_clients greeting.1

    abbrev with_connection : Conn → Exec World (Client Conn Rng)
    with_connection cl = catch (greet net cl) (lift (exited (pos 1))) >>= with_greeting
