-- ===== src/Cli/Launch/Join.antt =====
-- The way from the flags of a server with a seed to a server that takes calls.
use replicated_splinterdb.Base.{
  ℕ, ◌≡◌, ◌≢◌, true, refl, Bool-cases, inl, inr, [], ◌∷◌, ℤ, pos, ◌==ℤ◌, ==ℤ_iff, ap, ◌∙◌,
  runtime_error, ok, exited, Exec, pure, lift, raise, ◌>>=◌, ◌>>◌, bind_ok, arith, if◌then◌else◌,
}
use replicated_splinterdb.Nuraft.{Nuraft, Bytes}
use replicated_splinterdb.SplinterDb.{SplinterDb}
use replicated_splinterdb.Endpoint.{endpoint, parse_endpoint, valid_port}
use replicated_splinterdb.StateMgr.{Cluster}
use replicated_splinterdb.Replica.{Raft, ReplicaConfig}
use replicated_splinterdb.Server.Lifecycle.{RpcServers, new_server}
use replicated_splinterdb.Client.Connect.{port_number}
use replicated_splinterdb.Cli.{Joining, try_join_cluster}
use replicated_splinterdb.Cli.Launch.{
  Flags, SplinterdbConfig, as_u16, replica_config_of, join_seed, serve, launch, main,
}

-- The seed has answered a joining call of this server, made over a connection to its endpoint, with 0.
pub record Joined (j : Joining) (seed : Bytes) (server_id : ℤ) (addr : Bytes)
    (raft_port client_port : ℕ) : Type 0 where
  pub host : Bytes
  pub port : ℤ
  pub parsed : parse_endpoint seed ≡ ok (host, port)
  pub valid : valid_port port ≡ true
  pub before : j.World
  pub client : j.Conn
  pub connected : (j.connect host (port_number port) before).0 ≡ ok client
  pub msg : Bytes
  pub answered :
      (j.call_join server_id
        (endpoint addr raft_port)
        (endpoint addr client_port)
        client
        (j.connect host (port_number port) before).1).0
      ≡ ok (pos 0, msg)

module _ (j : Joining) (seed : Bytes) (server_id : ℤ) (addr : Bytes)
    (raft_port client_port : ℕ) where
  -- What is done with the answer, with the connection, and with the endpoint of the seed.
  abbrev accept : ℤ × Bytes → Exec j.World (Unit {0})
  accept answer = if answer.0 ==ℤ pos 0 then pure tt else lift (exited (pos 1))

  abbrev ask : j.Conn → Exec j.World (Unit {0})
  ask client =
      j.call_join server_id (endpoint addr raft_port) (endpoint addr client_port) client >>= accept

  abbrev reach : Bytes × ℤ → Exec j.World (Unit {0})
  reach e =
      if valid_port e.1
      then j.connect e.0 (port_number e.1) >>= ask
      else raise (runtime_error "invalid port number for host")

  accepted_lem : (answer : ℤ × Bytes) (w : j.World) → (accept answer w).0 ≡ ok tt → answer.0 ≡ pos 0
  accepted_lem answer w h = elim (Bool-cases (answer.0 ==ℤ pos 0)) [
    | inl zero_code ↦ (==ℤ_iff answer.0 (pos 0)).0 zero_code
    | inr other ↦ absurd (cc (rw other at h))
  ]

  reach-Joined :
      (e : Bytes × ℤ) (w : j.World)
      → parse_endpoint seed ≡ ok e
      → (reach e w).0 ≡ ok tt
      → Joined j seed server_id addr raft_port client_port
  reach-Joined e w parsed h = elim (Bool-cases (valid_port e.1)) [
    | inl valid ↦
        let (client, connected, rest) =
          bind_ok (j.connect e.0 (port_number e.1)) ask w tt (rw valid at h) in
        let (answer, answered, accepted) =
          bind_ok
            (j.call_join server_id (endpoint addr raft_port) (endpoint addr client_port) client)
            accept (j.connect e.0 (port_number e.1) w).1 tt rest in
        record {
          host = e.0;
          port = e.1;
          parsed = parsed;
          valid = valid;
          before = w;
          client = client;
          connected = connected;
          msg = answer.1;
          answered = answered ∙ ap (λ z. ok (z, answer.1)) (accepted_lem answer _ accepted);
        }
    | inr bad ↦ absurd (cc (rw bad at h))
  ]

  try_join_cluster-Joined :
      (w : j.World)
      → (try_join_cluster j seed server_id addr raft_port client_port w).0 ≡ ok tt
      → Joined j seed server_id addr raft_port client_port
  unfolding try_join_cluster
  try_join_cluster-Joined w h =
      let (e, parsed, rest) = bind_ok (lift (parse_endpoint seed)) reach w tt h in
      reach-Joined e w parsed rest

module _ (n : Nuraft) (db : SplinterDb) (k : Cluster) (raft : Raft n) (j : Joining)
    (rpc : RpcServers j.World) (to_config : SplinterdbConfig → db.Config)
    (hardware_concurrency : ℕ) where
  abbrev config_of : Flags → ReplicaConfig db.Config
  config_of f = replica_config_of to_config hardware_concurrency f

  join_seed-Joined :
      (seed : Bytes) (cfg : ReplicaConfig db.Config) (s : raft.World × j.World)
      → seed ≢ []
      → (join_seed n db k raft j rpc to_config hardware_concurrency seed cfg s).0 ≡ ok tt
      → Joined j seed cfg.server_id cfg.addr cfg.raft_port cfg.client_port
  unfolding join_seed
  join_seed-Joined [] cfg s seeded h = absurd (seeded refl)
  join_seed-Joined (c ∷ seed) cfg s seeded h =
      try_join_cluster-Joined j (c ∷ seed) cfg.server_id cfg.addr cfg.raft_port cfg.client_port s.1
        h

  launch-Joined :
      (f : Flags) (s : raft.World × j.World)
      → f.seed ≢ []
      → (launch n db k raft j rpc to_config hardware_concurrency f s).0 ≡ ok (pos 0)
      → Joined j f.seed f.serverid
          (config_of f).addr
          (config_of f).raft_port
          (config_of f).client_port
  unfolding launch replica_config_of
  launch-Joined f s seeded served =
      let join : Exec (raft.World × j.World) (Unit {0}) =
        join_seed n db k raft j rpc to_config hardware_concurrency f.seed (config_of f) in
      let (srv, started, rest) =
        bind_ok (new_server n db k raft rpc (as_u16 f.clientport) (as_u16 f.joinport) (config_of f))
          (λ srv. join >> serve n db k raft j rpc to_config hardware_concurrency f srv) s (pos 0)
          served in
      let (done, joined, ended) =
        bind_ok join (λ _. serve n db k raft j rpc to_config hardware_concurrency f srv) _ (pos 0)
          rest in
      join_seed-Joined f.seed (config_of f) _ seeded joined

  main_launches :
      (f : Flags) (s : raft.World × j.World)
      → (main n db k raft j rpc to_config hardware_concurrency f s).0 ≡ ok (pos 0)
      → (launch n db k raft j rpc to_config hardware_concurrency f s).0 ≡ ok (pos 0)
  unfolding main
  main_launches f s served = ground arith

  -- If the main function of the server, with a seed given, returns 0, the seed has been asked: its
  -- endpoint was read as a host and a valid port, a connection to them was made, and the call on it
  -- with the id and the two endpoints of this server was answered with the code 0.
  pub served_after_join :
      (f : Flags) (s : raft.World × j.World)
      → f.seed ≢ []
      → (main n db k raft j rpc to_config hardware_concurrency f s).0 ≡ ok (pos 0)
      → Joined j f.seed f.serverid
          (config_of f).addr
          (config_of f).raft_port
          (config_of f).client_port
  served_after_join f s seeded served = launch-Joined f s seeded (main_launches f s served)
