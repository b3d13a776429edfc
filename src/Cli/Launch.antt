-- ===== src/Cli/Launch.antt =====
-- The main function of apps/spl_server.cpp: from the flags to a server that runs. gflags, which reads
-- the flags, makes the process end where a validator refuses one. The structs of SplinterDB and its
-- data configuration are the fields that are set here, the others are zero or the library's defaults.
pub mod Config
pub mod Join
use replicated_splinterdb.Base.{
  ℕ, ◌+◌, ◌-◌, ◌*◌, ◌%◌, Bool, true, false, ◌&&◌, List, [], ◌∷◌, ◌++◌, ℤ, pos, negsuc, u64,
  if◌then◌else◌, Exec, pure, ◌>>=◌, ◌>>◌, is_negative, ◌==ℤ◌, ◌||◌, not, exited, lift, ◌^◌,
}
use replicated_splinterdb.Nuraft.{Nuraft, Bytes}
use replicated_splinterdb.SplinterDb.{SplinterDb}
use replicated_splinterdb.SplinterDb.Keys.{bytes_eq}
use replicated_splinterdb.Endpoint.{to_string}
use replicated_splinterdb.StateMgr.{Cluster}
use replicated_splinterdb.Replica.{Raft, ReplicaConfig, new_replica_config}
use replicated_splinterdb.Server.Lifecycle.{
  RpcServers, ServerOf, new_server, run, destroy, on_second,
}
use replicated_splinterdb.Cli.{Joining, try_join_cluster, validate_port, validate_nthreads}

pub record Flags : Type 0 where
  pub serverid : ℤ
  pub bind : Bytes
  pub raftport : ℤ
  pub joinport : ℤ
  pub clientport : ℤ
  pub seed : Bytes
  pub nthreads : ℤ
  pub dbfilesize : ℕ
  pub cachesize : ℕ
  pub maxkeysize : ℕ

-- DEFINE_validator for each of the four flags.
unfoldable pub are_valid : Flags → Bool
unfolding validate_port validate_nthreads
are_valid f =
    validate_port f.raftport
    && validate_port f.clientport
    && validate_port f.joinport
    && validate_nthreads f.nthreads

-- splinterdb_config, with the greatest key size of its data configuration
pub record SplinterdbConfig : Type 0 where
  pub filename : Bytes
  pub disk_size : ℕ
  pub cache_size : ℕ
  pub max_key_size : ℕ
  pub use_stats : Bool
  pub cache_use_stats : Bool

-- static_cast<uint16_t>
unfoldable pub as_u16 : ℤ → ℕ
as_u16 (pos p) = p % 65536
as_u16 (negsuc p) = 65535 - p % 65536

-- The conversion to uint64_t
unfoldable pub as_u64 : ℤ → ℕ
as_u64 (pos p) = p % 2 ^ 64
as_u64 (negsuc p) = 2 ^ 64 - 1 - p % 2 ^ 64

abbrev is_empty : Bytes → Bool
is_empty [] = true
is_empty (c ∷ b) = false

-- FLAGS_serverid < 1
unfoldable pub no_serverid : ℤ → Bool
no_serverid id = is_negative id || id ==ℤ pos 0

-- std::to_string of a server id
abbrev digits_of : ℤ → Bytes
digits_of (pos k) = to_string k
digits_of (negsuc k) = b'-' ∷ to_string (k + 1)

-- "sm-state-" + std::to_string(FLAGS_serverid) + ".db"
unfoldable pub dbname : ℤ → Bytes
dbname id =
    (115 ∷ 109 ∷ 45 ∷ 115 ∷ 116 ∷ 97 ∷ 116 ∷ 101 ∷ 45 ∷ []) ++ digits_of id ++ (46 ∷ 100 ∷ 98 ∷ [])

-- "all" stands for "0.0.0.0".
unfoldable pub bind_address : Bytes → Bytes
bind_address b =
    if bytes_eq b (97 ∷ 108 ∷ 108 ∷ []) then 48 ∷ 46 ∷ 48 ∷ 46 ∷ 48 ∷ 46 ∷ 48 ∷ [] else b

unfoldable pub splinterdb_config_of : Flags → SplinterdbConfig
unfolding dbname
splinterdb_config_of f = record {
  filename = dbname f.serverid;
  disk_size = u64 (u64 (f.dbfilesize * 1024) * 1024);
  cache_size = u64 (u64 (f.cachesize * 1024) * 1024);
  max_key_size = f.maxkeysize;
  use_stats = true;
  cache_use_stats = true;
}

module _ {C : Type 0} (to_config : SplinterdbConfig → C) (hardware_concurrency : ℕ) where
  unfoldable pub replica_config_of : Flags → ReplicaConfig C
  unfolding splinterdb_config_of bind_address as_u16 new_replica_config
  replica_config_of f =
      record (new_replica_config hardware_concurrency (to_config (splinterdb_config_of f))) {
        server_id = f.serverid;
        addr = bind_address f.bind;
        raft_port = as_u16 f.raftport;
        client_port = as_u16 f.clientport;
      }

module _ (n : Nuraft) (db : SplinterDb) (k : Cluster) (raft : Raft n) (j : Joining)
    (rpc : RpcServers j.World) (to_config : SplinterdbConfig → db.Config)
    (hardware_concurrency : ℕ) where
  -- A seed is asked before the server takes calls.
  unfoldable pub join_seed :
      Bytes → ReplicaConfig db.Config → Exec (raft.World × j.World) (Unit {0})
  unfolding try_join_cluster
  join_seed [] cfg = pure tt
  join_seed (c ∷ seed) cfg =
      on_second (try_join_cluster j (c ∷ seed) cfg.server_id cfg.addr cfg.raft_port cfg.client_port)

  -- The server runs until its servers stop, and the program ends.
  unfoldable pub serve : Flags → ServerOf n db k raft rpc → Exec (raft.World × j.World) ℤ
  unfolding run destroy as_u64
  serve f srv = do
    run n db k raft rpc (as_u64 f.nthreads) srv
    destroy n db k raft rpc srv
    pure (pos 0)

  -- A server with checked flags.
  unfoldable pub launch : Flags → Exec (raft.World × j.World) ℤ
  unfolding replica_config_of as_u16 new_server join_seed serve
  launch f =
      let cfg = replica_config_of to_config hardware_concurrency f in
      do
        srv ← new_server n db k raft rpc (as_u16 f.clientport) (as_u16 f.joinport) cfg
        join_seed f.seed cfg
        serve f srv

  unfoldable pub main : Flags → Exec (raft.World × j.World) ℤ
  unfolding are_valid no_serverid launch
  main f =
      if not (are_valid f)
      then lift (exited (pos 1))
      else if no_serverid f.serverid
      then pure (pos 1)
      else if is_empty f.bind
      then pure (pos 1)
      else launch f
