-- ===== src/Server/Lifecycle.antt =====
-- From the constructor of the server to its destructor: src/server/server.cpp. `RpcServers` is what
-- it uses of rpclib's servers; the handlers that `initialize` binds are in the parent module.
use replicated_splinterdb.Base.{ℕ, ok, Exec, pure, ◌>>=◌}
use replicated_splinterdb.Nuraft.{Nuraft, Bytes}
use replicated_splinterdb.SplinterDb.{SplinterDb}
use replicated_splinterdb.StateMgr.{Cluster}
use replicated_splinterdb.Replica.{Raft, Replica, ReplicaConfig, new_replica, shutdown}

pub record RpcServers (W : Type 0) : Type 1 where
  -- rpc::server
  pub Listener : Type 0
  -- Its constructor with an address and a port; it throws where the port is taken.
  pub listen : Bytes → ℕ → Exec W Listener
  pub async_run : ℕ → Listener → W → W
  pub run : Listener → W → W
  pub stop : Listener → W → W

pub record Server (R L : Type 0) : Type 0 where
  pub replica_instance : R
  pub client_srv : L
  pub join_srv : L

module _ {V W A : Type 0} where
  -- A call that changes the first or the second of two worlds.
  abbrev pub on_first : Exec V A → Exec (V × W) A
  on_first m s = ((m s.0).0, ((m s.0).1, s.1))

  abbrev pub on_second : Exec W A → Exec (V × W) A
  on_second m s = ((m s.1).0, (s.0, (m s.1).1))

module _ (n : Nuraft) (db : SplinterDb) (k : Cluster) (raft : Raft n) {W : Type 0}
    (rpc : RpcServers W) where
  open rpc use {Listener}

  abbrev pub ServerOf : Type 0
  ServerOf = Server (Replica db.Db n.Entry k.ClusterConfig k.SrvState) Listener

  -- The constructor: the members in the order of the class.
  unfoldable pub new_server : ℕ → ℕ → ReplicaConfig db.Config → Exec (raft.World × W) ServerOf
  unfolding new_replica
  new_server client_port join_port cfg = do
    replica ← on_first (new_replica n db k raft cfg)
    client_srv ← on_second (rpc.listen cfg.addr client_port)
    join_srv ← on_second (rpc.listen cfg.addr join_port)
    pure (record { replica_instance = replica; client_srv = client_srv; join_srv = join_srv })

  -- Client calls are served by other threads, joining calls by this one.
  unfoldable pub run : ℕ → ServerOf → Exec (raft.World × W) (Unit {0})
  run nthreads srv s =
      (ok tt, (s.0, rpc.run srv.join_srv (rpc.async_run nthreads srv.client_srv s.1)))

  -- The destructor.
  unfoldable pub destroy : ServerOf → Exec (raft.World × W) (Unit {0})
  unfolding shutdown
  destroy srv s =
      (ok tt, (shutdown n raft 5 s.0, rpc.stop srv.join_srv (rpc.stop srv.client_srv s.1)))
