-- ===== src/Replica.antt =====
-- A server of the cluster: include/replicated-splinterdb/server/replica_config.h, replica.h and
-- src/server/replica.cpp. Log files and messages are left out. `Raft` is what it uses of the Raft
-- library's launcher and server, a git submodule.
pub mod Made
pub mod Read
pub mod Sample
pub mod Start
mod Tests
use replicated_splinterdb.Base.{
  ℕ, zero, suc, ◌/◌, ◌∷◌, ◌++◌, max, Bool, true, false, not, Option, none, some, List, [], ℤ, pos,
  negsuc, ◌==ℤ◌, is_negative, ◌||◌, if◌then◌else◌, Result, ok, throw, exited, invalid_argument,
  runtime_error, bind, Exec, pure, raise, lift, ◌>>=◌, ◌>>◌,
}
use replicated_splinterdb.Nuraft.{Nuraft, Bytes}
use replicated_splinterdb.SplinterDb.{SplinterDb}
use replicated_splinterdb.Operation.{SplinterdbOperation, serialize}
use replicated_splinterdb.Endpoint.{endpoint}
use replicated_splinterdb.StateMachine.{SplinterdbStateMachine, new_state_machine}
use replicated_splinterdb.StateMgr.{SrvConfig, Cluster, InmemStateMgr, new_state_mgr}

-- raft_params::return_method_type
pub data ReturnMethod : Type 0 where
  blocking async_handler : ReturnMethod

-- The fields of raft_params that are set.
pub record RaftParams : Type 0 where
  pub heart_beat_interval : ℕ
  pub election_timeout_lower_bound : ℕ
  pub election_timeout_upper_bound : ℕ
  pub reserved_log_items : ℕ
  pub client_req_timeout : ℕ
  pub return_method : ReturnMethod
  pub auto_forwarding : Bool
  pub snapshot_distance : ℕ

unfoldable pub default_raft_params_init : RaftParams → RaftParams
default_raft_params_init params = record params {
  heart_beat_interval = 100;
  election_timeout_lower_bound = 300;
  election_timeout_upper_bound = 500;
  reserved_log_items = 1000000;
  client_req_timeout = 3000;
  return_method = blocking;
  auto_forwarding = true;
}

-- nuraft::cmd_result; `none` for the null pointer
pub record RaftResult (B : Type 0) : Type 0 where
  pub accepted : Bool
  pub has_result : Bool
  pub result_code : ℤ
  pub result_str : Bytes
  pub result : Option B

pub record Raft (n : Nuraft) : Type 1 where
  pub World : Type 0
  -- the parameters as their constructor leaves them
  pub new_params : RaftParams
  -- launcher.init with a port, a number of threads and parameters: whether there is an instance
  pub init : ℕ → ℕ → RaftParams → World → Bool × World
  pub is_initialized : World → Bool
  pub sleep_ms : ℕ → World → World
  pub shutdown : ℕ → World → World
  pub append_entries : n.Buffer → World → RaftResult n.Buffer × World
  pub add_srv : SrvConfig → World → RaftResult n.Buffer × World
  pub get_leader : World → ℤ
  pub get_srv_config_all : World → List SrvConfig

pub record ReplicaConfig (C : Type 0) : Type 0 where
  pub server_id : ℤ
  pub raft_port : ℕ
  pub client_port : ℕ
  pub addr : Bytes
  pub asio_thread_pool_size : ℕ
  pub snapshot_frequency : ℤ
  pub initialization_delay_ms : ℕ
  pub initialization_retries : ℕ
  pub splinterdb_cfg : C
  pub return_method : ReturnMethod

-- The constructor, on a machine with this many hardware threads; the address is "localhost".
unfoldable pub new_replica_config : {C : Type 0} → ℕ → C → ReplicaConfig C
new_replica_config hardware_concurrency splinterdb_cfg = record {
  server_id = pos 0;
  raft_port = 25000;
  client_port = 25001;
  addr = 108 ∷ 111 ∷ 99 ∷ 97 ∷ 108 ∷ 104 ∷ 111 ∷ 115 ∷ 116 ∷ [];
  asio_thread_pool_size = max (hardware_concurrency / 2) 4;
  snapshot_frequency = pos 0;
  initialization_delay_ms = 250;
  initialization_retries = 20;
  splinterdb_cfg = splinterdb_cfg;
  return_method = blocking;
}

-- std::max(0, frequency)
unfoldable pub snapshot_distance : ℤ → ℕ
snapshot_distance (pos f) = f
snapshot_distance (negsuc f) = 0

-- frequency <= 0
unfoldable pub disable_snapshots : ℤ → Bool
disable_snapshots f = is_negative f || f ==ℤ pos 0

module _ (n : Nuraft) (raft : Raft n) where
  open raft use {World}

  -- The loop that waits for the Raft server; `exit(-1)` after the last turn.
  unfoldable pub wait_ready : ℕ → ℕ → Exec World (Unit {0})
  wait_ready delay_ms zero w = (exited (negsuc 0), w)
  wait_ready delay_ms (suc retries) w =
      let rest = wait_ready delay_ms retries (raft.sleep_ms delay_ms w) in
      if raft.is_initialized w then (ok tt, w) else rest

  unfoldable pub initialize : {C : Type 0} → ReplicaConfig C → Exec World (Unit {0})
  unfolding default_raft_params_init wait_ready snapshot_distance
  initialize config w =
      let params = record (default_raft_params_init raft.new_params) {
        snapshot_distance = snapshot_distance config.snapshot_frequency;
        return_method = config.return_method;
      } in
      let r = raft.init config.raft_port config.asio_thread_pool_size params w in
      if r.0
      then wait_ready config.initialization_delay_ms config.initialization_retries r.1
      else (exited (negsuc 0), r.1)

  unfoldable pub shutdown : ℕ → World → World
  shutdown time_limit_sec w = raft.shutdown time_limit_sec w

  unfoldable pub append_log :
      {C : Type 0} → ReplicaConfig C → SplinterdbOperation → Exec World (RaftResult n.Buffer)
  append_log config op = lift (serialize n op) >>= λ new_log w.
      let r = raft.append_entries new_log w in
      elim config.return_method [
        | blocking ↦ (ok r.0, r.1)
        | async_handler ↦ (throw (runtime_error "async handler not implemented"), r.1)
      ]

  unfoldable pub add_server : ℤ → Bytes → Bytes → Exec World (ℤ × Bytes)
  add_server server_id raft_endpoint client_endpoint w =
      let r =
        raft.add_srv
          (record {
            id = server_id;
            dc_id = pos 0;
            endpoint = raft_endpoint;
            aux = client_endpoint;
            learner = false;
          })
          w in
      (ok (r.0.result_code, r.0.result_str), r.1)

module _ (db : SplinterDb) where
  open db use {Db}

  -- What the workers of the server and two of its handlers do with the handle of the state machine.
  unfoldable pub register_thread : Db → Db
  register_thread d = db.register_thread d

  unfoldable pub dump_cache : Bytes → Db → Db
  dump_cache directory d = db.print_cache directory d

  unfoldable pub clear_cache : Db → Db
  clear_cache d = db.clear_cache d

  -- The value, if there is one, and the code of the call that decided.
  unfoldable pub read : Bytes → Db → Option Bytes × ℤ
  read key d =
      let looked = db.lookup key d in
      let value = db.lookup_result_value looked.1 in
      if not (looked.0 ==ℤ pos 0)
      then (none, looked.0)
      else if not (value.0 ==ℤ pos 0)
      then (none, value.0)
      else (some value.1, value.0)

-- What the constructor sets up; the other members are for logging or are the Raft library's.
pub record Replica (D E C S : Type 0) : Type 0 where
  pub server_id : ℤ
  pub addr : Bytes
  pub raft_port : ℕ
  pub raft_endpoint : Bytes
  pub client_endpoint : Bytes
  pub sm : SplinterdbStateMachine D Bytes
  pub smgr : InmemStateMgr E C S

module _ (n : Nuraft) (db : SplinterDb) (k : Cluster) (raft : Raft n) where
  -- The constructor: an id of 0 is refused, and the wait for the Raft server is its last part.
  unfoldable pub new_replica :
      ReplicaConfig db.Config → Exec raft.World (Replica db.Db n.Entry k.ClusterConfig k.SrvState)
  unfolding endpoint new_state_machine new_state_mgr initialize disable_snapshots
  new_replica config =
      let raft_endpoint = endpoint config.addr config.raft_port in
      let client_endpoint = endpoint config.addr config.client_port in
      if config.server_id ==ℤ pos 0 then raise (invalid_argument "server_id must be set") else do
        sm ← lift (
            new_state_machine n db config.splinterdb_cfg
              (disable_snapshots config.snapshot_frequency))
        initialize n raft config
        pure (record {
          server_id = config.server_id;
          addr = config.addr;
          raft_port = config.raft_port;
          raft_endpoint = raft_endpoint;
          client_endpoint = client_endpoint;
          sm = sm;
          smgr = new_state_mgr n k config.server_id raft_endpoint client_endpoint;
        })
