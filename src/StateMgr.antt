-- ===== src/StateMgr.antt =====
-- The state manager of the Raft library: src/server/in_memory_state_mgr.hxx, class inmem_state_mgr.
-- The classes of the library that it stores are parameters.
use replicated_splinterdb.Base.{◌≡◌, refl, ap, Bool, false, Option, none, some, ℤ, pos}
use replicated_splinterdb.Nuraft.{Nuraft, Bytes}
use replicated_splinterdb.LogStore.{InmemLogStore, new_log_store}

-- nuraft::srv_config
pub record SrvConfig : Type 0 where
  pub id : ℤ
  pub dc_id : ℤ
  pub endpoint : Bytes
  pub aux : Bytes
  pub learner : Bool

-- cluster_config and srv_state with their wire forms
pub record Cluster : Type 1 where
  pub ClusterConfig : Type 0
  pub SrvState : Type 0
  pub Wire : Type 0
  -- a configuration whose list of servers is this one
  pub only : SrvConfig → ClusterConfig
  pub serialize_config : ClusterConfig → Wire
  pub deserialize_config : Wire → ClusterConfig
  pub serialize_state : SrvState → Wire
  pub deserialize_state : Wire → SrvState
  pub deserialize-serialize_config :
      (c : ClusterConfig) → deserialize_config (serialize_config c) ≡ c
  pub deserialize-serialize_state : (s : SrvState) → deserialize_state (serialize_state s) ≡ s

pub record InmemStateMgr (E C S : Type 0) : Type 0 where
  pub my_id : ℤ
  pub my_endpoint : Bytes
  pub cur_log_store : InmemLogStore E
  pub my_srv_config : SrvConfig
  pub saved_config : C
  pub saved_state : Option S

module _ (n : Nuraft) (k : Cluster) where
  open n use {Entry}
  open k use {ClusterConfig, SrvState}

  unfoldable pub new_state_mgr : ℤ → Bytes → Bytes → InmemStateMgr Entry ClusterConfig SrvState
  unfolding new_log_store
  new_state_mgr srv_id raft_endpoint client_endpoint =
      let me : SrvConfig = record {
        id = srv_id;
        dc_id = pos 0;
        endpoint = raft_endpoint;
        aux = client_endpoint;
        learner = false;
      } in
      record {
        my_id = srv_id;
        my_endpoint = raft_endpoint;
        cur_log_store = new_log_store n;
        my_srv_config = me;
        saved_config = k.only me;
        saved_state = none;
      }

  unfoldable pub load_config : InmemStateMgr Entry ClusterConfig SrvState → ClusterConfig
  load_config s = s.saved_config

  unfoldable pub save_config :
      ClusterConfig
      → InmemStateMgr Entry ClusterConfig SrvState
      → InmemStateMgr Entry ClusterConfig SrvState
  save_config config s = record s {
    saved_config = k.deserialize_config (k.serialize_config config);
  }

  unfoldable pub save_state :
      SrvState
      → InmemStateMgr Entry ClusterConfig SrvState
      → InmemStateMgr Entry ClusterConfig SrvState
  save_state state s = record s {
    saved_state = some (k.deserialize_state (k.serialize_state state));
  }

  unfoldable pub read_state : InmemStateMgr Entry ClusterConfig SrvState → Option SrvState
  read_state s = s.saved_state

  unfoldable pub load_log_store : InmemStateMgr Entry ClusterConfig SrvState → InmemLogStore Entry
  load_log_store s = s.cur_log_store

  unfoldable pub server_id : InmemStateMgr Entry ClusterConfig SrvState → ℤ
  server_id s = s.my_id

  unfoldable pub get_srv_config : InmemStateMgr Entry ClusterConfig SrvState → SrvConfig
  get_srv_config s = s.my_srv_config

  -- The configuration that was saved last is the one that is loaded, and the Raft state likewise;
  -- saving one leaves the other, the log store and the server's own entry as they are.
  pub save-load :
      (config : ClusterConfig) (state : SrvState) (s : InmemStateMgr Entry ClusterConfig SrvState)
      → (load_config (save_config config s) ≡ config)
        × (load_config (save_state state (save_config config s)) ≡ config)
        × (read_state (save_state state s) ≡ some state)
        × (read_state (save_config config (save_state state s)) ≡ some state)
        × (load_log_store (save_config config (save_state state s)) ≡ load_log_store s)
        × (get_srv_config (save_config config (save_state state s)) ≡ get_srv_config s)
  unfolding load_config save_config save_state read_state load_log_store get_srv_config
  save-load config state s = (
    k.deserialize-serialize_config config,
    k.deserialize-serialize_config config,
    ap some (k.deserialize-serialize_state state),
    ap some (k.deserialize-serialize_state state),
    refl,
    refl,
  )
