-- ===== src/Replica/Sample.antt =====
-- A Raft library whose world counts the sleeps, and plain configurations and states.
use replicated_splinterdb.Base.{ℕ, suc, refl, leb, true, false, some, [], ℤ, pos, negsuc}
use replicated_splinterdb.Nuraft.Sample.{sample, PlainBuffer}
use replicated_splinterdb.StateMachine.Commit.{reply_buffer}
use replicated_splinterdb.StateMgr.{Cluster}
use replicated_splinterdb.Replica.{Raft, RaftResult, RaftParams, blocking}

abbrev pub accepted : RaftResult PlainBuffer
accepted = record {
  accepted = true;
  has_result = true;
  result_code = pos 0;
  result_str = [];
  result = some (reply_buffer sample (pos 0));
}

abbrev pub no_params : RaftParams
no_params = record {
  heart_beat_interval = 0;
  election_timeout_lower_bound = 0;
  election_timeout_upper_bound = 0;
  reserved_log_items = 0;
  client_req_timeout = 0;
  return_method = blocking;
  auto_forwarding = false;
  snapshot_distance = 0;
}

-- Ready after two sleeps; every entry is accepted.
abbrev pub sample_raft : Raft sample
sample_raft = record {
  World = ℕ;
  new_params = no_params;
  init = λ port threads params w. (true, w);
  is_initialized = leb 2;
  sleep_ms = λ t w. suc w;
  shutdown = λ t w. w;
  append_entries = λ b w. (accepted, w);
  add_srv = λ c w. (accepted, w);
  get_leader = λ w. pos 1;
  get_srv_config_all = λ w. [];
}

-- A configuration is the id of one server, a state is a term.
abbrev pub plain_cluster : Cluster
plain_cluster = record {
  ClusterConfig = ℤ;
  SrvState = ℕ;
  Wire = ℤ;
  only = λ c. c.id;
  serialize_config = λ c. c;
  deserialize_config = λ c. c;
  serialize_state = pos;
  deserialize_state = λ z. elim z [ pos t ↦ t | negsuc t ↦ t ];
  deserialize-serialize_config = λ c. refl;
  deserialize-serialize_state = λ s. refl;
}
