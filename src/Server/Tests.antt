-- ===== src/Server/Tests.antt =====
-- The theorems on the server's results, with a Raft library that accepts every entry.
use replicated_splinterdb.Base.{ℕ, ◌≡◌, refl, some, true, false, [], ◌∷◌, pos, ok, arith}
use replicated_splinterdb.Nuraft.Sample.{sample, PlainBuffer}
use replicated_splinterdb.Operation.{make_put}
use replicated_splinterdb.StateMachine.Commit.{reply_buffer}
use replicated_splinterdb.Replica.{Raft, RaftResult, ReplicaConfig, blocking}
use replicated_splinterdb.Cluster.{update_request, logged}
use replicated_splinterdb.Cluster.Handlers.{handle, handle_answers}

-- The state machine's call returned 22.
abbrev replied : RaftResult PlainBuffer
replied = record {
  accepted = true;
  has_result = true;
  result_code = pos 0;
  result_str = [];
  result = some (reply_buffer sample (pos 22));
}

abbrev accepting : Raft sample
accepting = record {
  World = ℕ;
  new_params = record {
    heart_beat_interval = 0;
    election_timeout_lower_bound = 0;
    election_timeout_upper_bound = 0;
    reserved_log_items = 0;
    client_req_timeout = 0;
    return_method = blocking;
    auto_forwarding = false;
    snapshot_distance = 0;
  };
  init = λ port threads params w. (true, w);
  is_initialized = λ w. true;
  sleep_ms = λ t w. w;
  shutdown = λ t w. w;
  append_entries = λ b w. (replied, w);
  add_srv = λ c w. (replied, w);
  get_leader = λ w. pos 1;
  get_srv_config_all = λ w. [];
}

abbrev config : ReplicaConfig ℕ
config = record {
  server_id = pos 1;
  raft_port = 25000;
  client_port = 25001;
  addr = [];
  asio_thread_pool_size = 4;
  snapshot_frequency = pos 0;
  initialization_delay_ms = 250;
  initialization_retries = 20;
  splinterdb_cfg = 0;
  return_method = blocking;
}

handle_answers_example :
    (handle sample accepting config (update_request (107 ∷ []) (118 ∷ [])) 0).0
    ≡ ok (record { splinterdb_rc = pos 22; raft_rc = pos 0; raft_msg = [] })
handle_answers_example =
    handle_answers sample accepting config (update_request (107 ∷ []) (118 ∷ [])) 0 (pos 22) refl
      (unfold logged in unfold make_put in omega arith) (λ accepted. (refl, refl))
