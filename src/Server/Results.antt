-- ===== src/Server/Results.antt =====
-- The results that the server sends back to clients.
use replicated_splinterdb.Base.{◌^◌, ◌<◌, ◌≡◌, ◌∙◌, true, false, some, [], ◌∷◌, ℤ, pos, ok}
use replicated_splinterdb.Nuraft.{Nuraft, Bytes, i32}
use replicated_splinterdb.Operation.{SplinterdbOperation, make_put, make_delete}
use replicated_splinterdb.Operation.RoundTrip.{wire_size, serialized, serialize-serialized}
use replicated_splinterdb.StateMachine.Commit.{reply_buffer}
use replicated_splinterdb.Replica.{Raft, RaftResult, ReplicaConfig, blocking, append_log}
use replicated_splinterdb.Server.{splinterdb_code, extract_result, handle_put, handle_delete}

module _ (n : Nuraft) where
  open n use {Buffer}

  -- The buffer that `commit` replies with is read as its code.
  splinterdb_code-reply : (rc : ℤ) → splinterdb_code n (some (reply_buffer n rc)) ≡ ok rc
  unfolding splinterdb_code
  splinterdb_code-reply rc =
      let content : n.unread (reply_buffer n rc) ≡ i32 rc ∷ [] =
        n.unread-rewind _ ∙ n.written-after_put (i32 rc) (n.alloc 4) ∙ rw (n.written-alloc) in
      rw (n.get_i32_lem _ rc [] content)

  pub extract_result-reply :
      (r : RaftResult Buffer) (rc : ℤ)
      → r.accepted ≡ true
      → r.has_result ≡ true
      → r.result ≡ some (reply_buffer n rc)
      → extract_result n r
        ≡ ok (record { splinterdb_rc = rc; raft_rc = r.result_code; raft_msg = r.result_str })
  unfolding extract_result
  extract_result-reply r rc a h e = rw (a, h, e, splinterdb_code-reply rc)

  pub extract_result_refused :
      (r : RaftResult Buffer)
      → r.accepted ≡ false
      → extract_result n r
        ≡ ok (record { splinterdb_rc = pos 0; raft_rc = r.result_code; raft_msg = r.result_str })
  unfolding extract_result
  extract_result_refused r a = rw a

  module _ (raft : Raft n) {C : Type 0} (config : ReplicaConfig C) where
    open raft use {World}

    pub append_log_blocking :
        (op : SplinterdbOperation) (w : World)
        → config.return_method ≡ blocking
        → wire_size op < 2 ^ 31
        → append_log n raft config op w ≡ (
          ok (raft.append_entries (serialized n op) w).0,
          (raft.append_entries (serialized n op) w).1,
        )
    unfolding append_log
    append_log_blocking op w mode fits = rw ((serialize-serialized n op fits).0, append_log, mode)

    -- A put below 2 GiB, with the blocking return method: where the Raft library accepts the entry
    -- and has the reply of a state machine whose call of SplinterDB returned `rc`, the handler
    -- sends `rc` beside the code and the message of the Raft library.
    pub handle_put_committed :
        (key value : Bytes) (w : World) (rc : ℤ)
        → config.return_method ≡ blocking
        → wire_size (make_put key value) < 2 ^ 31
        → let r = (raft.append_entries (serialized n (make_put key value)) w).0 in
          r.accepted ≡ true
          → r.has_result ≡ true
          → r.result ≡ some (reply_buffer n rc)
          → (handle_put n raft config key value w).0
            ≡ ok (record { splinterdb_rc = rc; raft_rc = r.result_code; raft_msg = r.result_str })
    unfolding handle_put
    handle_put_committed key value w rc mode fits a h e =
        rw (append_log_blocking (make_put key value) w mode fits) (extract_result-reply _ rc a h e)

    -- A delete below 2 GiB, with the blocking return method: where the Raft library accepts the
    -- entry and has the reply of a state machine whose call of SplinterDB returned `rc`, the
    -- handler sends `rc` beside the code and the message of the Raft library.
    pub handle_delete_committed :
        (key : Bytes) (w : World) (rc : ℤ)
        → config.return_method ≡ blocking
        → wire_size (make_delete key) < 2 ^ 31
        → let r = (raft.append_entries (serialized n (make_delete key)) w).0 in
          r.accepted ≡ true
          → r.has_result ≡ true
          → r.result ≡ some (reply_buffer n rc)
          → (handle_delete n raft config key w).0
            ≡ ok (record { splinterdb_rc = rc; raft_rc = r.result_code; raft_msg = r.result_str })
    unfolding handle_delete
    handle_delete_committed key w rc mode fits a h e =
        rw (append_log_blocking (make_delete key) w mode fits) (extract_result-reply _ rc a h e)
