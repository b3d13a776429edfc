-- ===== src/Cluster/Handlers.antt =====
-- The handlers of src/server/server.cpp, as the requests that they log.
use replicated_splinterdb.Base.{
  ◌^◌, ◌<◌, ◌≡◌, refl, sym, ap, ◌∙◌, Bool, true, some, Bool-cases, inl, inr, ℤ, pos, if◌then◌else◌,
  ok, Exec, lift, ◌>>=◌,
}
use replicated_splinterdb.Operation.RoundTrip.{wire_size, serialized}
use replicated_splinterdb.StateMachine.Commit.{reply_buffer}
use replicated_splinterdb.Server.Results.{
  append_log_blocking, extract_result-reply, extract_result_refused,
}
use replicated_splinterdb.Nuraft.{Nuraft}
use replicated_splinterdb.Rpc.{RpcMutationResult}
use replicated_splinterdb.Replica.{Raft, RaftResult, ReplicaConfig, blocking, append_log}
use replicated_splinterdb.Server.{extract_result, handle_put, handle_update, handle_delete}
use replicated_splinterdb.Cluster.{Request, put_request, update_request, delete_request, logged}

module _ (n : Nuraft) where
  -- What a server sends for a result of the Raft library, with the code of SplinterDB if it was accepted.
  abbrev pub answer : RaftResult n.Buffer → ℤ → Bool → RpcMutationResult
  answer a rc accepted = record {
    splinterdb_rc = if accepted then rc else pos 0;
    raft_rc = a.result_code;
    raft_msg = a.result_str;
  }

  extract_result-answer :
      (a : RaftResult n.Buffer) (rc : ℤ)
      → (a.accepted ≡ true → (a.has_result ≡ true) × (a.result ≡ some (reply_buffer n rc)))
      → extract_result n a ≡ ok (answer a rc a.accepted)
  extract_result-answer a rc replied = elim (Bool-cases a.accepted) [
    | inl accepted ↦
        extract_result-reply n a rc accepted (replied accepted).0 (replied accepted).1
        ∙ ap (λ b. ok (answer a rc b)) (sym accepted)
    | inr refused ↦ extract_result_refused n a refused ∙ ap (λ b. ok (answer a rc b)) (sym refused)
  ]

module _ (n : Nuraft) (raft : Raft n) {C : Type 0} (config : ReplicaConfig C) where
  -- The handler of a request.
  abbrev pub handle : Request → Exec raft.World RpcMutationResult
  handle (put_request key value) = handle_put n raft config key value
  handle (update_request key value) = handle_update n raft config key value
  handle (delete_request key) = handle_delete n raft config key

  -- A handler hands the Raft library the operation that `logged` names, and sends what that answers.
  pub handle-logged :
      (r : Request)
      → handle r
        ≡ (append_log n raft config (logged r) >>= λ result. lift (extract_result n result))
  unfolding handle_put handle_update handle_delete logged
  handle-logged (put_request key value) = refl
  handle-logged (update_request key value) = refl
  handle-logged (delete_request key) = refl

  -- For a put, an update or a delete below 2 GiB, with the blocking return method, and a Raft
  -- library that has, where it accepts the entry, the reply of a state machine whose call of
  -- SplinterDB returned `rc`: the handler sends the code and the message of the Raft library,
  -- beside `rc` if the entry was accepted and 0 if it was not.
  pub handle_answers :
      (r : Request) (w : raft.World) (rc : ℤ)
      → config.return_method ≡ blocking
      → wire_size (logged r) < 2 ^ 31
      → let a = (raft.append_entries (serialized n (logged r)) w).0 in
        (a.accepted ≡ true → (a.has_result ≡ true) × (a.result ≡ some (reply_buffer n rc)))
        → (handle r w).0 ≡ ok (answer n a rc a.accepted)
  handle_answers r w rc mode fits replied =
      let a = (raft.append_entries (serialized n (logged r)) w).0 in
      rw (handle-logged r, append_log_blocking n raft config (logged r) w mode fits)
        (extract_result-answer n a rc replied)
