-- ===== src/Cluster/Mutations.antt =====
-- A mutation from the client down to the agreed log.
use replicated_splinterdb.Base.{
  ℕ, ◌^◌, ◌<◌, ◌≡◌, sym, ap, ◌∙◌, true, List, get_elem?, some, pos, ==ℤ_iff, ok, ok_eq, throw,
  runtime_error, Exec, lift, bind_ok, arith, subst,
}
use replicated_splinterdb.Nuraft.{Nuraft}
use replicated_splinterdb.Rpc.{RpcMutationResult, was_accepted}
use replicated_splinterdb.Operation.{SplinterdbOperation, serialize, deserialize}
use replicated_splinterdb.Operation.RoundTrip.{wire_size, deserialize-serialize}
use replicated_splinterdb.Replica.{
  Raft, RaftResult, ReplicaConfig, blocking, async_handler, append_log,
}
use replicated_splinterdb.Server.{extract_result}
use replicated_splinterdb.Client.{Net, Run, put, update, del, find_client}
use replicated_splinterdb.Client.Accepted.{mutation_accepted}
use replicated_splinterdb.Cluster.{
  Request, put_request, update_request, delete_request, logged, Agreed, app_log,
}
use replicated_splinterdb.Cluster.Invariant.{logged-IsWellFormed}
use replicated_splinterdb.Cluster.Handlers.{handle, handle-logged}

module _ (n : Nuraft) (raft : Raft n) {C : Type 0} (config : ReplicaConfig C) where
  open raft use {World}

  abbrev hand_over : n.Buffer → Exec World (RaftResult n.Buffer)
  hand_over new_log w = elim config.return_method [
    | blocking ↦ (ok (raft.append_entries new_log w).0, (raft.append_entries new_log w).1)
    | async_handler ↦
        (throw (runtime_error "async handler not implemented"), (raft.append_entries new_log w).1)
  ]

  hand_over_ok :
      (buf : n.Buffer) (w : World) (a : RaftResult n.Buffer)
      → (hand_over buf w).0 ≡ ok a
      → (raft.append_entries buf w).0 ≡ a
  hand_over_ok buf w a e = ground arith

  append_log_ok :
      (op : SplinterdbOperation) (w : World) (a : RaftResult n.Buffer)
      → (append_log n raft config op w).0 ≡ ok a
      → (buf : n.Buffer) × (serialize n op ≡ ok buf) × ((raft.append_entries buf w).0 ≡ a)
  unfolding append_log
  append_log_ok op w a e =
      let (buf, written, rest) = bind_ok (lift (serialize n op)) hand_over w a e in
      (buf, written, hand_over_ok buf w a rest)

  extract_result_code :
      (a : RaftResult n.Buffer) (q : RpcMutationResult)
      → extract_result n a ≡ ok q
      → q.raft_rc ≡ a.result_code
  unfolding extract_result
  extract_result_code a q e = ground arith

  -- A handler that sends an accepted result has handed over the serialized operation, with success.
  handle_accepted :
      (r : Request) (w : World) (q : RpcMutationResult)
      → (handle n raft config r w).0 ≡ ok q
      → was_accepted q ≡ true
      → (buf : n.Buffer) × (serialize n (logged r) ≡ ok buf)
        × ((raft.append_entries buf w).0.result_code ≡ pos 0)
  unfolding was_accepted
  handle_accepted r w q e accepted =
      let (a, appended, extracted) =
        bind_ok (append_log n raft config (logged r)) (λ result. lift (extract_result n result)) w q
          (rw (handle-logged n raft config r) at e) in
      let (buf, written, same) = append_log_ok (logged r) w a appended in
      (
        buf,
        written,
        ap (λ x. x.result_code) same
            ∙ sym (extract_result_code a q extracted)
            ∙ (==ℤ_iff q.raft_rc (pos 0)).0 accepted,
      )

module _ (net : Net) where
  -- The call that a client makes for a request, and the method that makes it.
  abbrev pub call : Request → net.Conn → Exec net.World RpcMutationResult
  call (put_request key value) cl = net.call_put key value cl
  call (update_request key value) cl = net.call_update key value cl
  call (delete_request key) cl = net.call_delete key cl

  abbrev pub mutate : {R : Type 0} → Request → Exec (Run net R) RpcMutationResult
  mutate (put_request key value) = put net key value
  mutate (update_request key value) = update net key value
  mutate (delete_request key) = del net key

  mutate_accepted :
      {R : Type 0} (r : Request) (s : Run net R) (q : RpcMutationResult)
      → (mutate r s).0 ≡ ok q
      → was_accepted q ≡ true
      → (cl : net.Conn) × (find_client s.0.leader_id s.0.clients ≡ some cl)
        × (w : net.World) × (call r cl w ≡ (ok q, (mutate r s).1.1))
  unfolding put update del
  mutate_accepted (put_request key value) s q e a =
      mutation_accepted net (net.call_put key value) s q e a
  mutate_accepted (update_request key value) s q e a =
      mutation_accepted net (net.call_update key value) s q e a
  mutate_accepted (delete_request key) s q e a = mutation_accepted net (net.call_delete key) s q e a

module _ (n : Nuraft) {C : Type 0} (net : Net) where
  -- What a world of the client has behind its connections: the agreed log, and a Raft library with its
  -- own world at each server. rpclib carries a mutation to the handler of the server at the other end,
  -- and an entry that the Raft library reports as agreed is in the agreed log when the call returns.
  pub record IsServed (agreed_log : net.World → List (Agreed n.Buffer)) (raft : net.Conn → Raft n)
      (raft_world : (cl : net.Conn) → net.World → (raft cl).World)
      (config : net.Conn → ReplicaConfig C) : Type 0 where
    pub carried :
        (r : Request) (cl : net.Conn) (w : net.World) (q : RpcMutationResult)
        → (call net r cl w).0 ≡ ok q
        → (handle n (raft cl) (config cl) r (raft_world cl w)).0 ≡ ok q
    pub agreed :
        (r : Request) (cl : net.Conn) (w : net.World) (buf : n.Buffer)
        → serialize n (logged r) ≡ ok buf
        → ((raft cl).append_entries buf (raft_world cl w)).0.result_code ≡ pos 0
        → (p : ℕ) × (get_elem? (agreed_log (call net r cl w).1) p ≡ some (app_log buf))

  -- For an RPC library that answers a mutation only with what the handler of the server at the
  -- other end returns, and a Raft library that has an entry in the agreed log by the time of the
  -- return wherever it reports the entry of a request with the code 0: if a put, update or delete
  -- of a client, whose operation takes less than 2 GiB, returns an accepted result after any number
  -- of tries, then in the world at this return the agreed log has an entry that is read back as the
  -- operation that the handler logs for it, which for an update is a put.
  pub accepted_is_logged :
      {R : Type 0} (agreed_log : net.World → List (Agreed n.Buffer)) (raft : net.Conn → Raft n)
      (raft_world : (cl : net.Conn) → net.World → (raft cl).World)
      (config : net.Conn → ReplicaConfig C) (r : Request) (s : Run net R) (q : RpcMutationResult)
      → IsServed agreed_log raft raft_world config
      → wire_size (logged r) < 2 ^ 31
      → (mutate net r s).0 ≡ ok q
      → was_accepted q ≡ true
      → (p : ℕ) × (buf : n.Buffer) × (get_elem? (agreed_log (mutate net r s).1.1) p
          ≡ some (app_log buf))
        × (deserialize n buf ≡ ok (logged r))
  accepted_is_logged agreed_log raft raft_world config r s q served fits answered accepted =
      let (cl, leader, w, last_call) = mutate_accepted net r s q answered accepted in
      let (buf, written, code) =
        handle_accepted n (raft cl) (config cl) r (raft_world cl w) q
          (served.carried r cl w q (ap (λ x. x.0) last_call)) accepted in
      let (p, found) = served.agreed r cl w buf written code in
      let (b, wrote, full, parsed) =
        deserialize-serialize n (logged r) (logged-IsWellFormed r) fits in
      (
        p,
        buf,
        subst (λ (v : net.World). get_elem? (agreed_log v) p ≡ some (app_log buf))
            (ap (λ x. x.1) last_call) found,
        subst (λ x. deserialize n x ≡ ok (logged r)) (ok_eq (sym wrote ∙ written)) parsed,
      )
