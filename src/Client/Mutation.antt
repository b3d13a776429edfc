-- ===== src/Client/Mutation.antt =====
-- Whose answer a mutation returns, and how often it asks.
use replicated_splinterdb.Base.{
  ℕ, zero, suc, ◌*◌, ◌≡◌, ◌⊎◌, inl, inr, sym, ap, ◌∙◌, false, Bool-cases, Option, none, some, pos,
  ◌==ℤ◌, u64, ok, Exec, pure, ◌>>=◌, ◌>>◌, bind_ok, if◌then◌else◌, arith,
}
use replicated_splinterdb.Nuraft.{Bytes}
use replicated_splinterdb.Rpc.{RpcMutationResult, was_accepted}
use replicated_splinterdb.Client.{
  Net, Run, find_client, get_leader_handle, on_world, initialised, try_handle_leader_change, sleep,
  after_result, retry_loop, retry_mutation, put, update, del,
}

module _ (net : Net) where
  open net use {World}

  -- An answer that the call gives in some world.
  abbrev pub Answer : Exec World RpcMutationResult → RpcMutationResult → Type 0
  Answer f r = (w : World) × ((f w).0 ≡ ok r)

pub initialised_ok :
    (last : Option RpcMutationResult) (r : RpcMutationResult)
    → initialised last ≡ ok r
    → last ≡ some r
unfolding initialised
initialised_ok none r e = cc
initialised_ok (some q) r e = cc

pub some_eq : {A : Type 0} {a q : A} → some a ≡ some q → a ≡ q
some_eq h = cc

ok_eq : {S : Type 0} (a r : RpcMutationResult) (s : S) → (pure a s).0 ≡ ok r → a ≡ r
ok_eq a r s e = cc

module _ (net : Net) {R : Type 0} where
  open net use {World, Conn}

  -- An answer that is returned is the result, or the rest of the loop has returned the result.
  after_result_ok :
      (a r : RpcMutationResult) (delay_ms : ℕ)
      (again : ℕ → Option RpcMutationResult → Exec (Run net R) RpcMutationResult) (s : Run net R)
      → (after_result net a delay_ms again s).0 ≡ ok r
      → (a ≡ r) ⊎ ((d : ℕ) × (t : Run net R) × ((again d (some a) t).0 ≡ ok r))
  unfolding after_result sleep
  after_result_ok a r delay_ms again s e = elim (Bool-cases (was_accepted a)) [
    | inl accepted ↦ inl (ok_eq a r s (rw accepted at e))
    | inr refused ↦ elim (Bool-cases (a.raft_rc ==ℤ pos 999)) [
      | inl weird ↦ inl (ok_eq a r s (rw (refused, weird) at e))
      | inr plain ↦
          let (changed, handled, rest) =
            bind_ok (try_handle_leader_change net a.raft_rc)
              (λ changed.
                if changed
                then sleep net delay_ms >> again (u64 (delay_ms * 2)) (some a)
                else again delay_ms (some a))
              s r (rw (refused, plain) at e) in
          elim (Bool-cases changed) [
            | inl t ↦ inr (_, _, rw t at rest)
            | inr f ↦ inr (_, _, rw f at rest)
          ]
    ]
  ]

  retry_loop-Answer :
      (f : Exec World RpcMutationResult) (tries delay_ms : ℕ) (last : Option RpcMutationResult)
      (s : Run net R) (r : RpcMutationResult)
      → ((q : RpcMutationResult) → last ≡ some q → Answer net f q)
      → (retry_loop net tries f delay_ms last s).0 ≡ ok r
      → Answer net f r
  unfolding retry_loop on_world
  retry_loop-Answer f zero delay_ms last s r known e = known r (initialised_ok last r e)
  retry_loop-Answer f (suc tries) delay_ms last s r known e =
      let (a, answered, rest) =
        bind_ok (on_world f) (λ a. after_result net a delay_ms (retry_loop net tries f)) s r e in
      elim (after_result_ok a r delay_ms (retry_loop net tries f) _ rest) [
        | inl same ↦ (s.1, answered ∙ ap ok same)
        | inr (d, t, again) ↦
            retry_loop-Answer f tries d (some a) t r (λ q h. (s.1, answered ∙ ap ok (some_eq h)))
              again
      ]

  pub handle_found :
      (s : Run net R) (cl : Conn)
      → (get_leader_handle net s).0 ≡ ok cl
      → find_client s.0.leader_id s.0.clients ≡ some cl
  unfolding get_leader_handle
  handle_found s cl e = ground arith

  mutation-Answer :
      (f : Conn → Exec World RpcMutationResult) (s : Run net R) (r : RpcMutationResult)
      → ((get_leader_handle net >>= λ cl. retry_mutation net (f cl)) s).0 ≡ ok r
      → (cl : Conn) × (find_client s.0.leader_id s.0.clients ≡ some cl) × Answer net (f cl) r
  unfolding retry_mutation
  mutation-Answer f s r e =
      let (cl, handle, rest) =
        bind_ok (get_leader_handle net) (λ cl. retry_mutation net (f cl)) s r e in
      (cl, handle_found s cl handle, retry_loop-Answer (f cl) _ 100 none _ r (λ q h. cc) rest)

  -- Whatever `put` returns is an answer to that put of the server that was the leader when `put`
  -- was called, whichever server is the leader by the time of the last try.
  pub put_answered_by_first_leader :
      (key value : Bytes) (s : Run net R) (r : RpcMutationResult)
      → (put net key value s).0 ≡ ok r
      → (cl : Conn) × (find_client s.0.leader_id s.0.clients ≡ some cl)
        × Answer net (net.call_put key value cl) r
  unfolding put
  put_answered_by_first_leader key value s r e = mutation-Answer (net.call_put key value) s r e

  -- Whatever `update` returns is an answer to it of the server that was the leader when it was called.
  pub update_answered_by_first_leader :
      (key value : Bytes) (s : Run net R) (r : RpcMutationResult)
      → (update net key value s).0 ≡ ok r
      → (cl : Conn) × (find_client s.0.leader_id s.0.clients ≡ some cl)
        × Answer net (net.call_update key value cl) r
  unfolding update
  update_answered_by_first_leader key value s r e =
      mutation-Answer (net.call_update key value) s r e

  -- Whatever `del` returns is an answer to it of the server that was the leader when it was called.
  pub del_answered_by_first_leader :
      (key : Bytes) (s : Run net R) (r : RpcMutationResult)
      → (del net key s).0 ≡ ok r
      → (cl : Conn) × (find_client s.0.leader_id s.0.clients ≡ some cl)
        × Answer net (net.call_delete key cl) r
  unfolding del
  del_answered_by_first_leader key s r e = mutation-Answer (net.call_delete key) s r e

  -- If the server that is the leader when `put` is called never accepts this put, as one that is no
  -- longer the leader does not, then no result of `put` is accepted, whichever leader
  -- `try_handle_leader_change` finds between the tries.
  pub put_stale :
      (key value : Bytes) (s : Run net R) (cl : Conn) (r : RpcMutationResult)
      → find_client s.0.leader_id s.0.clients ≡ some cl
      → ((q : RpcMutationResult)
          → Answer net (net.call_put key value cl) q
          → was_accepted q ≡ false)
      → (put net key value s).0 ≡ ok r
      → was_accepted r ≡ false
  put_stale key value s cl r found refuses e =
      let (c, handle, (w, answered)) = put_answered_by_first_leader key value s r e in
      let same : c ≡ cl = some_eq (sym handle ∙ found) in refuses r (w, rw same at answered)
