-- ===== src/Client/Accepted.antt =====
-- The calls behind a mutation whose result is accepted.
use replicated_splinterdb.Base.{
  Bool, ℕ, zero, suc, ◌*◌, ◌≡◌, sym, ap, ◌∙◌, true, false, Bool-cases, inl, inr, Option, none, some,
  pos, ◌==ℤ◌, u64, ok, Exec, ◌>>=◌, ◌>>◌, bind_ok, bind_step, if◌then◌else◌, ◌⊎◌,
}
use replicated_splinterdb.Rpc.{RpcMutationResult, was_accepted}
use replicated_splinterdb.Client.{
  Net, Run, find_client, get_leader_handle, on_world, try_handle_leader_change, sleep, after_result,
  retry_loop, retry_mutation,
}
use replicated_splinterdb.Client.Mutation.{initialised_ok, some_eq, handle_found}

module _ (net : Net) {R : Type 0} where
  open net use {World, Conn}

  -- The loop ends with the answer, or its rest goes on from some state.
  after_result_cases :
      (a : RpcMutationResult) (delay_ms : ℕ)
      (again : ℕ → Option RpcMutationResult → Exec (Run net R) RpcMutationResult) (s : Run net R)
      (r : RpcMutationResult)
      → (after_result net a delay_ms again s).0 ≡ ok r
      → (after_result net a delay_ms again s ≡ (ok a, s))
        ⊎ ((was_accepted a ≡ false)
            × (d : ℕ) × (t : Run net R) × (after_result net a delay_ms again s
                ≡ again d (some a) t))
  unfolding after_result sleep
  after_result_cases a delay_ms again s r e = elim (Bool-cases (was_accepted a)) [
    | inl accepted ↦ inl (rw accepted)
    | inr refused ↦ elim (Bool-cases (a.raft_rc ==ℤ pos 999)) [
      | inl weird ↦ inl (rw (refused, weird))
      | inr plain ↦
          let go_on = λ (changed : Bool).
            if changed
            then sleep net delay_ms >> again (u64 (delay_ms * 2)) (some a)
            else again delay_ms (some a) in
          let (changed, handled, rest) =
            bind_ok (try_handle_leader_change net a.raft_rc) go_on s r (rw (refused, plain) at e) in
          let step = bind_step (try_handle_leader_change net a.raft_rc) go_on s changed handled in
          elim (Bool-cases changed) [
            | inl t ↦ inr (
              refused,
              u64 (delay_ms * 2),
              (sleep net delay_ms (try_handle_leader_change net a.raft_rc s).1).1,
              rw (refused, plain) (rw t at step),
            )
            | inr f ↦ inr (
              refused,
              delay_ms,
              (try_handle_leader_change net a.raft_rc s).1,
              rw (refused, plain) (rw f at step),
            )
          ]
    ]
  ]

  retry_loop_accepted :
      (f : Exec World RpcMutationResult) (tries delay_ms : ℕ) (last : Option RpcMutationResult)
      (s : Run net R) (r : RpcMutationResult)
      → ((q : RpcMutationResult) → last ≡ some q → was_accepted q ≡ false)
      → (retry_loop net tries f delay_ms last s).0 ≡ ok r
      → was_accepted r ≡ true
      → (w : World) × (f w ≡ (ok r, (retry_loop net tries f delay_ms last s).1.1))
  unfolding retry_loop on_world
  retry_loop_accepted f zero delay_ms last s r refused e accepted =
      absurd (cc (refused r (initialised_ok last r e)))
  retry_loop_accepted f (suc tries) delay_ms last s r refused e accepted =
      let again = retry_loop net tries f in
      let (a, answered, rest) =
        bind_ok (on_world f) (λ a. after_result net a delay_ms again) s r e in
      let t : Run net R = (s.0, (f s.1).1) in
      let step = bind_step (on_world f) (λ a. after_result net a delay_ms again) s a answered in
      elim (after_result_cases a delay_ms again t r rest) [
        | inl ends ↦
            let whole = step ∙ ends in
            let same : ok a ≡ ok r = sym (ap (λ x. x.0) whole) ∙ e in
            (
              s.1,
              ap (λ x. (x, (f s.1).1)) (answered ∙ same)
                  ∙ ap (λ w. (ok r, w)) (sym (ap (λ x. x.1.1) whole)),
            )
        | inr (not_yet, d, u, more) ↦
            let whole = step ∙ more in
            let (w, last_call) =
              retry_loop_accepted f tries d (some a) u r
                (λ q h. ap was_accepted (some_eq (sym h)) ∙ not_yet) (sym (ap (λ x. x.0) whole) ∙ e)
                accepted in
            (w, last_call ∙ ap (λ v. (ok r, v)) (sym (ap (λ x. x.1.1) whole)))
      ]

  -- An accepted answer of a mutation: the connection of the leader gave it in a call that was the last
  -- thing to happen in the world.
  pub mutation_accepted :
      (f : Conn → Exec World RpcMutationResult) (s : Run net R) (r : RpcMutationResult)
      → let m = get_leader_handle net >>= λ cl. retry_mutation net (f cl) in
        (m s).0 ≡ ok r
        → was_accepted r ≡ true
        → (cl : Conn) × (find_client s.0.leader_id s.0.clients ≡ some cl)
          × (w : World) × (f cl w ≡ (ok r, (m s).1.1))
  unfolding get_leader_handle retry_mutation
  mutation_accepted f s r e accepted =
      let (cl, handle, rest) =
        bind_ok (get_leader_handle net) (λ cl. retry_mutation net (f cl)) s r e in
      let step = bind_step (get_leader_handle net) (λ cl. retry_mutation net (f cl)) s cl handle in
      let t = (get_leader_handle net s).1 in
      let (w, last_call) =
        retry_loop_accepted (f cl) t.0.num_retries 100 none t r (λ q h. cc) rest accepted in
      (
        cl,
        handle_found net s cl handle,
        w,
        last_call ∙ ap (λ v. (ok r, v)) (sym (ap (λ x. x.1.1) step)),
      )
