-- ===== src/Client/Policy/Mutations.antt =====
-- The mutations and the leader change, seen from the connections and the read policy.
use replicated_splinterdb.Base.{
  ℕ, zero, suc, ◌*◌, Bool-cases, inl, inr, Option, none, some, ℤ, pos, ◌==ℤ◌, u64, Exec, ◌>>=◌,
  ◌>>◌, bind_keeps, if◌then◌else◌, arith,
}
use replicated_splinterdb.Rpc.{RpcMutationResult, was_accepted}
use replicated_splinterdb.Client.{
  Net, Run, on_world, get_leader_handle, try_handle_leader_change, renew_leader, sleep,
  after_result, retry_loop, retry_mutation,
}
use replicated_splinterdb.Client.Policy.{IsMatched}

module _ (net : Net) {R : Type 0} where
  abbrev pub Keeps : (Run net R) → Type 0
  Keeps s = IsMatched s.0

  try_handle_leader_change-Keeps :
      (rc : ℤ) (s : Run net R) → Keeps s → Keeps (try_handle_leader_change net rc s).1
  unfolding try_handle_leader_change renew_leader on_world
  try_handle_leader_change-Keeps rc s matched = ground arith

  after_result-Keeps :
      (a : RpcMutationResult) (delay_ms : ℕ)
      (again : ℕ → Option RpcMutationResult → Exec (Run net R) RpcMutationResult) (s : Run net R)
      → ((d : ℕ) (t : Run net R) → Keeps t → Keeps (again d (some a) t).1)
      → Keeps s
      → Keeps (after_result net a delay_ms again s).1
  unfolding after_result sleep
  after_result-Keeps a delay_ms again s h matched = elim (Bool-cases (was_accepted a)) [
    | inl accepted ↦ rw accepted matched
    | inr refused ↦ elim (Bool-cases (a.raft_rc ==ℤ pos 999)) [
      | inl weird ↦ rw (refused, weird) matched
      | inr plain ↦
          rw (refused, plain)
            (bind_keeps Keeps Keeps (try_handle_leader_change net a.raft_rc)
              (λ changed.
                if changed
                then sleep net delay_ms >> again (u64 (delay_ms * 2)) (some a)
                else again delay_ms (some a))
              s (try_handle_leader_change-Keeps a.raft_rc s matched) (λ t k. k)
              (λ changed t k. elim (Bool-cases changed) [
                | inl on ↦ rw on (h (u64 (delay_ms * 2)) _ k)
                | inr off ↦ rw off (h delay_ms t k)
              ]))
    ]
  ]

  retry_loop-Keeps :
      (f : Exec net.World RpcMutationResult) (tries delay_ms : ℕ) (last : Option RpcMutationResult)
      (s : Run net R)
      → Keeps s
      → Keeps (retry_loop net tries f delay_ms last s).1
  unfolding retry_loop on_world
  retry_loop-Keeps f zero delay_ms last s matched = matched
  retry_loop-Keeps f (suc tries) delay_ms last s matched =
      bind_keeps Keeps Keeps (on_world f)
        (λ a. after_result net a delay_ms (retry_loop net tries f)) s matched (λ t k. k)
        (λ a t k.
          after_result-Keeps a delay_ms (retry_loop net tries f) t
            (λ d u. retry_loop-Keeps f tries d (some a) u) k)

  -- A mutation asks the connection of the leader, through the loop.
  pub mutate-Keeps :
      (f : net.Conn → Exec net.World RpcMutationResult) (s : Run net R)
      → Keeps s
      → Keeps ((get_leader_handle net >>= λ cl. retry_mutation net (f cl)) s).1
  unfolding get_leader_handle retry_mutation
  mutate-Keeps f s matched =
      bind_keeps Keeps Keeps (get_leader_handle net) (λ cl. retry_mutation net (f cl)) s
        (ground arith) (λ t k. k) (λ cl t. retry_loop-Keeps (f cl) t.0.num_retries 100 none t)
