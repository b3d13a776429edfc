-- ===== src/Client/Bounds.antt =====
-- How many calls the client makes.
use replicated_splinterdb.Base.{
  ℕ, zero, suc, ◌*◌, ◌+◌, ◌≤◌, ◌≡◌, true, ◌||◌, Bool-cases, inl, inr, Option, none, some, [], ◌∷◌,
  ℤ, pos, negsuc, ◌==ℤ◌, u64, Result, ok, throw, undefined, exited, Exec, pure, ◌>>=◌, ◌>>◌,
  bind_keeps, if◌then◌else◌, arith,
}
use replicated_splinterdb.Nuraft.{Bytes}
use replicated_splinterdb.Rpc.{RpcMutationResult, was_accepted}
use replicated_splinterdb.Client.{
  Net, Clients, Run, get_leader_handle, catch, on_world, back_off, poll, ask_all, get_leader_id,
  renew_leader, try_handle_leader_change, sleep, after_result, retry_loop, retry_mutation, put,
}

-- A call ends where `J` holds if what it tries ends where `I` holds, `I` gives `J`, and the handler
-- leads from `I` to `J`.
pub catch_keeps :
    {S A : Type 0} (I J : S → Type 0) (m h : Exec S A) (s : S)
    → I (m s).1
    → ((t : S) → I t → J t)
    → ((t : S) → I t → J (h t).1)
    → J (catch m h s).1
unfolding catch
catch_keeps {S = S} {A = A} I J m h s i weaken handled =
    elim (m s).0
      as (λ r.
        J
          (elim r as (λ _. Result A × S) [
            | ok a ↦ (ok a, (m s).1)
            | throw e ↦ h (m s).1
            | undefined ↦ (undefined, (m s).1)
            | exited c ↦ (exited c, (m s).1)
          ]).1) [
            | ok a ↦ weaken (m s).1 i
            | throw e ↦ handled (m s).1 i
            | undefined ↦ weaken (m s).1 i
            | exited c ↦ weaken (m s).1 i
          ]

-- `asked` counts the mutations that the world has been asked for; asking for the leader and sleeping
-- are none.
module _ (net : Net) (asked : net.World → ℕ)
    (leader_free : (c : net.Conn) (w : net.World) → asked (net.call_get_leader_id c w).1 ≡ asked w)
    (sleep_free : (d : ℕ) (w : net.World) → asked (net.sleep_ms d w) ≡ asked w) where
  open net use {World, Conn}

  back_off_within : (k : ℕ) (s : ℕ × World) → asked s.1 ≤ k → asked (back_off net s).1.1 ≤ k
  unfolding back_off
  back_off_within k s h = omega (arith, sleep_free s.0 s.1)

  poll_within :
      (tries k : ℕ) (c : Conn) (s : ℕ × World) → asked s.1 ≤ k → asked (poll net tries c s).1.1 ≤ k
  unfolding poll on_world
  poll_within zero k c s h = h
  poll_within (suc tries) k c s h =
      bind_keeps (λ t. asked t.1 ≤ k) (λ t. asked t.1 ≤ k) (on_world (net.call_get_leader_id c))
        (λ id. if id ==ℤ negsuc 0 then back_off net >> poll net tries c else pure id) s
        (omega (arith, leader_free c s.1)) (λ t i. i)
        (λ id t i. elim (Bool-cases (id ==ℤ negsuc 0)) [
          | inl dead ↦ rw dead (
              bind_keeps (λ u. asked u.1 ≤ k) (λ u. asked u.1 ≤ k) (back_off net)
                (λ _. poll net tries c) t (back_off_within k t i) (λ u j. j)
                (λ _ u j. poll_within tries k c u j))
          | inr live ↦ rw live i
        ])

  ask_all_within :
      (num_retries k : ℕ) (cs : Clients Conn) (s : ℕ × World)
      → asked s.1 ≤ k
      → asked (ask_all net num_retries cs s).1.1 ≤ k
  unfolding ask_all
  ask_all_within num_retries k [] s h = h
  ask_all_within num_retries k ((i, c) ∷ cs) s h =
      catch_keeps (λ t. asked t.1 ≤ k) (λ t. asked t.1 ≤ k) (poll net num_retries c)
        (back_off net >> ask_all net num_retries cs) s (poll_within num_retries k c s h) (λ t j. j)
        (λ t j.
          bind_keeps (λ u. asked u.1 ≤ k) (λ u. asked u.1 ≤ k) (back_off net)
            (λ _. ask_all net num_retries cs) t (back_off_within k t j) (λ u q. q)
            (λ _ u q. ask_all_within num_retries k cs u q))

  module _ {R : Type 0} where
    renew_leader_within :
        (k : ℕ) (s : Run net R) → asked s.1 ≤ k → asked (renew_leader net s).1.1 ≤ k
    unfolding renew_leader get_leader_id on_world
    renew_leader_within k s h =
        bind_keeps (λ t. asked t.1 ≤ k) (λ t. asked t.1 ≤ k)
          (on_world (get_leader_id net s.0.num_retries s.0.clients))
          (λ id t. (ok true, (record t.0 { leader_id = id }, t.1))) s
          (ask_all_within s.0.num_retries k s.0.clients (100, s.1) h) (λ t i. i) (λ id t i. i)

    change_within :
        (rc : ℤ) (k : ℕ) (s : Run net R)
        → asked s.1 ≤ k
        → asked (try_handle_leader_change net rc s).1.1 ≤ k
    unfolding try_handle_leader_change
    change_within rc k s h = elim (Bool-cases (rc ==ℤ negsuc 2 || rc ==ℤ negsuc 0)) [
      | inl t ↦ rw t (renew_leader_within k s h)
      | inr f ↦ rw f h
    ]

    after_result_within :
        (a : RpcMutationResult) (delay_ms i k : ℕ)
        (again : ℕ → Option RpcMutationResult → Exec (Run net R) RpcMutationResult) (s : Run net R)
        → i ≤ k
        → ((d : ℕ) (t : Run net R) → asked t.1 ≤ i → asked (again d (some a) t).1.1 ≤ k)
        → asked s.1 ≤ i
        → asked (after_result net a delay_ms again s).1.1 ≤ k
    unfolding after_result sleep
    after_result_within a delay_ms i k again s small go_on h = elim (Bool-cases (was_accepted a)) [
      | inl accepted ↦ rw accepted (omega arith)
      | inr refused ↦ elim (Bool-cases (a.raft_rc ==ℤ pos 999)) [
        | inl weird ↦ rw (refused, weird) (omega arith)
        | inr plain ↦
            rw (refused, plain)
              (bind_keeps (λ t. asked t.1 ≤ i) (λ t. asked t.1 ≤ k)
                (try_handle_leader_change net a.raft_rc)
                (λ changed.
                  if changed
                  then sleep net delay_ms >> again (u64 (delay_ms * 2)) (some a)
                  else again delay_ms (some a))
                s (change_within a.raft_rc i s h) (λ t j. omega arith)
                (λ changed t j. elim (Bool-cases changed) [
                  | inl yes_changed ↦
                      rw yes_changed
                        (go_on (u64 (delay_ms * 2)) _ (omega (arith, sleep_free delay_ms t.1)))
                  | inr not_changed ↦ rw not_changed (go_on delay_ms t j)
                ]))
      ]
    ]

    handle_stays : (s : Run net R) → (get_leader_handle net s).1 ≡ s
    unfolding get_leader_handle
    handle_stays s = ground arith

    retry_loop_within :
        (f : Exec World RpcMutationResult) (tries delay_ms k : ℕ) (last : Option RpcMutationResult)
        (s : Run net R)
        → ((w : World) → asked (f w).1 ≤ suc (asked w))
        → asked s.1 + tries ≤ k
        → asked (retry_loop net tries f delay_ms last s).1.1 ≤ k
    unfolding retry_loop on_world
    retry_loop_within f zero delay_ms k last s one h = omega arith
    retry_loop_within f (suc tries) delay_ms k last s one h =
        bind_keeps (λ t. asked t.1 + tries ≤ k) (λ t. asked t.1 ≤ k) (on_world f)
          (λ a. after_result net a delay_ms (retry_loop net tries f)) s (omega (arith, one s.1))
          (λ t i. omega arith)
          (λ a t i.
            after_result_within a delay_ms (asked t.1) k (retry_loop net tries f) t (omega arith)
              (λ d u q. retry_loop_within f tries d k (some a) u one (omega arith)) (omega arith))

    -- A mutation that makes the call `f` on the leader's connection.
    pub mutation_within :
        (f : Conn → Exec World RpcMutationResult) (s : Run net R)
        → ((c : Conn) (w : World) → asked (f c w).1 ≤ suc (asked w))
        → asked ((get_leader_handle net >>= λ cl. retry_mutation net (f cl)) s).1.1
          ≤ asked s.1 + s.0.num_retries
    unfolding retry_mutation
    mutation_within f s one =
        bind_keeps (λ t. t ≡ s) (λ t. asked t.1 ≤ asked s.1 + s.0.num_retries)
          (get_leader_handle net) (λ cl. retry_mutation net (f cl)) s (handle_stays s)
          (λ t e. rw e (omega arith))
          (λ cl t e.
            rw e (retry_loop_within (f cl) s.0.num_retries 100 _ none s (one cl) (omega arith)))

    -- For a count of the mutations that the world has been asked for, which a put raises by at most
    -- one and questions about the leader and sleeps leave as it is, `put` raises it by at most
    -- `num_retries`, whatever the servers answer or throw.
    pub put_within :
        (key value : Bytes) (s : Run net R)
        → ((c : Conn) (w : World) → asked (net.call_put key value c w).1 ≤ suc (asked w))
        → asked (put net key value s).1.1 ≤ asked s.1 + s.0.num_retries
    unfolding put
    put_within key value s one = mutation_within (net.call_put key value) s one
