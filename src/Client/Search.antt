-- ===== src/Client/Search.antt =====
-- What the search for the leader costs.
use replicated_splinterdb.Base.{
  ℕ, zero, suc, ◌*◌, ◌+◌, ◌≤◌, ◌≡◌, Bool-cases, inl, inr, [], ◌∷◌, length, negsuc, ◌==ℤ◌, pure,
  ◌>>◌, bind_keeps, if◌then◌else◌, arith,
}
use replicated_splinterdb.Client.{Net, Clients, on_world, back_off, poll, ask_all, get_leader_id}
use replicated_splinterdb.Client.Bounds.{catch_keeps}

-- `cost` grows with a question about the leader by at most `q` and with a sleep by at most `p`.
module _ (net : Net) (cost : net.World → ℕ) (q p : ℕ)
    (question : (c : net.Conn) (w : net.World) → cost (net.call_get_leader_id c w).1 ≤ cost w + q)
    (rest : (d : ℕ) (w : net.World) → cost (net.sleep_ms d w) ≤ cost w + p) where
  open net use {World, Conn}

  back_off_cost : (k : ℕ) (s : ℕ × World) → cost s.1 ≤ k → cost (back_off net s).1.1 ≤ k + p
  unfolding back_off
  back_off_cost k s h = omega (arith, rest s.0 s.1)

  -- What the turns of the inner loop cost.
  abbrev turns : ℕ → ℕ
  turns tries = tries * (q + p)

  poll_cost :
      (tries k : ℕ) (c : Conn) (s : ℕ × World)
      → cost s.1 ≤ k
      → cost (poll net tries c s).1.1 ≤ k + turns tries
  unfolding poll on_world
  poll_cost zero k c s h = omega arith
  poll_cost (suc tries) k c s h =
      let split : k + turns (suc tries) ≡ k + q + p + turns tries = grind arith in
      bind_keeps (λ t. cost t.1 ≤ k + q) (λ t. cost t.1 ≤ k + turns (suc tries))
        (on_world (net.call_get_leader_id c))
        (λ id. if id ==ℤ negsuc 0 then back_off net >> poll net tries c else pure id) s
        (omega (arith, question c s.1)) (λ t i. omega (arith, split))
        (λ id t i. elim (Bool-cases (id ==ℤ negsuc 0)) [
          | inl dead ↦ rw dead (
              bind_keeps (λ u. cost u.1 ≤ k + q + p) (λ u. cost u.1 ≤ k + turns (suc tries))
                (back_off net) (λ _. poll net tries c) t (back_off_cost (k + q) t i)
                (λ u j. omega (arith, split))
                (λ _ u j. omega (arith, split, poll_cost tries (k + q + p) c u j)))
          | inr live ↦ rw live (omega (arith, split))
        ])

  ask_all_cost :
      (num_retries k : ℕ) (cs : Clients Conn) (s : ℕ × World)
      → cost s.1 ≤ k
      → cost (ask_all net num_retries cs s).1.1 ≤ k + length cs * (turns num_retries + p)
  unfolding ask_all
  ask_all_cost num_retries k [] s h = omega arith
  ask_all_cost num_retries k ((i, c) ∷ cs) s h =
      let r = turns num_retries in
      let last = k + length ((i, c) ∷ cs) * (r + p) in
      let split : last ≡ k + r + p + length cs * (r + p) = grind arith in
      catch_keeps (λ t. cost t.1 ≤ k + r) (λ t. cost t.1 ≤ last) (poll net num_retries c)
        (back_off net >> ask_all net num_retries cs) s (poll_cost num_retries k c s h)
        (λ t j. omega (arith, split))
        (λ t j.
          bind_keeps (λ u. cost u.1 ≤ k + r + p) (λ u. cost u.1 ≤ last) (back_off net)
            (λ _. ask_all net num_retries cs) t (back_off_cost (k + r) t j)
            (λ u i. omega (arith, split))
            (λ _ u i. omega (arith, split, ask_all_cost num_retries (k + r + p) cs u i)))

  -- For a cost of the world that a question about the leader raises by at most q and a sleep by at
  -- most p, `get_leader_id` raises it by at most n * (r * (q + p) + p) for n servers and r tries,
  -- whatever the servers answer or throw; so it asks at most n * r times.
  pub get_leader_id_cost :
      (num_retries : ℕ) (cs : Clients Conn) (w : World)
      → cost (get_leader_id net num_retries cs w).1
        ≤ cost w + length cs * (num_retries * (q + p) + p)
  unfolding get_leader_id
  get_leader_id_cost num_retries cs w = ask_all_cost num_retries (cost w) cs (100, w) (omega arith)
