-- ===== src/Replica/Start.antt =====
-- The wait for the Raft server, and the two places where snapshots are turned on or off.
use replicated_splinterdb.Base.{
  ℕ, zero, suc, ◌<◌, ◌≡◌, refl, ◌↔◌, true, false, Bool-cases, inl, inr, ℤ, pos, negsuc, ok, exited,
  arith,
}
use replicated_splinterdb.Nuraft.{Nuraft}
use replicated_splinterdb.Replica.{Raft, wait_ready, snapshot_distance, disable_snapshots}
use replicated_splinterdb.StateMachine.{SplinterdbStateMachine, chk_create_snapshot}

-- A state machine made for a snapshot frequency asks for snapshots exactly if the distance that the
-- Raft library is given for the frequency is not 0.
pub snapshots_agree :
    {D S : Type 0} (frequency : ℤ) (s : SplinterdbStateMachine D S)
    → s.disable_snapshots ≡ disable_snapshots frequency
    → (chk_create_snapshot s ≡ true) ↔ (0 < snapshot_distance frequency)
unfolding chk_create_snapshot disable_snapshots snapshot_distance
snapshots_agree (pos f) s e = rw e (ground arith)
snapshots_agree (negsuc f) s e = rw e (ground arith)

module _ (n : Nuraft) (raft : Raft n) (delay_ms : ℕ) where
  open raft use {World}

  -- The world after this many sleeps.
  abbrev pub slept : ℕ → World → World
  slept zero w = w
  slept (suc j) w = slept j (raft.sleep_ms delay_ms w)

  -- A Raft server that is ready after fewer sleeps than the loop has turns is waited for with
  -- success.
  pub wait_ready_in_time :
      (retries j : ℕ) (w : World)
      → j < retries
      → raft.is_initialized (slept j w) ≡ true
      → (wait_ready n raft delay_ms retries w).0 ≡ ok tt
  unfolding wait_ready
  wait_ready_in_time zero j w h ready = absurd (omega arith)
  wait_ready_in_time (suc r) zero w h ready = rw ready
  wait_ready_in_time (suc r) (suc j) w h ready = elim (Bool-cases (raft.is_initialized w)) [
    | inl now ↦ rw now
    | inr later ↦ rw later (wait_ready_in_time r j (raft.sleep_ms delay_ms w) (omega arith) ready)
  ]

  -- A Raft server that is ready in no turn of the loop ends the process with the code -1, after all
  -- the sleeps.
  pub wait_ready_too_late :
      (retries : ℕ) (w : World)
      → ((j : ℕ) → j < retries → raft.is_initialized (slept j w) ≡ false)
      → wait_ready n raft delay_ms retries w ≡ (exited (negsuc 0), slept retries w)
  unfolding wait_ready
  wait_ready_too_late zero w never = refl
  wait_ready_too_late (suc r) w never =
      rw (never 0 (omega arith))
        (wait_ready_too_late r (raft.sleep_ms delay_ms w) (λ j h. never (suc j) (omega arith)))
