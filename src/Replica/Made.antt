-- ===== src/Replica/Made.antt =====
-- What the constructor of a replica comes to.
use replicated_splinterdb.Base.{
  ℕ, zero, suc, ◌<◌, ◌≡◌, ◌≢◌, refl, ◌⊎◌, true, false, Bool-cases, inl, inr, Bool, pos, negsuc,
  ◌==ℤ◌, ==ℤ_iff, ok, throw, exited, runtime_error, invalid_argument, Result, arith,
}
use replicated_splinterdb.Nuraft.{Nuraft, Bytes}
use replicated_splinterdb.SplinterDb.{SplinterDb}
use replicated_splinterdb.Endpoint.{endpoint}
use replicated_splinterdb.StateMachine.{SplinterdbStateMachine, new_state_machine}
use replicated_splinterdb.StateMgr.{Cluster}
use replicated_splinterdb.Replica.{
  Raft, ReplicaConfig, Replica, default_raft_params_init, wait_ready, initialize, snapshot_distance,
  disable_snapshots, new_replica,
}
use replicated_splinterdb.Replica.Start.{slept}

module _ (n : Nuraft) (raft : Raft n) where
  open raft use {World}

  -- Ready after fewer sleeps than this.
  abbrev pub Ready : ℕ → ℕ → World → Type 0
  Ready delay_ms retries w =
      (j : ℕ) × (j < retries) × (raft.is_initialized (slept n raft delay_ms j w) ≡ true)

  never_ready :
      (delay_ms r : ℕ) (w : World)
      → raft.is_initialized w ≡ false
      → ((j : ℕ)
          → j < r
          → raft.is_initialized (slept n raft delay_ms j (raft.sleep_ms delay_ms w)) ≡ false)
      → (j : ℕ) → j < suc r
      → raft.is_initialized (slept n raft delay_ms j w) ≡ false
  never_ready delay_ms r w later never zero h = later
  never_ready delay_ms r w later never (suc j) h = never j (omega arith)

  wait_ready_cases :
      (delay_ms retries : ℕ) (w : World)
      → (Ready delay_ms retries w × ((wait_ready n raft delay_ms retries w).0 ≡ ok tt))
        ⊎ (((j : ℕ) → j < retries → raft.is_initialized (slept n raft delay_ms j w) ≡ false)
            × (wait_ready n raft delay_ms retries w
                ≡ (exited (negsuc 0), slept n raft delay_ms retries w)))
  unfolding wait_ready
  wait_ready_cases delay_ms zero w = inr (λ j h. absurd (omega arith), refl)
  wait_ready_cases delay_ms (suc r) w = elim (Bool-cases (raft.is_initialized w)) [
    | inl now ↦ inl ((0, omega arith, now), rw now)
    | inr later ↦ elim (wait_ready_cases delay_ms r (raft.sleep_ms delay_ms w)) [
      | inl ((j, below, ready), e) ↦ inl ((suc j, omega arith, ready), rw later e)
      | inr (never, e) ↦ inr (never_ready delay_ms r w later never, rw later e)
    ]
  ]

  -- The call that makes the Raft server.
  abbrev pub launch : {C : Type 0} → ReplicaConfig C → World → Bool × World
  launch config w =
      raft.init config.raft_port config.asio_thread_pool_size
        (record (default_raft_params_init raft.new_params) {
          snapshot_distance = snapshot_distance config.snapshot_frequency;
          return_method = config.return_method;
        })
        w

  initialize_ready :
      {C : Type 0} (config : ReplicaConfig C) (w : World)
      → (launch config w).0 ≡ true
      → initialize n raft config w
        ≡ wait_ready n raft config.initialization_delay_ms config.initialization_retries
            (launch config w).1
  unfolding initialize
  initialize_ready config w e = rw e

  initialize_refused :
      {C : Type 0} (config : ReplicaConfig C) (w : World)
      → (launch config w).0 ≡ false
      → initialize n raft config w ≡ (exited (negsuc 0), (launch config w).1)
  unfolding initialize
  initialize_refused config w e = rw e

module _ (n : Nuraft) (db : SplinterDb) (k : Cluster) (raft : Raft n) where
  open raft use {World}

  -- SplinterDB makes an instance.
  abbrev pub Creates : ReplicaConfig db.Config → Type 0
  Creates config = (db.create config.splinterdb_cfg).0 ≡ pos 0

  new_state_machine_made :
      (config : ReplicaConfig db.Config) (disabled : Bool)
      → Creates config
      → (s : SplinterdbStateMachine db.Db Bytes) × (new_state_machine n db config.splinterdb_cfg
            disabled
          ≡ ok s)
        × (s.last_committed_idx ≡ 0)
  unfolding new_state_machine
  new_state_machine_made config disabled made =
      let code : ((db.create config.splinterdb_cfg).0 ==ℤ pos 0) ≡ true =
        (==ℤ_iff (db.create config.splinterdb_cfg).0 (pos 0)).1 made in
      rw code (_, refl, refl)

  new_state_machine_failed :
      (config : ReplicaConfig db.Config) (disabled : Bool)
      → ((db.create config.splinterdb_cfg).0 ==ℤ pos 0) ≡ false
      → new_state_machine n db {S = Bytes} config.splinterdb_cfg disabled
        ≡ throw (runtime_error "Failed to create SplinterDB instance.")
  unfolding new_state_machine
  new_state_machine_failed config disabled code = rw code

  -- How the constructor can end, with what brings it there.
  pub data Outcome (config : ReplicaConfig db.Config) (w : World)
      : Result (Replica db.Db n.Entry k.ClusterConfig k.SrvState) × World → Type 0 where
    no_id :
        config.server_id ≡ pos 0
        → Outcome config w (throw (invalid_argument "server_id must be set"), w)
    no_database :
        config.server_id ≢ pos 0
        → (db.create config.splinterdb_cfg).0 ≢ pos 0
        → Outcome config w (throw (runtime_error "Failed to create SplinterDB instance."), w)
    no_raft :
        config.server_id ≢ pos 0
        → Creates config
        → (launch n raft config w).0 ≡ false
        → Outcome config w (exited (negsuc 0), (launch n raft config w).1)
    not_ready :
        config.server_id ≢ pos 0
        → Creates config
        → (launch n raft config w).0 ≡ true
        → ¬ Ready n raft config.initialization_delay_ms config.initialization_retries
            (launch n raft config w).1
        → Outcome config w (
          exited (negsuc 0),
          slept n raft config.initialization_delay_ms config.initialization_retries
              (launch n raft config w).1,
        )
    made :
        (rep : Replica db.Db n.Entry k.ClusterConfig k.SrvState) (v : World)
        → config.server_id ≢ pos 0
        → Creates config
        → (launch n raft config w).0 ≡ true
        → Ready n raft config.initialization_delay_ms config.initialization_retries
            (launch n raft config w).1
        → rep.server_id ≡ config.server_id
        → rep.raft_endpoint ≡ endpoint config.addr config.raft_port
        → rep.sm.last_committed_idx ≡ 0
        → Outcome config w (ok rep, v)

  -- The constructor of a replica ends in one of five ways: with an id of 0 it throws
  -- `invalid_argument`; with another id it throws `runtime_error` where SplinterDB makes no
  -- instance; where it makes one and the Raft library does not start, or starts and is ready in no
  -- turn of the wait, the process exits with -1, after all the sleeps in the last case; and where
  -- it is ready after fewer sleeps than the wait has turns, the replica has the id of the
  -- configuration, the Raft endpoint of its address and port, and 0 as the last committed index.
  pub new_replica_outcome :
      (config : ReplicaConfig db.Config) (w : World)
      → Outcome config w (new_replica n db k raft config w)
  unfolding new_replica
  new_replica_outcome config w = elim (Bool-cases (config.server_id ==ℤ pos 0)) [
    | inl zero_id ↦ rw zero_id (no_id ((==ℤ_iff config.server_id (pos 0)).0 zero_id))
    | inr some_id ↦
        let id : config.server_id ≢ pos 0 = λ e. ground (arith, e, some_id) in
        elim (Bool-cases ((db.create config.splinterdb_cfg).0 ==ℤ pos 0)) [
          | inl created ↦
              let db_made = (==ℤ_iff (db.create config.splinterdb_cfg).0 (pos 0)).0 created in
              let (sm, e, index) =
                new_state_machine_made config (disable_snapshots config.snapshot_frequency)
                  db_made in
              elim (Bool-cases (launch n raft config w).0) [
                | inl launched ↦
                    elim (wait_ready_cases n raft config.initialization_delay_ms
                      config.initialization_retries (launch n raft config w).1) [
                        | inl (ready, done) ↦
                            rw (some_id, e, initialize_ready n raft config w launched, done)
                              (made _ _ id db_made launched ready refl refl index)
                        | inr (never, done) ↦
                            rw (some_id, e, initialize_ready n raft config w launched, done)
                              (not_ready id db_made launched
                                (λ r. ground (arith, never r.0 r.1, r.2)))
                      ]
                | inr refused ↦
                    rw (some_id, e, initialize_refused n raft config w refused)
                      (no_raft id db_made refused)
              ]
          | inr refused ↦
              rw
                (
                  some_id,
                  new_state_machine_failed config (disable_snapshots config.snapshot_frequency)
                      refused,
                )
                (no_database id (λ e. ground (arith, e, refused)))
        ]
  ]
