-- ===== src/Cli/Launch/Config.antt =====
-- What the flags of the server come to.
use replicated_splinterdb.Base.{
  ℕ, Bool, ◌&&◌, u64, ◌≡◌, ◌<◌, ◌≤◌, ◌*◌, ◌^◌, true, ℤ, pos, negsuc, arith,
}
use replicated_splinterdb.Cli.{validate_port, validate_nthreads}
use replicated_splinterdb.Cli.Launch.{
  Flags, SplinterdbConfig, are_valid, as_u16, as_u64, replica_config_of, splinterdb_config_of,
}

-- A port from 1 to 32767.
abbrev pub IsPort : ℕ → Type 0
IsPort p = (1 ≤ p) × (p ≤ 32767)

as_u16-IsPort : (p : ℤ) → validate_port p ≡ true → (pos (as_u16 p) ≡ p) × IsPort (as_u16 p)
unfolding validate_port as_u16
as_u16-IsPort (pos p) h = ground arith
as_u16-IsPort (negsuc p) h = cc

as_u64_threads :
    (k : ℤ) → validate_nthreads k ≡ true → (pos (as_u64 k) ≡ k) × (4 ≤ as_u64 k) × (as_u64 k ≤ 80)
unfolding validate_nthreads as_u64
as_u64_threads (pos k) h = ground arith
as_u64_threads (negsuc k) h = cc

threads_pass : (t : ℕ) → 4 ≤ t → t ≤ 80 → validate_nthreads (pos t) ≡ true
unfolding validate_nthreads
threads_pass t enough within = ground arith

and_parts :
    {a b c d : Bool} → (a && b && c && d) ≡ true → (a ≡ true) × (b ≡ true) × (c ≡ true) × (d ≡ true)
and_parts h = ground arith

megabytes : (m : ℕ) → m < 2 ^ 44 → u64 (u64 (m * 1024) * 1024) ≡ m * 2 ^ 20
megabytes m h = omega arith

module _ {C : Type 0} (to_config : SplinterdbConfig → C) (hardware_concurrency : ℕ)
    (f : Flags) where
  -- For flags that pass the validators and sizes below 2^44 MB: the casts to 16 bits keep the three
  -- ports, which are from 1 to 32767, the number of threads is kept and is from 4 to 80, and the
  -- sizes of the disk and of the cache are the flags times 2^20, without wrapping. With any number
  -- of threads from 4 to 80 in the place of theirs the flags pass too, so also with 51 to 80,
  -- although the message of the validator says that it must be between 4 and 50.
  pub flags_kept :
      (t : ℕ)
      → are_valid f ≡ true
      → f.dbfilesize < 2 ^ 44
      → f.cachesize < 2 ^ 44
      → 4 ≤ t
      → t ≤ 80
      → (pos (replica_config_of to_config hardware_concurrency f).raft_port ≡ f.raftport)
        × (pos (replica_config_of to_config hardware_concurrency f).client_port ≡ f.clientport)
        × (pos (as_u16 f.joinport) ≡ f.joinport)
        × (pos (as_u64 f.nthreads) ≡ f.nthreads)
        × IsPort (replica_config_of to_config hardware_concurrency f).raft_port
        × IsPort (replica_config_of to_config hardware_concurrency f).client_port
        × IsPort (as_u16 f.joinport)
        × (4 ≤ as_u64 f.nthreads)
        × (as_u64 f.nthreads ≤ 80)
        × ((splinterdb_config_of f).disk_size ≡ f.dbfilesize * 2 ^ 20)
        × ((splinterdb_config_of f).cache_size ≡ f.cachesize * 2 ^ 20)
        × (are_valid (record f { nthreads = pos t }) ≡ true)
  unfolding replica_config_of splinterdb_config_of are_valid
  flags_kept t valid disk cache enough within =
      let (r, c, j, nthreads) = and_parts valid in
      let (raft, raft_bounds) = as_u16-IsPort f.raftport r in
      let (client, client_bounds) = as_u16-IsPort f.clientport c in
      let (join, join_bounds) = as_u16-IsPort f.joinport j in
      let (threads, low, high) = as_u64_threads f.nthreads nthreads in
      (
        raft,
        client,
        join,
        threads,
        raft_bounds,
        client_bounds,
        join_bounds,
        low,
        high,
        megabytes f.dbfilesize disk,
        megabytes f.cachesize cache,
        rw (r, c, j) (threads_pass t enough within),
      )
