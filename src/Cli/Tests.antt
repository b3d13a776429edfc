-- ===== src/Cli/Tests.antt =====
-- The words of "put  k", sessions that get `k` and stop, and a server with a seed.
use replicated_splinterdb.Base.{
  ℕ, suc, ◌*◌, ◌^◌, ◌≤◌, ok, ◌≡◌, true, refl, [], ◌∷◌, pos, undefined, lift, ◌>>=◌, arith,
}
use replicated_splinterdb.Nuraft.{Bytes}
use replicated_splinterdb.SplinterDb.Keys.{bytes_eq}
use replicated_splinterdb.ReadPolicy.Sample.{counter}
use replicated_splinterdb.Client.Sample.{two_servers, believing}
use replicated_splinterdb.Nuraft.Sample.{sample}
use replicated_splinterdb.SplinterDb.Sample.{sample_db}
use replicated_splinterdb.Replica.Sample.{sample_raft, plain_cluster}
use replicated_splinterdb.Server.Lifecycle.{RpcServers, new_server}
use replicated_splinterdb.Cli.{tokenize, Joining, try_join_cluster}
use replicated_splinterdb.Cli.Launch.{
  Flags, SplinterdbConfig, are_valid, main, as_u16, as_u64, replica_config_of, splinterdb_config_of,
}
use replicated_splinterdb.Cli.Launch.Config.{IsPort, flags_kept}
use replicated_splinterdb.Cli.Launch.Join.{Joined, served_after_join}
use replicated_splinterdb.Cli.Split.{keep_words, pieces, c_string, tokenize_lem}
use replicated_splinterdb.Cli.Session.{interact}
use replicated_splinterdb.Cli.Session.Lines.{IsCommand, session_blank}

abbrev spaced : Bytes
spaced = 112 ∷ 117 ∷ 116 ∷ 32 ∷ 32 ∷ 107 ∷ 0 ∷ 118 ∷ []

tokenize_lem_example : tokenize 32 spaced ≡ keep_words (pieces 32 (c_string spaced))
tokenize_lem_example = tokenize_lem 32 spaced

words_lem : keep_words (pieces 32 (c_string spaced)) ≡ (112 ∷ 117 ∷ 116 ∷ []) ∷ (107 ∷ []) ∷ []
words_lem = refl

abbrev get_line : Bytes
get_line = 103 ∷ 101 ∷ 116 ∷ 32 ∷ 107 ∷ []

get_line-IsCommand : IsCommand get_line
unfolding tokenize bytes_eq
get_line-IsCommand = (omega arith, 103 ∷ 101 ∷ 116 ∷ [], (107 ∷ []) ∷ [], refl, refl)

session_blank_example :
    interact two_servers counter (get_line ∷ (32 ∷ []) ∷ []) (pos 0) (believing (pos 1))
    ≡ (interact two_servers counter (get_line ∷ []) (pos 0) >>= λ ret. lift undefined)
        (believing (pos 1))
session_blank_example =
    session_blank two_servers counter (get_line ∷ []) [] (32 ∷ []) (believing (pos 1))
      (get_line-IsCommand, tt) (omega arith) (refl, tt)

-- "a:1" for the seed, "all" for the address, and the defaults.
abbrev flags : Flags
flags = record {
  serverid = pos 2;
  bind = 97 ∷ 108 ∷ 108 ∷ [];
  raftport = pos 10001;
  joinport = pos 10002;
  clientport = pos 10003;
  seed = 97 ∷ 58 ∷ 49 ∷ [];
  nthreads = pos 40;
  dbfilesize = 1024;
  cachesize = 64;
  maxkeysize = 100;
}

-- The world counts the calls; a seed accepts everybody.
abbrev friendly : Joining
friendly = record {
  World = ℕ;
  Conn = ℕ;
  connect = λ host port w. (ok port, suc w);
  call_join = λ id raft client c w. (ok (pos 0, []), suc w);
}

abbrev idle : RpcServers ℕ
idle = record {
  Listener = ℕ;
  listen = λ addr port w. (ok port, suc w);
  async_run = λ k l w. suc w;
  run = λ l w. suc w;
  stop = λ l w. suc w;
}

abbrev no_config : SplinterdbConfig → Unit {0}
no_config c = tt

flags_kept_example :
    (pos (replica_config_of no_config 16 flags).raft_port ≡ pos 10001)
    × (pos (replica_config_of no_config 16 flags).client_port ≡ pos 10003)
    × (pos (as_u16 (pos 10002)) ≡ pos 10002)
    × (pos (as_u64 (pos 40)) ≡ pos 40)
    × IsPort (replica_config_of no_config 16 flags).raft_port
    × IsPort (replica_config_of no_config 16 flags).client_port
    × IsPort (as_u16 (pos 10002))
    × (4 ≤ as_u64 (pos 40))
    × (as_u64 (pos 40) ≤ 80)
    × ((splinterdb_config_of flags).disk_size ≡ 1024 * 2 ^ 20)
    × ((splinterdb_config_of flags).cache_size ≡ 64 * 2 ^ 20)
    × (are_valid (record flags { nthreads = pos 80 }) ≡ true)
flags_kept_example =
    flags_kept no_config 16 flags 80 (unfold are_valid in refl) (omega arith) (omega arith)
      (omega arith) (omega arith)

served_lem :
    (main sample sample_db plain_cluster sample_raft friendly idle no_config 16 flags (0, 0)).0
    ≡ ok (pos 0)
unfolding main new_server try_join_cluster
served_lem = refl

served_after_join_example :
    Joined friendly
      (97 ∷ 58 ∷ 49 ∷ [])
      (pos 2)
      (replica_config_of no_config 16 flags).addr
      (replica_config_of no_config 16 flags).raft_port
      (replica_config_of no_config 16 flags).client_port
served_after_join_example =
    served_after_join sample sample_db plain_cluster sample_raft friendly idle no_config 16 flags
      (0, 0) (λ e. cc) served_lem
