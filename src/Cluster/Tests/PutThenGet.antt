-- ===== src/Cluster/Tests/PutThenGet.antt =====
-- A put through a client, and a get from the server that has committed it.
use replicated_splinterdb.Base.{
  ℕ, zero, suc, ◌≡◌, ◌<◌, ◌⊎◌, refl, inr, some, [], ◌∷◌, ◌++◌, length, get_elem?, some_eq, sym, pos,
  arith,
}
use replicated_splinterdb.Nuraft.Sample.{sample, PlainBuffer}
use replicated_splinterdb.SplinterDb.Sample.{sample_db}
use replicated_splinterdb.Operation.{make_put, serialize}
use replicated_splinterdb.Rpc.{was_accepted}
use replicated_splinterdb.Replica.{new_replica_config}
use replicated_splinterdb.Replica.Sample.{sample_raft}
use replicated_splinterdb.Server.{handle_get, handle_put}
use replicated_splinterdb.Client.{put, get_leader_handle, retry_mutation}
use replicated_splinterdb.Client.Sample.{made}
use replicated_splinterdb.Cluster.{Agreed, logged}
use replicated_splinterdb.Cluster.Reads.{Elsewhere}
use replicated_splinterdb.Cluster.PutThenGet.{IsPut, put_then_get}
use replicated_splinterdb.Cluster.Tests.{
  start, start-IsStart, committed_once, committed_once-Reach, index_lem, one_buffer, parsed_lem,
  config, log_net, log_net-IsServed, done, put_lem,
}

logged_lem : committed_once.log ≡ (put log_net (107 ∷ []) (118 ∷ []) (made, [])).1.1 ++ []
unfolding put get_leader_handle retry_mutation handle_put new_replica_config serialize make_put
    logged
logged_lem = refl

length_lem : length (put log_net (107 ∷ []) (118 ∷ []) (made, [])).1.1 ≡ 1
unfolding put get_leader_handle retry_mutation handle_put new_replica_config serialize make_put
    logged
length_lem = refl

nothing_else :
    (p : ℕ) (e : Agreed PlainBuffer)
    → p < (committed_once.machines 0).last_committed_idx
    → get_elem? committed_once.log p ≡ some e
    → Elsewhere sample sample_db (107 ∷ []) e ⊎ IsPut sample sample_db (107 ∷ []) (118 ∷ []) e
unfolding make_put
nothing_else zero e h found = inr (one_buffer, sym (some_eq found), parsed_lem)
nothing_else (suc p) e h found = absurd (omega (arith, index_lem))

put_then_get_example :
    handle_get sample_db (107 ∷ []) (committed_once.machines 0).spl_handle
    ≡ record { value = some (118 ∷ []); rc = pos 0 }
unfolding was_accepted make_put
put_then_get_example =
    put_then_get sample sample_db log_net (λ w. w) (λ cl. sample_raft) (λ cl w. 0) (λ cl. config)
      (107 ∷ []) (118 ∷ []) (made, []) done start committed_once [] 0 log_net-IsServed (omega arith)
      put_lem refl start-IsStart committed_once-Reach logged_lem
      (omega (arith, length_lem, index_lem)) nothing_else
