-- ===== src/Replica/Tests.antt =====
-- The theorem on the constructor of a replica, with a Raft library that is ready after two sleeps.
use replicated_splinterdb.Base.{pos}
use replicated_splinterdb.Nuraft.Sample.{sample}
use replicated_splinterdb.SplinterDb.Sample.{sample_db}
use replicated_splinterdb.Replica.{ReplicaConfig, new_replica_config, new_replica}
use replicated_splinterdb.Replica.Made.{Outcome, new_replica_outcome}
use replicated_splinterdb.Replica.Sample.{sample_raft, plain_cluster}

abbrev third : ReplicaConfig sample_db.Config
third = record (new_replica_config 16 tt) { server_id = pos 3 }

new_replica_outcome_example :
    Outcome sample sample_db plain_cluster sample_raft third 0
      (new_replica sample sample_db plain_cluster sample_raft third 0)
new_replica_outcome_example = new_replica_outcome sample sample_db plain_cluster sample_raft third 0
