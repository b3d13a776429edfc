-- ===== src/Server.antt =====
-- The RPC server of a replica: include/replicated-splinterdb/server/server.h and src/server/server.cpp.
-- rpclib, which calls the handlers, is a git submodule; what the server prints is left out.
pub mod Results
pub mod Lifecycle
mod Tests
use replicated_splinterdb.Base.{
  ℕ, Bool, true, false, not, Option, none, some, List, [], ◌∷◌, map, ℤ, pos, ◌==ℤ◌, if◌then◌else◌,
  Result, ok, bind, Exec, pure, lift, ◌>>=◌,
}
use replicated_splinterdb.Nuraft.{Nuraft, Bytes}
use replicated_splinterdb.SplinterDb.{SplinterDb}
use replicated_splinterdb.LogStore.Pack.{checked}
use replicated_splinterdb.Operation.{make_put, make_delete}
use replicated_splinterdb.Rpc.{RpcReadResult, RpcMutationResult, RpcServerInfo, RpcClusterEndpoints}
use replicated_splinterdb.StateMgr.{SrvConfig}
use replicated_splinterdb.Replica.{
  Raft, RaftResult, ReplicaConfig, append_log, add_server, read, Replica, dump_cache, clear_cache,
}

-- "pong"
unfoldable pub handle_ping : Bytes
handle_ping = 112 ∷ 111 ∷ 110 ∷ 103 ∷ []

unfoldable pub handle_get_srv_id : {D E C S : Type 0} → Replica D E C S → ℤ
handle_get_srv_id r = r.server_id

module _ (n : Nuraft) where
  open n use {Buffer}

  -- The code in the buffer of a result, read at the buffer's own cursor.
  unfoldable pub splinterdb_code : Option Buffer → Result ℤ
  splinterdb_code none = ok (pos 0)
  splinterdb_code (some buf) = bind (checked (n.get_i32 buf)) λ v. ok v.0

  unfoldable pub extract_result : RaftResult Buffer → Result RpcMutationResult
  unfolding splinterdb_code
  extract_result result =
      let spl_rc =
        if not result.accepted
        then ok (pos 0)
        else if not result.has_result
        then ok (pos 0)
        else splinterdb_code result.result in
      bind spl_rc λ rc.
        ok (record {
          splinterdb_rc = rc;
          raft_rc = result.result_code;
          raft_msg = result.result_str;
        })

  module _ (raft : Raft n) {C : Type 0} (config : ReplicaConfig C) where
    open raft use {World}

    unfoldable pub handle_put : Bytes → Bytes → Exec World RpcMutationResult
    unfolding append_log extract_result
    handle_put key value =
        append_log n raft config (make_put key value) >>= λ result. lift (extract_result result)

    unfoldable pub handle_delete : Bytes → Exec World RpcMutationResult
    unfolding append_log extract_result
    handle_delete key =
        append_log n raft config (make_delete key) >>= λ result. lift (extract_result result)

    -- As the source has it: the operation is a put.
    unfoldable pub handle_update : Bytes → Bytes → Exec World RpcMutationResult
    unfolding append_log extract_result
    handle_update key value =
        append_log n raft config (make_put key value) >>= λ result. lift (extract_result result)

  module _ (raft : Raft n) where
    open raft use {World}

    unfoldable pub handle_join : ℤ → Bytes → Bytes → Exec World (ℤ × Bytes)
    unfolding add_server
    handle_join = add_server n raft

    unfoldable pub handle_get_leader_id : World → ℤ
    handle_get_leader_id w = raft.get_leader w

    unfoldable pub handle_get_all_servers : World → RpcClusterEndpoints
    handle_get_all_servers w = record {
      endpoints =
          map (λ srv. record { id = srv.id; endpoint = srv.aux }) (raft.get_srv_config_all w);
    }

module _ (db : SplinterDb) where
  open db use {Db}

  unfoldable pub handle_dumpcache : Bytes → Db → Bool × Db
  unfolding dump_cache
  handle_dumpcache directory d = (true, dump_cache db directory d)

  unfoldable pub handle_clearcache : Db → Bool × Db
  unfolding clear_cache
  handle_clearcache d = (true, clear_cache db d)

  unfoldable pub handle_get : Bytes → Db → RpcReadResult
  unfolding read
  handle_get key d =
      let r = read db key d in
      if r.1 ==ℤ pos 0
      then record { value = r.0; rc = pos 0 }
      else record { value = none; rc = r.1 }
