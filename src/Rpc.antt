-- ===== src/Rpc.antt =====
-- The values that cross the RPC interface: include/replicated-splinterdb/common/types.h. rpclib and
-- msgpack, which carry them, are git submodules.
use replicated_splinterdb.Base.{Bool, Option, List, ℤ, pos, ◌==ℤ◌, ◌&&◌}
use replicated_splinterdb.Nuraft.{Bytes}

pub record RpcReadResult : Type 0 where
  pub value : Option Bytes
  pub rc : ℤ

pub record RpcMutationResult : Type 0 where
  pub splinterdb_rc : ℤ
  pub raft_rc : ℤ
  pub raft_msg : Bytes

unfoldable pub was_accepted : RpcMutationResult → Bool
was_accepted r = r.raft_rc ==ℤ pos 0

unfoldable pub is_success : RpcMutationResult → Bool
unfolding was_accepted
is_success r = r.splinterdb_rc ==ℤ pos 0 && was_accepted r

pub record RpcServerInfo : Type 0 where
  pub id : ℤ
  pub endpoint : Bytes

pub record RpcClusterEndpoints : Type 0 where
  pub endpoints : List RpcServerInfo
