-- ===== src/Cluster/Clients.antt =====
-- A client of the cluster: what a get returns to it, from the client's read policy down to the log.
use replicated_splinterdb.Base.{ℕ, ◌≡◌, sym, ◌∙◌, Bool, none, some, List, ℤ, take, subst, ok}
use replicated_splinterdb.Nuraft.{Nuraft, Bytes}
use replicated_splinterdb.SplinterDb.{SplinterDb}
use replicated_splinterdb.Rpc.{RpcReadResult}
use replicated_splinterdb.ReadPolicy.{Chance, Algorithm, next_server}
use replicated_splinterdb.Server.{handle_get}
use replicated_splinterdb.Client.{Net, Client, find_client}
use replicated_splinterdb.Client.Connect.{new_client, get}
use replicated_splinterdb.Client.Policy.Calls.{Call, after_calls, get_reaches_server}
use replicated_splinterdb.Cluster.{Cluster, IsStart, Reach, here, after}
use replicated_splinterdb.Cluster.Meaning.{meaning, nothing}
use replicated_splinterdb.Cluster.Reads.{IsAnswer, get_reads_log}

module _ (n : Nuraft) (db : SplinterDb) {S : Type 0} where
  pub Reach_trans :
      {a b c : Cluster n.Buffer db.Db S} → Reach n db a b → Reach n db b c → Reach n db a c
  Reach_trans r here = r
  Reach_trans r (after q st) = after (Reach_trans r q) st

module _ (n : Nuraft) (db : SplinterDb) {S : Type 0} (start : Cluster n.Buffer db.Db S)
    (net : Net) where
  -- What a world of the client has behind its connections: a cluster that runs from the start, and a
  -- server for each connection. rpclib carries a get to the handler of the server at the other end:
  -- an answer is what the handler returned in a state between the call and its return.
  pub record IsCarried (cluster : net.World → Cluster n.Buffer db.Db S) (server : net.Conn → ℕ)
      : Type 0 where
    pub runs : (w : net.World) → Reach n db start (cluster w)
    pub carried :
        (key : Bytes) (cl : net.Conn) (w : net.World) (r : RpcReadResult)
        → (net.call_get key cl w).0 ≡ ok r
        → (d : Cluster n.Buffer db.Db S) × Reach n db (cluster w) d
          × Reach n db d (cluster (net.call_get key cl w).1)
          × (r ≡ handle_get db key (d.machines (server cl)).spl_handle)

  -- For a client that the constructor made, after any sequence of its calls, over a cluster that
  -- runs by the steps of `Step` from new servers and an empty log, and an RPC library that answers
  -- a get only with what the handler of the server at the other end returned in a state between the
  -- call and its return: whenever the read policy picks an id and `get` returns a result, there is
  -- a connection for the id, and in some state of the cluster between the call and its return the
  -- result is what the entries up to the last committed index of the server of this connection mean
  -- for the key.
  pub client_reads_log :
      (chance : Chance) (host : Bytes) (port : ℕ) (a : Algorithm)
      (num_tokens timeout_ms retries : ℕ) (print : Bool) (w v : net.World)
      (c : Client net.Conn chance.Rng) (cs : List Call) (key : Bytes) (id : ℤ) (r : RpcReadResult)
      (cluster : net.World → Cluster n.Buffer db.Db S) (server : net.Conn → ℕ)
      → IsStart n db start
      → IsCarried cluster server
      → (new_client net chance host port a num_tokens timeout_ms retries print w).0 ≡ ok c
      → let s = after_calls net chance cs (c, v) in
        (next_server chance key s.0.read_policy).0 ≡ ok id
        → (get net chance key none s).0 ≡ ok r
        → (cl : net.Conn) × (find_client id s.0.clients ≡ some cl)
          × (d : Cluster n.Buffer db.Db S) × Reach n db (cluster s.1) d
          × Reach n db d (cluster (net.call_get key cl s.1).1)
          × IsAnswer
              (meaning n db
                (take (d.machines (server cl)).last_committed_idx d.log)
                (nothing n db)
                key)
              r
  client_reads_log chance host port a num_tokens timeout_ms retries print w v c cs key id r cluster
        server started rpc made picked got =
      let (cl, found, same) =
        get_reaches_server net chance host port a num_tokens timeout_ms retries print w v c cs key
          id made picked in
      let s = after_calls net chance cs (c, v) in
      let (d, later, earlier, answer) = rpc.carried key cl s.1 r (sym same ∙ got) in
      (
        cl,
        found,
        d,
        later,
        earlier,
        subst (IsAnswer _) (sym answer) (
            get_reads_log n db start d started (Reach_trans n db (rpc.runs s.1) later) (server cl)
              key),
      )
