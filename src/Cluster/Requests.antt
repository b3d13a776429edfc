-- ===== src/Cluster/Requests.antt =====
-- The mutations of a client, whichever of the three a request asks for.
use replicated_splinterdb.Base.{ℕ, suc, ◌+◌, ◌≤◌, ◌≡◌, some, ok}
use replicated_splinterdb.Rpc.{RpcMutationResult}
use replicated_splinterdb.Client.{Net, Run, find_client, put, update, del}
use replicated_splinterdb.Client.Bounds.{mutation_within}
use replicated_splinterdb.Client.Mutation.{
  Answer, put_answered_by_first_leader, update_answered_by_first_leader,
  del_answered_by_first_leader,
}
use replicated_splinterdb.Cluster.{Request, put_request, update_request, delete_request}
use replicated_splinterdb.Cluster.Mutations.{call, mutate}

module _ (net : Net) {R : Type 0} where
  open net use {World, Conn}

  -- Whatever `put`, `update` or `del` returns is an answer to this request of the server that was
  -- the leader when the method was called, whichever server is the leader by the time of the last
  -- try.
  pub mutate_answered_by_first_leader :
      (m : Request) (s : Run net R) (r : RpcMutationResult)
      → (mutate net m s).0 ≡ ok r
      → (cl : Conn) × (find_client s.0.leader_id s.0.clients ≡ some cl)
        × Answer net (call net m cl) r
  mutate_answered_by_first_leader (put_request key value) s r e =
      put_answered_by_first_leader net key value s r e
  mutate_answered_by_first_leader (update_request key value) s r e =
      update_answered_by_first_leader net key value s r e
  mutate_answered_by_first_leader (delete_request key) s r e =
      del_answered_by_first_leader net key s r e

  -- For a count of the mutations that the world has been asked for, which the request's call raises
  -- by at most one and questions about the leader and sleeps leave as it is, `put`, `update` and
  -- `del` raise it by at most `num_retries`, whatever the servers answer or throw.
  pub mutate_within :
      (asked : World → ℕ) (m : Request) (s : Run net R)
      → ((c : Conn) (w : World) → asked (net.call_get_leader_id c w).1 ≡ asked w)
      → ((d : ℕ) (w : World) → asked (net.sleep_ms d w) ≡ asked w)
      → ((c : Conn) (w : World) → asked (call net m c w).1 ≤ suc (asked w))
      → asked (mutate net m s).1.1 ≤ asked s.1 + s.0.num_retries
  unfolding put update del
  mutate_within asked (put_request key value) s leader_free sleep_free one =
      mutation_within net asked leader_free sleep_free (net.call_put key value) s one
  mutate_within asked (update_request key value) s leader_free sleep_free one =
      mutation_within net asked leader_free sleep_free (net.call_update key value) s one
  mutate_within asked (delete_request key) s leader_free sleep_free one =
      mutation_within net asked leader_free sleep_free (net.call_delete key) s one
