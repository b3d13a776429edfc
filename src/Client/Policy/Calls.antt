-- ===== src/Client/Policy/Calls.antt =====
-- A client over its whole life: made by the constructor, then used by any sequence of calls.
use replicated_splinterdb.Base.{ℕ, ◌≡◌, Bool, Option, none, some, List, [], ◌∷◌, ℤ, ok}
use replicated_splinterdb.Nuraft.{Bytes}
use replicated_splinterdb.ReadPolicy.{Chance, Algorithm, next_server}
use replicated_splinterdb.Client.{Net, Client, Run, find_client, put, update, del}
use replicated_splinterdb.Client.Connect.{new_client, get, set_fixed_key_mapping}
use replicated_splinterdb.Client.Policy.{
  IsMatched, new_client-IsMatched, get_by_policy, get-IsMatched, set_fixed_key_mapping-IsMatched,
}
use replicated_splinterdb.Client.Policy.Mutations.{mutate-Keeps}

-- What a program does with a client.
pub data Call : Type 0 where
  gets : Bytes → Option ℤ → Call
  puts : Bytes → Bytes → Call
  updates : Bytes → Bytes → Call
  deletes : Bytes → Call
  maps : List (Bytes × ℕ) → Call

module _ (net : Net) (chance : Chance) where
  open chance use {Rng}

  -- How a call leaves the client and the world.
  abbrev pub after_call : Call → Run net Rng → Run net Rng
  after_call (gets key server) s = (get net chance key server s).1
  after_call (puts key value) s = (put net key value s).1
  after_call (updates key value) s = (update net key value s).1
  after_call (deletes key) s = (del net key s).1
  after_call (maps m) s = (set_fixed_key_mapping net chance m s.0, s.1)

  abbrev pub after_calls : List Call → Run net Rng → Run net Rng
  after_calls [] s = s
  after_calls (c ∷ cs) s = after_calls cs (after_call c s)

  after_call-IsMatched : (c : Call) (s : Run net Rng) → IsMatched s.0 → IsMatched (after_call c s).0
  unfolding put update del
  after_call-IsMatched (gets key server) s m = get-IsMatched chance net key server s m
  after_call-IsMatched (puts key value) s m = mutate-Keeps net (net.call_put key value) s m
  after_call-IsMatched (updates key value) s m = mutate-Keeps net (net.call_update key value) s m
  after_call-IsMatched (deletes key) s m = mutate-Keeps net (net.call_delete key) s m
  after_call-IsMatched (maps mapping) s m = set_fixed_key_mapping-IsMatched chance net mapping s.0 m

  after_calls-IsMatched :
      (cs : List Call) (s : Run net Rng) → IsMatched s.0 → IsMatched (after_calls cs s).0
  after_calls-IsMatched [] s m = m
  after_calls-IsMatched (c ∷ cs) s m =
      after_calls-IsMatched cs (after_call c s) (after_call-IsMatched c s m)

  -- For a client that the constructor made, after any sequence of gets, puts, updates, deletes and
  -- key mappings, whatever the network does: where the read policy picks an id, there is a
  -- connection for it, and `get` returns what that connection answers to the get, so the search in
  -- the map of connections never fails.
  pub get_reaches_server :
      (host : Bytes) (port : ℕ) (a : Algorithm) (num_tokens timeout_ms retries : ℕ) (print : Bool)
      (w v : net.World) (c : Client net.Conn Rng) (cs : List Call) (key : Bytes) (id : ℤ)
      → (new_client net chance host port a num_tokens timeout_ms retries print w).0 ≡ ok c
      → (next_server chance key (after_calls cs (c, v)).0.read_policy).0 ≡ ok id
      → (cl : net.Conn) × (find_client id (after_calls cs (c, v)).0.clients ≡ some cl)
        × ((get net chance key none (after_calls cs (c, v))).0
            ≡ (net.call_get key cl (after_calls cs (c, v)).1).0)
  get_reaches_server host port a num_tokens timeout_ms retries print w v c cs key id made picked =
      get_by_policy chance net key (after_calls cs (c, v)) id
        (after_calls-IsMatched cs (c, v)
          (new_client-IsMatched chance net host port a num_tokens timeout_ms retries print w c
            made))
        picked
