-- ===== src/Cli.antt =====
-- The command lines: the functions of apps/spl_client.cpp and apps/spl_server.cpp. What the programs
-- print is left out; their main functions are in the children Session and Launch.
pub mod Tokens
pub mod Split
pub mod Session
pub mod Launch
mod Tests
use replicated_splinterdb.Base.{
  ℕ, ◌+◌, Bool, true, false, not, ◌&&◌, Option, none, some, List, [], ◌∷◌, ◌++◌, map, ℤ, pos,
  negsuc, ◌==ℤ◌, ltb, leb, ◌==◌, if◌then◌else◌, Result, ok, throw, undefined, runtime_error, exited,
  Exec, pure, raise, lift, ◌>>=◌, ◌>>◌,
}
use replicated_splinterdb.Nuraft.{Bytes}
use replicated_splinterdb.SplinterDb.Keys.{bytes_eq}
use replicated_splinterdb.Rpc.{RpcReadResult, RpcMutationResult, is_success}
use replicated_splinterdb.ReadPolicy.{Chance}
use replicated_splinterdb.Endpoint.{endpoint, parse_endpoint, valid_port}
use replicated_splinterdb.Client.{
  Net, Client, Run, on_world, put, update, del, get_all_servers, get_leader_id, trigger_cache_dumps,
  trigger_cache_clear,
}
use replicated_splinterdb.Client.Connect.{get, port_number}

-- A token that is not empty joins the others.
unfoldable pub emit : Bytes → List Bytes → List Bytes
emit [] tokens = tokens
emit (c ∷ token) tokens = (c ∷ token) ∷ tokens

-- `tokenize` from a place on, with the token that has begun; a zero byte ends the string.
unfoldable pub tokenize_from : ℕ → Bytes → Bytes → List Bytes
unfolding emit
tokenize_from delim token [] = emit token []
tokenize_from delim token (c ∷ str) =
    let split = tokenize_from delim [] str in
    let longer = tokenize_from delim (token ++ c ∷ []) str in
    if c == 0 then emit token [] else if c == delim then emit token split else longer

unfoldable pub tokenize : ℕ → Bytes → List Bytes
unfolding tokenize_from
tokenize delim str = tokenize_from delim [] str

-- Whether the command counts as done.
unfoldable pub handle_mutation_result : RpcMutationResult → Bool
unfolding is_success
handle_mutation_result result = is_success result

unfoldable pub handle_read_result : RpcReadResult → Result Bool
handle_read_result res =
    if res.rc ==ℤ pos 0 then elim res.value [ none ↦ undefined | some v ↦ ok true ] else ok false

-- std::tolower in the "C" locale
unfoldable pub to_lower : ℕ → ℕ
to_lower c = if leb 65 c && leb c 90 then c + 32 else c

-- The first word of a command line, as `handle_command` tells them apart.
pub data Command : Type 0 where
  put_command update_command delete_command get_command ls dumpcache clearcache help other : Command

unfoldable pub command_of : Bytes → Command
command_of cmd =
    if bytes_eq cmd (112 ∷ 117 ∷ 116 ∷ [])
    then put_command
    else if bytes_eq cmd (117 ∷ 112 ∷ 100 ∷ 97 ∷ 116 ∷ 101 ∷ [])
    then update_command
    else if bytes_eq cmd (100 ∷ 101 ∷ 108 ∷ 101 ∷ 116 ∷ 101 ∷ [])
    then delete_command
    else if bytes_eq cmd (103 ∷ 101 ∷ 116 ∷ [])
    then get_command
    else if bytes_eq cmd (108 ∷ 115 ∷ [])
    then ls
    else if bytes_eq cmd (100 ∷ 117 ∷ 109 ∷ 112 ∷ 99 ∷ 97 ∷ 99 ∷ 104 ∷ 101 ∷ [])
    then dumpcache
    else if bytes_eq cmd (99 ∷ 108 ∷ 101 ∷ 97 ∷ 114 ∷ 99 ∷ 97 ∷ 99 ∷ 104 ∷ 101 ∷ [])
    then clearcache
    else if bytes_eq cmd (104 ∷ 101 ∷ 108 ∷ 112 ∷ [])
    then help
    else other

module _ (net : Net) (chance : Chance) where
  open chance use {Rng}

  -- A command with the words behind the first; too few of them make it unrecognized.
  unfoldable pub run_command : Command → List Bytes → Exec (Run net Rng) Bool
  run_command put_command (key ∷ value ∷ more) =
      put net key value >>= λ res. pure (handle_mutation_result res)
  run_command update_command (key ∷ value ∷ more) =
      update net key value >>= λ res. pure (handle_mutation_result res)
  run_command delete_command (key ∷ more) = del net key >>= λ res. pure (handle_mutation_result res)
  run_command get_command (key ∷ more) =
      get net chance key none >>= λ res. lift (handle_read_result res)
  run_command ls words = λ s.
      (on_world (get_all_servers net s.0.clients) >>= λ srvs.
      on_world (get_leader_id net s.0.num_retries s.0.clients) >>= λ leader_id. pure true)
        s
  run_command dumpcache (directory ∷ more) =
      λ s. (on_world (trigger_cache_dumps net directory s.0.clients) >>= λ done. pure true) s
  run_command clearcache words =
      λ s. (on_world (trigger_cache_clear net s.0.clients) >>= λ done. pure true) s
  run_command help words = pure true
  run_command _ words = pure false

  unfoldable pub handle_command : List Bytes → Exec (Run net Rng) Bool
  unfolding run_command command_of to_lower
  handle_command [] = pure false
  handle_command (word ∷ words) = run_command (command_of (map to_lower word)) words

-- The flag checks of the server.
unfoldable pub validate_port : ℤ → Bool
validate_port (pos p) = ltb 0 p && ltb p 32768
validate_port (negsuc p) = false

unfoldable pub validate_nthreads : ℤ → Bool
validate_nthreads (pos k) = leb 4 k && leb k 80
validate_nthreads (negsuc k) = false

-- What a server that joins a cluster uses of rpclib: a connection, and the call of join_replica_group.
pub record Joining : Type 1 where
  pub World : Type 0
  pub Conn : Type 0
  pub connect : Bytes → ℕ → Exec World Conn
  pub call_join : ℤ → Bytes → Bytes → Conn → Exec World (ℤ × Bytes)

module _ (j : Joining) where
  open j use {World}

  -- The message about a bad port is cut to its constant part.
  unfoldable pub try_join_cluster : Bytes → ℤ → Bytes → ℕ → ℕ → Exec World (Unit {0})
  unfolding parse_endpoint valid_port endpoint
  try_join_cluster seed server_id addr raft_port client_port = lift (parse_endpoint seed) >>= λ e.
      if valid_port e.1
      then (j.connect e.0 (port_number e.1) >>= λ client.
          j.call_join server_id (endpoint addr raft_port) (endpoint addr client_port) client
          >>= λ answer. if answer.0 ==ℤ pos 0 then pure tt else lift (exited (pos 1)))
      else raise (runtime_error "invalid port number for host")
