-- ===== src/Client/Policy.antt =====
-- The read policy of a client and its connections: what the constructor sets up, and what stays.
pub mod Mutations
pub mod Calls
use replicated_splinterdb.Base.{
  ℕ, zero, suc, ◌*◌, ◌≡◌, refl, sym, ap, ◌∙◌, Bool, true, false, Bool-cases, inl, inr, Option, none,
  some, List, [], ◌∷◌, map, get_elem?, length, ℤ, pos, negsuc, ◌==ℤ◌, ◌==◌, ==ℤ_iff, u64, u32, ◌||◌,
  Result, ok, throw, undefined, exited, bind, Exec, pure, lift, ◌>>=◌, ◌>>◌, bind_ok, bind_keeps,
  if◌then◌else◌, arith,
}
use replicated_splinterdb.Nuraft.{Bytes}
use replicated_splinterdb.Rpc.{RpcReadResult, RpcMutationResult, was_accepted}
use replicated_splinterdb.ReadPolicy.{
  Chance, Algorithm, hash, round_robin, random_token, random_uniform, fixed, ReadPolicy,
  round_robin_policy, random_uniform_policy, random_token_policy, hash_policy, fixed_policy,
  server_ids, new_ranges, new_policy, rotate, next, server_at, next_server, set_mapping,
}
use replicated_splinterdb.Client.{
  Net, Clients, Client, Run, find_client, catch, on_world, initialised, get_leader_handle,
  try_handle_leader_change, renew_leader, sleep, after_result, retry_loop, retry_mutation, put,
  update, del,
}
use replicated_splinterdb.Client.Connect.{
  new_client, connect_all, set_timeouts, greet, target_server, get, set_fixed_key_mapping,
}

module _ {C : Type 0} where
  find_client-ids :
      (cs : Clients C) (i : ℕ) (id : ℤ)
      → get_elem? (map (λ p. p.0) cs) i ≡ some id
      → (c : C) × (find_client id cs ≡ some c)
  unfolding find_client
  find_client-ids [] i id e = cc
  find_client-ids ((j, c) ∷ cs) zero id e = (c, rw ((==ℤ_iff j id).1 (some_eq e)))
    where
      some_eq : some j ≡ some id → j ≡ id
      some_eq h = cc
  find_client-ids ((j, c) ∷ cs) (suc i) id e = elim (Bool-cases (j ==ℤ id)) [
    | inl same ↦ (c, rw same)
    | inr other ↦ rw other (find_client-ids cs i id e)
  ]

module _ {C R : Type 0} where
  -- The policy chooses among the ids of the connections.
  abbrev pub IsMatched : Client C R → Type 0
  IsMatched c = server_ids c.read_policy ≡ map (λ p. p.0) c.clients

bind_policy :
    {R : Type 0} (r : Result (List ℕ)) (f : List ℕ → ReadPolicy R) (ids : List ℤ) (p : ReadPolicy R)
    → ((ranges : List ℕ) → server_ids (f ranges) ≡ ids)
    → bind r (λ ranges. ok (f ranges)) ≡ ok p
    → server_ids p ≡ ids
bind_policy (ok ranges) f ids p h e =
    sym (ap (λ r. elim r [ ok q ↦ server_ids q | _ ↦ ids ]) e) ∙ h ranges
bind_policy (throw x) f ids p h e = cc
bind_policy undefined f ids p h e = cc
bind_policy (exited c) f ids p h e = cc

module _ (chance : Chance) where
  open chance use {Rng}

  server_at_ok :
      (ids : List ℤ) (i : ℕ) (id : ℤ) → server_at chance ids i ≡ ok id → get_elem? ids i ≡ some id
  unfolding server_at
  server_at_ok ids i id e = ground arith

  new_policy-ids :
      (a : Algorithm) (ids : List ℤ) (num_tokens : ℕ) (p : ReadPolicy Rng)
      → new_policy chance a ids num_tokens ≡ ok p
      → server_ids p ≡ ids
  unfolding new_policy
  new_policy-ids round_robin ids k p e = sym (ap (λ r. elim r [ ok q ↦ server_ids q | _ ↦ ids ]) e)
  new_policy-ids hash ids k p e =
      bind_policy (new_ranges (length ids) k) (hash_policy ids) ids p (λ r. refl) e
  new_policy-ids random_token ids k p e =
      bind_policy (new_ranges (length ids) k) (λ r. random_token_policy ids r chance.seeded) ids p
        (λ r. refl) e
  new_policy-ids random_uniform ids k p e =
      sym (ap (λ r. elim r [ ok q ↦ server_ids q | _ ↦ ids ]) e)
  new_policy-ids fixed ids k p e = sym (ap (λ r. elim r [ ok q ↦ server_ids q | _ ↦ ids ]) e)

  -- A request changes the state of a policy, not its servers.
  next-ids : (key : Bytes) (p : ReadPolicy Rng) → server_ids (next chance key p).1 ≡ server_ids p
  unfolding next rotate
  next-ids key (round_robin_policy ids rri) = ground arith
  next-ids key (random_uniform_policy ids rng) = refl
  next-ids key (random_token_policy ids ranges rng) = refl
  next-ids key (hash_policy ids ranges) = refl
  next-ids key (fixed_policy ids mapping) = refl

  next_server-ids :
      (key : Bytes) (p : ReadPolicy Rng) → server_ids (next_server chance key p).1 ≡ server_ids p
  unfolding next_server
  next_server-ids key p =
      bind_keeps (λ q. server_ids q ≡ server_ids p) (λ q. server_ids q ≡ server_ids p)
        (next chance key) (λ i. lift (server_at chance (server_ids p) i)) p (next-ids key p)
        (λ q e. e) (λ i q e. e)

  next_server_ok :
      (key : Bytes) (p : ReadPolicy Rng) (id : ℤ)
      → (next_server chance key p).0 ≡ ok id
      → (i : ℕ) × (get_elem? (server_ids p) i ≡ some id)
  unfolding next_server
  next_server_ok key p id e =
      let (i, picked, rest) =
        bind_ok (next chance key) (λ i. lift (server_at chance (server_ids p) i)) p id e in
      (i, server_at_ok (server_ids p) i id rest)

  module _ (net : Net) where
    pub new_client-IsMatched :
        (host : Bytes) (port : ℕ) (a : Algorithm) (k timeout_ms retries : ℕ) (print : Bool)
        (w : net.World) (c : Client net.Conn Rng)
        → (new_client net chance host port a k timeout_ms retries print w).0 ≡ ok c
        → IsMatched c
    unfolding new_client
    new_client-IsMatched host port a k timeout_ms retries print w c e =
        grind (arith, new_policy-ids)

    pub get_by_policy :
        (key : Bytes) (s : Run net Rng) (id : ℤ)
        → IsMatched s.0
        → (next_server chance key s.0.read_policy).0 ≡ ok id
        → (cl : net.Conn) × (find_client id s.0.clients ≡ some cl)
          × ((get net chance key none s).0 ≡ (net.call_get key cl s.1).0)
    unfolding get target_server on_world
    get_by_policy key s id matched e =
        let (i, there) = next_server_ok key s.0.read_policy id e in
        let (cl, found) = find_client-ids s.0.clients i id (rw (sym matched) there) in
        (cl, found, rw (e, found))

    pub get-IsMatched :
        (key : Bytes) (server : Option ℤ) (s : Run net Rng)
        → IsMatched s.0
        → IsMatched (get net chance key server s).1.0
    unfolding get target_server on_world
    get-IsMatched key none s matched = grind (arith, next_server-ids key s.0.read_policy)
    get-IsMatched key (some id) s matched = ground arith

    set_mapping-ids :
        (m : List (Bytes × ℕ)) (p : ReadPolicy Rng) → server_ids (set_mapping m p) ≡ server_ids p
    unfolding set_mapping
    set_mapping-ids m p = ground arith

    pub set_fixed_key_mapping-IsMatched :
        (m : List (Bytes × ℕ)) (c : Client net.Conn Rng)
        → IsMatched c
        → IsMatched (set_fixed_key_mapping net chance m c)
    unfolding set_fixed_key_mapping
    set_fixed_key_mapping-IsMatched m c matched = ground (arith, set_mapping-ids m c.read_policy)
