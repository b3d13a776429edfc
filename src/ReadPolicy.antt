-- ===== src/ReadPolicy.antt =====
-- Which server a client reads a key from: include/replicated-splinterdb/client/read_policy.h and
-- src/client/read_policy.cpp. The subclasses of read_policy are the constructors of `ReadPolicy`.
-- Pseudo-random numbers (std::mt19937 and its distribution) and MurmurHash3, whose code is copied from
-- its own project, are parameters.
pub mod Ranges
pub mod Search
pub mod Sample
pub mod Rotation
pub mod Uniform
mod Tests
use replicated_splinterdb.Base.{
  ℕ, zero, suc, ◌+◌, ◌-◌, ◌*◌, ◌/◌, ◌%◌, ◌^◌, ◌≤◌, ◌<◌, Option, none, some, List, [], ◌∷◌, length,
  get_elem?, ℤ, u64, u32, leb, ◌==◌, if◌then◌else◌, Result, ok, throw, undefined, invalid_argument,
  out_of_range, bind, Exec, lift, ◌>>=◌,
}
use replicated_splinterdb.Nuraft.{Bytes}
use replicated_splinterdb.SplinterDb.Keys.{bytes_eq}

-- enum class algorithm
pub data Algorithm : Type 0 where
  hash round_robin random_token random_uniform fixed : Algorithm

pub record Chance : Type 1 where
  pub Rng : Type 0
  -- a generator seeded by the random device
  pub seeded : Rng
  -- uniform_int_distribution(lo, hi)
  pub draw : ℕ → ℕ → Rng → ℕ × Rng
  pub draw_bounds :
      (lo hi : ℕ) (r : Rng) → lo ≤ hi → (lo ≤ (draw lo hi r).0) × ((draw lo hi r).0 ≤ hi)
  -- MurmurHash3_x86_32 of a text with a seed
  pub murmur3 : Bytes → ℕ → ℕ
  pub murmur3_bound : (k : Bytes) (seed : ℕ) → murmur3 k seed < 2 ^ 32

pub data ReadPolicy (R : Type 0) : Type 0 where
  round_robin_policy : List ℤ → ℕ → ReadPolicy R
  random_uniform_policy : List ℤ → R → ReadPolicy R
  random_token_policy : List ℤ → List ℕ → R → ReadPolicy R
  hash_policy : List ℤ → List ℕ → ReadPolicy R
  fixed_policy : List ℤ → List (Bytes × ℕ) → ReadPolicy R

-- The loop that fills `ranges_`, with T = uint32_t.
unfoldable pub fill_ranges : ℕ → ℕ → ℕ → List ℕ
fill_ranges zero incr next = []
fill_ranges (suc r) incr next = let next' = u32 (next + incr) in next' ∷ fill_ranges r incr next'

-- The constructor of range_based_read_policy<uint32_t>; a division by zero is undefined.
unfoldable pub new_ranges : ℕ → ℕ → Result (List ℕ)
unfolding fill_ranges
new_ranges num_servers num_tokens =
    let total_tokens = u64 (num_servers * num_tokens) in
    if num_tokens == 0
    then throw (invalid_argument "num_tokens cannot be 0")
    else if u32 total_tokens == 0
    then undefined
    else ok (fill_ranges total_tokens ((2 ^ 32 - 1) / u32 total_tokens) 0)

-- The loop of range_based_read_policy::next from range i on; (size_t)-1 where no range is left.
unfoldable pub range_index : ℕ → ℕ → List ℕ → ℕ → ℕ
range_index num_servers token [] i = 2 ^ 64 - 1
range_index num_servers token (r ∷ ranges) i =
    let more = range_index num_servers token ranges (suc i) in
    if leb token r then i % num_servers else more

-- mapping_.at(key)
unfoldable pub mapping_at : List (Bytes × ℕ) → Bytes → Result ℕ
mapping_at [] key = throw (out_of_range "_Map_base::at")
mapping_at ((k, i) ∷ m) key = let rest = mapping_at m key in if bytes_eq k key then ok i else rest

abbrev pub mmh_seed : ℕ
mmh_seed = 1234567890

module _ {R : Type 0} where
  abbrev pub server_ids : ReadPolicy R → List ℤ
  server_ids (round_robin_policy ids rri) = ids
  server_ids (random_uniform_policy ids rng) = ids
  server_ids (random_token_policy ids ranges rng) = ids
  server_ids (hash_policy ids ranges) = ids
  server_ids (fixed_policy ids mapping) = ids

  -- `rri_ + 1` modulo the number of servers, undefined for 0.
  unfoldable pub rotate : List ℤ → ℕ → Exec (ReadPolicy R) ℕ
  rotate ids rri s =
      if length ids == 0
      then (undefined, s)
      else (ok rri, round_robin_policy ids (u64 (rri + 1) % length ids))

  unfoldable pub set_mapping : List (Bytes × ℕ) → ReadPolicy R → ReadPolicy R
  set_mapping m (fixed_policy ids mapping) = fixed_policy ids m
  set_mapping m p = p

module _ (c : Chance) where
  open c use {Rng}

  unfoldable pub new_policy : Algorithm → List ℤ → ℕ → Result (ReadPolicy Rng)
  new_policy round_robin ids num_tokens = ok (round_robin_policy ids 0)
  new_policy hash ids num_tokens =
      bind (new_ranges (length ids) num_tokens) λ ranges. ok (hash_policy ids ranges)
  new_policy random_token ids num_tokens =
      bind (new_ranges (length ids) num_tokens)
        λ ranges. ok (random_token_policy ids ranges c.seeded)
  new_policy random_uniform ids num_tokens = ok (random_uniform_policy ids c.seeded)
  new_policy fixed ids num_tokens = ok (fixed_policy ids [])

  -- hash_read_policy::get_token
  unfoldable pub hash_token : Bytes → ℕ
  hash_token key = c.murmur3 key mmh_seed

  -- `next` of each subclass.
  unfoldable pub next : Bytes → Exec (ReadPolicy Rng) ℕ
  unfolding rotate
  next key (round_robin_policy ids rri) = rotate ids rri (round_robin_policy ids rri)
  next key (random_uniform_policy ids rng) =
      let (i, rng') = c.draw 0 (u32 (u64 (length ids + (2 ^ 64 - 1)))) rng in
      (ok i, random_uniform_policy ids rng')
  next key (random_token_policy ids ranges rng) =
      let (token, rng') = c.draw 0 (2 ^ 32 - 1) rng in
      (ok (range_index (length ids) token ranges 0), random_token_policy ids ranges rng')
  next key (hash_policy ids ranges) =
      (ok (range_index (length ids) (hash_token key) ranges 0), hash_policy ids ranges)
  next key (fixed_policy ids mapping) = (mapping_at mapping key, fixed_policy ids mapping)

  -- server_ids_[i], undefined out of range
  unfoldable pub server_at : List ℤ → ℕ → Result ℤ
  server_at ids i = elim (get_elem? ids i) [ none ↦ undefined | some id ↦ ok id ]

  unfoldable pub next_server : Bytes → Exec (ReadPolicy Rng) ℤ
  unfolding next server_at
  next_server key p = (next key >>= λ i. lift (server_at (server_ids p) i)) p
