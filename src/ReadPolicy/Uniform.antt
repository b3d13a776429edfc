-- ===== src/ReadPolicy/Uniform.antt =====
-- The servers that random_uniform_read_policy picks.
use replicated_splinterdb.Base.{
  ℕ, ◌+◌, ◌-◌, ◌^◌, ◌≤◌, ◌<◌, ◌≡◌, refl, some, List, length, get_elem?, get_elem?-below, ℤ, u64,
  u32, ok, arith,
}
use replicated_splinterdb.Nuraft.{Bytes}
use replicated_splinterdb.ReadPolicy.{
  Chance, random_uniform_policy, server_ids, next, server_at, next_server,
}

-- The distribution goes up to the last place of the list.
last_place : (k : ℕ) → 0 < k → k < 2 ^ 32 → u32 (u64 (k + (2 ^ 64 - 1))) ≡ k - 1
last_place k h small = omega arith

-- A random uniform policy over at least one server, and fewer than 2^32, answers every request with
-- one of its servers and keeps its list of them.
pub random_uniform_served :
    (c : Chance) (ids : List ℤ) (rng : c.Rng) (key : Bytes)
    → 0 < length ids
    → length ids < 2 ^ 32
    → (i : ℕ) × (id : ℤ) × (get_elem? ids i ≡ some id)
      × ((next_server c key (random_uniform_policy ids rng)).0 ≡ ok id)
      × (server_ids (next_server c key (random_uniform_policy ids rng)).1 ≡ ids)
unfolding next_server next server_at
random_uniform_served c ids rng key h small =
    let hi = u32 (u64 (length ids + (2 ^ 64 - 1))) in
    let i = (c.draw 0 hi rng).0 in
    let low : i ≤ hi = (c.draw_bounds 0 hi rng (omega arith)).1 in
    let last : hi ≡ length ids - 1 = last_place (length ids) h small in
    let (id, found) = get_elem?-below ids i (omega arith) in
    (i, id, found, rw (server_at, found), refl)
