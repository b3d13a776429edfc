-- ===== src/ReadPolicy/Tests.antt =====
-- The theorems on read policies, with numbers drawn from a counter and a hash that is the first byte of
-- a key.
use replicated_splinterdb.Base.{◌≡◌, some, List, [], ◌∷◌, get_elem?, ℤ, pos, ok, arith}
use replicated_splinterdb.ReadPolicy.{
  hash, random_token, hash_policy, random_token_policy, round_robin_policy, hash_token, new_policy,
  next_server,
}
use replicated_splinterdb.ReadPolicy.Sample.{counter}
use replicated_splinterdb.ReadPolicy.Ranges.{ranges_for}
use replicated_splinterdb.ReadPolicy.Search.{served, range_policies_divide}
use replicated_splinterdb.ReadPolicy.Rotation.{after, round_robin_cycles}

abbrev three_ids : List ℤ
three_ids = pos 4 ∷ pos 5 ∷ pos 6 ∷ []

round_robin_cycles_example :
    (id : ℤ) × (get_elem? three_ids 1 ≡ some id)
    × ((next_server counter []
          (after counter three_ids ([] ∷ [] ∷ [] ∷ [] ∷ []) (round_robin_policy three_ids 0))).0
        ≡ ok id)
round_robin_cycles_example =
    round_robin_cycles counter three_ids ([] ∷ [] ∷ [] ∷ [] ∷ []) [] (omega arith) (omega arith)

range_policies_divide_example :
    (new_policy counter hash three_ids 2 ≡ ok (hash_policy three_ids (ranges_for 6)))
    × (new_policy counter random_token three_ids 2
        ≡ ok (random_token_policy three_ids (ranges_for 6) 0))
    × (next_server counter (3 ∷ []) (hash_policy three_ids (ranges_for 6)) ≡ (
      served counter three_ids 6 (hash_token counter (3 ∷ [])),
      hash_policy three_ids (ranges_for 6),
    ))
    × (next_server counter (3 ∷ []) (random_token_policy three_ids (ranges_for 6) 9)
        ≡ (served counter three_ids 6 9, random_token_policy three_ids (ranges_for 6) 10))
range_policies_divide_example =
    range_policies_divide counter (3 ∷ []) three_ids 2 9 (omega arith) (omega arith) (omega arith)
      (omega arith)
