-- ===== src/ReadPolicy/Search.antt =====
-- The search of range_based_read_policy::next and a division that gives the same place.
use native.Mathlib.Decide.{dec_le}
use replicated_splinterdb.Base.{
  ℕ, zero, suc, ◌-◌, ◌*◌, ◌/◌, ◌%◌, ◌^◌, ◌≤◌, ◌<◌, ◌≡◌, refl, ap, ◌∙◌, inl, inr, List, length, leb,
  le→leb, lt→leb_false, if◌then◌else◌, ℤ, Result, ok, undefined, arith,
}
use replicated_splinterdb.Nuraft.{Bytes}
use replicated_splinterdb.ReadPolicy.{
  Chance, hash, random_token, new_policy, hash_policy, random_token_policy, range_index, hash_token,
  next, server_at, next_server,
}
use replicated_splinterdb.ReadPolicy.Ranges.{
  width, InRange, ranges_for, width_bounds, index_of_range, no_index_above, product_positive,
  new_ranges-ranges_for, get_elem?-above,
}

-- The range of a token, by a division.
abbrev pub range_number : ℕ → ℕ → ℕ
range_number w token = (token - 1) / w

div_low : (a w : ℕ) → 0 < w → (a / w) * w ≤ a
div_low a w h = grind arith

div_high : (a w : ℕ) → 0 < w → a < suc (a / w) * w
div_high a w h = grind arith

times_less : (a b w : ℕ) → a * w < b * w → a < b
times_less a b w h = grind arith

range_number-InRange :
    (token total : ℕ)
    → 0 < width total
    → token ≤ total * width total
    → 0 < total
    → InRange (width total) (range_number (width total) token) token
      × (range_number (width total) token < total)
range_number-InRange zero total wide low some_range =
    let w = width total in
    let none_below : range_number w 0 ≡ 0 = grind arith in
    ((inl none_below, omega arith), omega (arith, none_below))
range_number-InRange (suc t) total wide low some_range =
    let w = width total in
    let at_t : suc t - 1 ≡ t = omega arith in
    let lo : range_number w (suc t) * w ≤ t = rw at_t (div_low t w wide) in
    let hi : t < suc (range_number w (suc t)) * w = rw at_t (div_high t w wide) in
    ((inr (omega arith), omega arith), times_less (range_number w (suc t)) total w (omega arith))

-- The place in the list of servers that a division gives.
abbrev pub place : ℕ → ℕ → ℕ → ℕ
place servers total token =
    if leb token (total * width total)
    then range_number (width total) token % servers
    else 2 ^ 64 - 1

range_index-place :
    (servers total token : ℕ)
    → 0 < total
    → total < 2 ^ 32
    → range_index servers token (ranges_for total) 0 ≡ place servers total token
range_index-place servers total token some_range fits =
    let bounds = width_bounds total some_range fits in
    elim (dec_le token (total * width total)) [
      | yes low ↦
          let (range, below) = range_number-InRange token total bounds.0 low some_range in
          rw (le→leb token (total * width total) low) (
            index_of_range servers token total (range_number (width total) token) below bounds.1
              range)
      | no high ↦
          rw (lt→leb_false token (total * width total) (omega arith))
            (no_index_above servers token total bounds.1 (omega arith))
    ]

-- The server at a place, undefined behind the list.
abbrev pub served : Chance → List ℤ → ℕ → ℕ → Result ℤ
served c ids total token =
    if leb token (total * width total)
    then server_at c ids (range_number (width total) token % length ids)
    else undefined

module _ (c : Chance) (key : Bytes) (ids : List ℤ) (num_tokens : ℕ) where
  abbrev total : ℕ
  total = length ids * num_tokens

  server_at-place :
      (token : ℕ)
      → length ids < 2 ^ 63
      → server_at c ids (place (length ids) total token) ≡ served c ids total token
  unfolding server_at
  server_at-place token small = elim (dec_le token (total * width total)) [
    | yes low ↦ rw (le→leb token (total * width total) low)
    | no high ↦
        rw
          (
            lt→leb_false token (total * width total) (omega arith),
            server_at,
            get_elem?-above ids (2 ^ 64 - 1) (omega arith),
          )
          refl
  ]

  -- With at least one server, fewer than 2^63 of them, at least one token per server and fewer than
  -- 2^32 tokens in all, the constructors of the hash and the random token policy succeed, and each
  -- of the two serves a request, for the key's hash or the number drawn, by a division: a token t
  -- is served by the server at place ((t - 1) / w) modulo the number of servers, with w the width
  -- (2^32 - 1) / total, where it is at most total * w; above that, the choice of a server is
  -- undefined.
  pub range_policies_divide :
      (rng : c.Rng)
      → 0 < num_tokens
      → 0 < length ids
      → length ids < 2 ^ 63
      → total < 2 ^ 32
      → (new_policy c hash ids num_tokens ≡ ok (hash_policy ids (ranges_for total)))
        × (new_policy c random_token ids num_tokens
            ≡ ok (random_token_policy ids (ranges_for total) c.seeded))
        × (next_server c key (hash_policy ids (ranges_for total))
            ≡ (served c ids total (hash_token c key), hash_policy ids (ranges_for total)))
        × (next_server c key (random_token_policy ids (ranges_for total) rng) ≡ (
          served c ids total (c.draw 0 (2 ^ 32 - 1) rng).0,
          random_token_policy ids (ranges_for total) (c.draw 0 (2 ^ 32 - 1) rng).1,
        ))
  unfolding new_policy next_server next
  range_policies_divide rng h1 h2 small fits =
      let some_range = product_positive (length ids) num_tokens h2 h1 in
      let made = new_ranges-ranges_for (length ids) num_tokens h1 some_range fits in
      let found : (token : ℕ)
          → server_at c ids (range_index (length ids) token (ranges_for total) 0)
            ≡ served c ids total token =
        λ token.
          ap (server_at c ids) (range_index-place (length ids) total token some_range fits)
          ∙ server_at-place token small in
      (
        rw made,
        rw made,
        ap (λ r. (r, hash_policy ids (ranges_for total))) (found (hash_token c key)),
        ap (λ r. (r, random_token_policy ids (ranges_for total) (c.draw 0 (2 ^ 32 - 1) rng).1))
            (found (c.draw 0 (2 ^ 32 - 1) rng).0),
      )
