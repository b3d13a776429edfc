-- ===== src/ReadPolicy/Ranges.antt =====
-- The token ranges of range_based_read_policy, and the server that a token falls to.
use native.Mathlib.Decide.{dec_le}
use replicated_splinterdb.Base.{
  ℕ, zero, suc, ◌+◌, ◌-◌, ◌*◌, ◌/◌, ◌%◌, ◌^◌, ◌≤◌, ◌<◌, ◌≡◌, refl, ap, false, ◌∙◌, ◌⊎◌, inl, inr,
  none, some, List, [], ◌∷◌, length, get_elem?, get_elem?-below, ℤ, u64, u32, le→leb, lt→leb_false,
  ◌==◌, ok, undefined, arith,
}
use replicated_splinterdb.Nuraft.{Bytes}
use replicated_splinterdb.ReadPolicy.{
  Chance, hash, new_policy, ReadPolicy, hash_policy, fill_ranges, new_ranges, range_index,
  hash_token, next, server_at, next_server,
}

-- The width of a range, for `total` tokens.
abbrev pub width : ℕ → ℕ
width total = (2 ^ 32 - 1) / total

-- Token range `j` holds this token: the first also holds 0.
abbrev pub InRange : ℕ → ℕ → ℕ → Type 0
InRange incr j token = ((j ≡ 0) ⊎ (j * incr < token)) × (token ≤ suc j * incr)

-- Ranges from `next` on, of which the one `j` places further holds the token.
range_index_found :
    (n token incr j r next i : ℕ)
    → j < r
    → next + r * incr < 2 ^ 32
    → (j ≡ 0) ⊎ (next + j * incr < token)
    → token ≤ next + suc j * incr
    → range_index n token (fill_ranges r incr next) i ≡ (i + j) % n
unfolding range_index fill_ranges
range_index_found n token incr j zero next i h fits lo hi = absurd (omega arith)
range_index_found n token incr zero (suc r) next i h fits lo hi =
    let e : u32 (next + incr) ≡ next + incr = grind arith in
    let z : i + 0 ≡ i = omega arith in rw (e, le→leb token (next + incr) (omega arith), z)
range_index_found n token incr (suc j) (suc r) next i h fits lo hi =
    let e : u32 (next + incr) ≡ next + incr = grind arith in
    let z : suc i + j ≡ i + suc j = omega arith in
    rw (e, lt→leb_false token (next + incr) (omega arith))
      (range_index_found n token incr j r (next + incr) (suc i) (omega arith) (omega arith)
          (inr (omega arith)) (omega arith)
        ∙ ap (λ (k : ℕ). k % n) z)

-- A token above the last range.
range_index_missed :
    (n token incr r next i : ℕ)
    → next + r * incr < 2 ^ 32
    → next + r * incr < token
    → range_index n token (fill_ranges r incr next) i ≡ 2 ^ 64 - 1
unfolding range_index fill_ranges
range_index_missed n token incr zero next i fits h = refl
range_index_missed n token incr (suc r) next i fits h =
    let e : u32 (next + incr) ≡ next + incr = grind arith in
    rw (e, lt→leb_false token (next + incr) (omega arith))
      (range_index_missed n token incr r (next + incr) (suc i) (omega arith) (omega arith))

pub width_bounds :
    (total : ℕ) → 0 < total → total < 2 ^ 32 → (0 < width total) × (total * width total < 2 ^ 32)
width_bounds total h fits = (grind arith, grind arith)

-- The range of a token that is not above the last.
range_of :
    (token incr total : ℕ)
    → 0 < incr
    → 0 < total
    → token ≤ total * incr
    → (j : ℕ) × (j < total) × InRange incr j token
range_of token incr zero h pos_total fits = absurd (omega arith)
range_of token incr (suc zero) h pos_total fits = (0, omega arith, (inl refl, fits))
range_of token incr (suc (suc t)) h pos_total fits = elim (dec_le token (suc t * incr)) [
  | yes low ↦
      let (j, below, range) = range_of token incr (suc t) h (omega arith) low in
      (j, omega arith, range)
  | no high ↦ (suc t, omega arith, (inr (omega arith), fits))
]

pub get_elem?-above : {A : Type 0} (xs : List A) (i : ℕ) → length xs ≤ i → get_elem? xs i ≡ none
get_elem?-above [] i h = refl
get_elem?-above (x ∷ xs) zero h = absurd (omega arith)
get_elem?-above (x ∷ xs) (suc i) h = get_elem?-above xs i (omega arith)

pub mod_below : (i n : ℕ) → 0 < n → i % n < n
mod_below i n h = grind arith

-- The ranges that the constructor makes for `total` tokens.
abbrev pub ranges_for : ℕ → List ℕ
ranges_for total = fill_ranges total (width total) 0

pub new_ranges-ranges_for :
    (servers tokens : ℕ)
    → 0 < tokens
    → 0 < servers * tokens
    → servers * tokens < 2 ^ 32
    → new_ranges servers tokens ≡ ok (ranges_for (servers * tokens))
unfolding new_ranges
new_ranges-ranges_for servers tokens pos_tokens pos_total fits =
    let a : u64 (servers * tokens) ≡ servers * tokens = grind arith in
    let b : u32 (servers * tokens) ≡ servers * tokens = grind arith in
    let p : (tokens == 0) ≡ false = ground arith in
    let q : (servers * tokens == 0) ≡ false = ground arith in rw (a, b, p, q)

pub product_positive : (a b : ℕ) → 0 < a → 0 < b → 0 < a * b
product_positive a b h k = grind arith

pub index_of_range :
    (n token total j : ℕ)
    → j < total
    → total * width total < 2 ^ 32
    → InRange (width total) j token
    → range_index n token (ranges_for total) 0 ≡ j % n
index_of_range n token total j below fits range =
    let w = width total in
    range_index_found n token w j total 0 0 below (omega arith)
      (elim range.0 [ inl z ↦ inl z | inr low ↦ inr (omega arith) ]) (omega (arith, range.1))
    ∙ ap (λ (k : ℕ). k % n) (omega arith)

pub no_index_above :
    (n token total : ℕ)
    → total * width total < 2 ^ 32
    → total * width total < token
    → range_index n token (ranges_for total) 0 ≡ 2 ^ 64 - 1
no_index_above n token total fits high =
    range_index_missed n token (width total) total 0 0 (omega arith) (omega arith)

module _ (c : Chance) (key : Bytes) (ids : List ℤ) (num_tokens : ℕ) where
  abbrev pub total : ℕ
  total = length ids * num_tokens

  abbrev pub policy : ReadPolicy c.Rng
  policy = hash_policy ids (ranges_for total)

  -- With at least one server and one token per server, and fewer than 2^32 tokens in all, the
  -- constructor makes a hash policy. A key whose token is not above the last range is served, and
  -- the policy stays as it is: the server is the one at place `j` modulo the number of servers,
  -- where range `j` of those of equal width holds the token.
  pub hash_served :
      0 < num_tokens
      → 0 < length ids
      → total < 2 ^ 32
      → hash_token c key ≤ total * width total
      → (new_policy c hash ids num_tokens ≡ ok policy)
        × (j : ℕ) × (j < total)
        × InRange (width total) j (hash_token c key)
        × (id : ℤ) × (get_elem? ids (j % length ids) ≡ some id)
        × (next_server c key policy ≡ (ok id, policy))
  unfolding new_policy next_server next server_at
  hash_served h1 h2 fits low =
      let pos_total = product_positive (length ids) num_tokens h2 h1 in
      let bounds = width_bounds total pos_total fits in
      let (j, below, range) =
        range_of (hash_token c key) (width total) total bounds.0 pos_total low in
      let (id, found) = get_elem?-below ids (j % length ids) (mod_below j (length ids) h2) in
      (
        rw (new_ranges-ranges_for (length ids) num_tokens h1 pos_total fits),
        j,
        below,
        range,
        id,
        found,
        rw (
          index_of_range (length ids) (hash_token c key) total j below bounds.1 range,
          server_at,
          found,
        ),
      )

  -- With at least one server, fewer than 2^63 of them, at least one token per server and fewer than
  -- 2^32 tokens in all, the constructor makes a hash policy. A key whose token is above the last
  -- range is not served: the index `(size_t)-1` leaves the list of servers, which is undefined.
  pub hash_unserved :
      0 < num_tokens
      → 0 < length ids
      → length ids < 2 ^ 63
      → total < 2 ^ 32
      → total * width total < hash_token c key
      → (new_policy c hash ids num_tokens ≡ ok policy)
        × (next_server c key policy ≡ (undefined, policy))
  unfolding new_policy next_server next server_at
  hash_unserved h1 h2 small fits high =
      let pos_total = product_positive (length ids) num_tokens h2 h1 in
      let bounds = width_bounds total pos_total fits in
      (
        rw (new_ranges-ranges_for (length ids) num_tokens h1 pos_total fits),
        rw (
          no_index_above (length ids) (hash_token c key) total bounds.1 high,
          server_at,
          get_elem?-above ids (2 ^ 64 - 1) (omega arith),
        ),
      )
