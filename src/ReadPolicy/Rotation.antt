-- ===== src/ReadPolicy/Rotation.antt =====
-- The order in which round_robin_read_policy takes the servers.
use native.Mathlib.Nat.{mod-add-mod}
use replicated_splinterdb.Base.{
  [], ◌∷◌, ℕ, suc, ◌+◌, ◌%◌, ◌^◌, ◌<◌, ◌≡◌, sym, ap, ◌∙◌, false, some, List, length, get_elem?,
  get_elem?-below, ℤ, u64, ◌==◌, ok, arith,
}
use replicated_splinterdb.Nuraft.{Bytes}
use replicated_splinterdb.ReadPolicy.{
  Chance, ReadPolicy, round_robin_policy, rotate, next, server_at, next_server,
}
use replicated_splinterdb.ReadPolicy.Ranges.{mod_below}

mod_step : (k n : ℕ) → 0 < n → n < 2 ^ 63 → u64 (k % n + 1) % n ≡ suc k % n
mod_step k n h small =
    let below : k % n < n = mod_below k n h in
    let e : u64 (k % n + 1) ≡ k % n + 1 = grind arith in
    rw e (mod-add-mod k n 1 ∙ ap (λ (i : ℕ). i % n) (omega arith))

module _ (c : Chance) (ids : List ℤ) where
  -- The policy after it was asked for a server for each of these keys.
  abbrev pub after : List Bytes → ReadPolicy c.Rng → ReadPolicy c.Rng
  after [] p = p
  after (key ∷ keys) p = after keys (next_server c key p).1

  -- One call from place `i`.
  round_robin_step :
      (key : Bytes) (k : ℕ)
      → 0 < length ids
      → length ids < 2 ^ 63
      → (id : ℤ) × (get_elem? ids (k % length ids) ≡ some id)
        × (next_server c key (round_robin_policy ids (k % length ids))
            ≡ (ok id, round_robin_policy ids (suc k % length ids)))
  unfolding next_server next rotate server_at
  round_robin_step key k h small =
      let (id, found) = get_elem?-below ids (k % length ids) (mod_below k (length ids) h) in
      let full : (length ids == 0) ≡ false = ground arith in
      (id, found, rw (full, server_at, found, mod_step k (length ids) h small))

  after_round_robin :
      (keys : List Bytes) (k : ℕ)
      → 0 < length ids
      → length ids < 2 ^ 63
      → after keys (round_robin_policy ids (k % length ids))
        ≡ round_robin_policy ids ((k + length keys) % length ids)
  after_round_robin [] k h small =
      ap (λ (i : ℕ). round_robin_policy ids (i % length ids)) (omega arith)
  after_round_robin (key ∷ keys) k h small =
      ap (λ r. after keys r.1) (round_robin_step key k h small).2
      ∙ after_round_robin keys (suc k) h small
      ∙ ap (λ (i : ℕ). round_robin_policy ids (i % length ids)) (omega arith)

  -- A new round robin policy over at least one server, and fewer than 2^63: after the requests for
  -- `keys`, whatever they are, the next request is answered with the server at place `length keys`
  -- modulo the number of servers.
  pub round_robin_cycles :
      (keys : List Bytes) (key : Bytes)
      → 0 < length ids
      → length ids < 2 ^ 63
      → (id : ℤ) × (get_elem? ids (length keys % length ids) ≡ some id)
        × ((next_server c key (after keys (round_robin_policy ids 0))).0 ≡ ok id)
  round_robin_cycles keys key h small =
      let (id, found, served) = round_robin_step key (length keys) h small in
      let start : 0 % length ids ≡ 0 = grind arith in
      let e : after keys (round_robin_policy ids 0)
          ≡ round_robin_policy ids (length keys % length ids) =
        ap (λ (i : ℕ). after keys (round_robin_policy ids i)) (sym start)
        ∙ after_round_robin keys 0 h small
        ∙ ap (λ (i : ℕ). round_robin_policy ids (i % length ids)) (omega arith) in
      (id, found, ap (λ p. (next_server c key p).0) e ∙ ap (λ r. r.0) served)
