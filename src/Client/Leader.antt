-- ===== src/Client/Leader.antt =====
-- What the search for the leader comes to.
use replicated_splinterdb.Base.{
  ℕ, zero, suc, ◌<◌, ◌≡◌, refl, ◌≢◌, ◌⊎◌, inl, inr, false, Bool-cases, [], ◌∷◌, ◌++◌, ℤ, negsuc,
  ==ℤ_iff, ◌==ℤ◌, Result, ok, throw, runtime_error, Exception, Exec, ◌>>◌, arith,
}
use replicated_splinterdb.Client.{
  Net, Clients, catch, on_world, back_off, poll, ask_all, get_leader_id,
}

-- A leader was named; an exception was thrown.
abbrev pub Named : Result ℤ → Type 0
Named r = (id : ℤ) × (r ≡ ok id) × (id ≢ negsuc 0)

abbrev pub Threw : {A : Type 0} → Result A → Type 0
Threw {A} r = (e : Exception) × (r ≡ throw e)

-- A call that gives an answer or an exception, in every world.
abbrev pub Returns : {S A : Type 0} → Exec S A → Type 0
Returns {S} {A} m = (s : S) → ((a : A) × ((m s).0 ≡ ok a)) ⊎ Threw (m s).0

catch-Named : {S : Type 0} (m h : Exec S ℤ) (s : S) → Named (m s).0 → Named (catch m h s).0
unfolding catch
catch-Named m h s (id, e, live) = (id, rw (catch, e), live)

catch-Threw : {S A : Type 0} (m h : Exec S A) (s : S) → Threw (m s).0 → catch m h s ≡ h (m s).1
unfolding catch
catch-Threw m h s (x, e) = rw (catch, e)

module _ (net : Net) where
  open net use {World, Conn}

  poll-Named :
      (tries : ℕ) (c : Conn) (s : ℕ × World)
      → 0 < tries
      → Named (net.call_get_leader_id c s.1).0
      → Named (poll net tries c s).0
  unfolding poll on_world
  poll-Named zero c s some_try named = absurd (omega arith)
  poll-Named (suc tries) c s some_try (id, e, live) =
      let alive : (id ==ℤ negsuc 0) ≡ false = ground (arith, live, ==ℤ_iff id (negsuc 0)) in
      rw (e, alive) (id, refl, live)

  module _ (returns : (c : Conn) → Returns (net.call_get_leader_id c)) where
    poll_outcome :
        (tries : ℕ) (c : Conn) (s : ℕ × World)
        → Named (poll net tries c s).0 ⊎ Threw (poll net tries c s).0
    unfolding poll on_world back_off
    poll_outcome zero c s = inr (runtime_error "no live leader", refl)
    poll_outcome (suc tries) c s = elim (returns c s.1) [
      | inl (id, e) ↦ elim (Bool-cases (id ==ℤ negsuc 0)) [
        | inl dead ↦ rw (e, dead) (poll_outcome tries c _)
        | inr live ↦
            rw (e, live) (inl (id, refl, λ h. ground (arith, live, ==ℤ_iff id (negsuc 0), h)))
      ]
      | inr (x, e) ↦ rw e (inr (x, refl))
    ]

    ask_outcome :
        (num_retries : ℕ) (cs : Clients Conn) (s : ℕ × World)
        → Named (ask_all net num_retries cs s).0
          ⊎ ((ask_all net num_retries cs s).0
              ≡ throw (runtime_error "failed to connect to any server"))
    unfolding ask_all back_off
    ask_outcome num_retries [] s = inr refl
    ask_outcome num_retries ((i, c) ∷ cs) s = elim (poll_outcome num_retries c s) [
      | inl named ↦ inl (
          catch-Named (poll net num_retries c) (back_off net >> ask_all net num_retries cs) s named)
      | inr threw ↦
          rw
            (catch-Threw (poll net num_retries c) (back_off net >> ask_all net num_retries cs) s
              threw)
            (ask_outcome num_retries cs _)
    ]

    -- Where every server's answer about the leader is a value or an exception, `get_leader_id`
    -- names a leader, never the -1 that stands for none, or it throws that no server could be
    -- reached.
    pub get_leader_id_outcome :
        (num_retries : ℕ) (cs : Clients Conn) (w : World)
        → Named (get_leader_id net num_retries cs w).0
          ⊎ ((get_leader_id net num_retries cs w).0
              ≡ throw (runtime_error "failed to connect to any server"))
    unfolding get_leader_id
    get_leader_id_outcome num_retries cs w = ask_outcome num_retries cs (100, w)

    ask_finds :
        (num_retries : ℕ) (before after : Clients Conn) (i : ℤ) (c : Conn) (s : ℕ × World)
        → 0 < num_retries
        → ((w : World) → Named (net.call_get_leader_id c w).0)
        → Named (ask_all net num_retries (before ++ (i, c) ∷ after) s).0
    unfolding ask_all back_off
    ask_finds num_retries [] after i c s some_try knows =
        catch-Named (poll net num_retries c) (back_off net >> ask_all net num_retries after) s
          (poll-Named num_retries c s some_try (knows s.1))
    ask_finds num_retries ((j, d) ∷ before) after i c s some_try knows =
        elim (poll_outcome num_retries d s) [
          | inl named ↦
              catch-Named (poll net num_retries d)
                (back_off net >> ask_all net num_retries (before ++ (i, c) ∷ after)) s named
          | inr threw ↦
              rw
                (catch-Threw (poll net num_retries d)
                  (back_off net >> ask_all net num_retries (before ++ (i, c) ∷ after)) s threw)
                (ask_finds num_retries before after i c _ some_try knows)
        ]

    -- Where every server's answer about the leader is a value or an exception, and with at least
    -- one try, one server that always names a leader is enough, wherever in the map it stands:
    -- `get_leader_id` names a leader.
    pub get_leader_id_finds :
        (num_retries : ℕ) (before after : Clients Conn) (i : ℤ) (c : Conn) (w : World)
        → 0 < num_retries
        → ((v : World) → Named (net.call_get_leader_id c v).0)
        → Named (get_leader_id net num_retries (before ++ (i, c) ∷ after) w).0
    unfolding get_leader_id
    get_leader_id_finds num_retries before after i c w some_try knows =
        ask_finds num_retries before after i c (100, w) some_try knows
