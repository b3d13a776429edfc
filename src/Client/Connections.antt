-- ===== src/Client/Connections.antt =====
-- The connections that the constructor of the client makes, as a std::map keeps them.
pub mod Made
use replicated_splinterdb.Base.{
  ℕ, suc, subst, ◌++◌, append_assoc, length, ◌>>◌, ◌≡◌, refl, sym, ap, ◌∙◌, ◌⊎◌, inl, inr, Bool,
  true, false, Bool-cases, List, [], ◌∷◌, map, All, get_elem?, some, ℤ, pos, negsuc, ltb, ◌==ℤ◌,
  ==ℤ_iff, if◌then◌else◌, Result, ok, throw, undefined, exited, runtime_error, Exec, pure, raise,
  ok_eq, lift, ◌>>=◌, bind_ok, arith,
}
use replicated_splinterdb.Nuraft.{Bytes}
use replicated_splinterdb.SplinterDb.Keys.{bytes_eq}
use replicated_splinterdb.Rpc.{RpcServerInfo, RpcClusterEndpoints}
use replicated_splinterdb.Endpoint.{parse_endpoint, valid_port}
use replicated_splinterdb.ReadPolicy.{ReadPolicy, Chance, Algorithm, new_policy}
use replicated_splinterdb.Client.{Net, Clients, Client, before, emplace, catch}
use replicated_splinterdb.Client.Connect.{
  pong, port_number, greet, connect_all, set_timeouts, new_client,
}

before_total : (i j : ℤ) → (i ==ℤ j) ≡ false → before j i ≡ false → before i j ≡ true
before_total (pos i) (pos j) ne h = ground arith
before_total (pos i) (negsuc j) ne h = cc
before_total (negsuc i) (pos j) ne h = refl
before_total (negsuc i) (negsuc j) ne h = ground arith

before_trans : (i j k : ℤ) → before i j ≡ true → before j k ≡ true → before i k ≡ true
before_trans (pos i) (pos j) (pos k) a b = ground arith
before_trans (pos i) (pos j) (negsuc k) a b = cc
before_trans (pos i) (negsuc j) k a b = cc
before_trans (negsuc i) (pos j) (pos k) a b = refl
before_trans (negsuc i) (pos j) (negsuc k) a b = cc
before_trans (negsuc i) (negsuc j) (pos k) a b = refl
before_trans (negsuc i) (negsuc j) (negsuc k) a b = ground arith

-- A server of the list has the id.
abbrev pub Listed : List RpcServerInfo → ℤ → Type 0
Listed srvs id = (i : ℕ) × (srv : RpcServerInfo) × (get_elem? srvs i ≡ some srv) × (srv.id ≡ id)

module _ {C : Type 0} where
  -- The ids rise, so there is one connection for each.
  abbrev pub IsAscending : Clients C → Type 0
  IsAscending [] = Unit {0}
  IsAscending (p ∷ cs) = All (λ q. before p.0 q.0 ≡ true) cs × IsAscending cs

  All-emplace :
      (P : ℤ × C → Type 0) (id : ℤ) (c : C) (cs : Clients C)
      → P (id, c)
      → All P cs
      → All P (emplace id c cs)
  unfolding emplace
  All-emplace P id c [] new h = (new, tt)
  All-emplace P id c ((i, d) ∷ cs) new h = elim (Bool-cases (i ==ℤ id)) [
    | inl same ↦ rw same h
    | inr other ↦ elim (Bool-cases (before id i)) [
      | inl first ↦ rw (other, first) (new, h)
      | inr later ↦ rw (other, later) (h.0, All-emplace P id c cs new h.1)
    ]
  ]

  All-before :
      (i j : ℤ) (cs : Clients C)
      → before i j ≡ true
      → All (λ q. before j q.0 ≡ true) cs
      → All (λ q. before i q.0 ≡ true) cs
  All-before i j [] h all = tt
  All-before i j (q ∷ cs) h all = (before_trans i j q.0 h all.0, All-before i j cs h all.1)

  emplace-IsAscending :
      (id : ℤ) (c : C) (cs : Clients C) → IsAscending cs → IsAscending (emplace id c cs)
  unfolding emplace
  emplace-IsAscending id c [] h = (tt, tt)
  emplace-IsAscending id c ((i, d) ∷ cs) h = elim (Bool-cases (i ==ℤ id)) [
    | inl same ↦ rw same h
    | inr other ↦ elim (Bool-cases (before id i)) [
      | inl first ↦ rw (other, first) ((first, All-before id i cs first h.0), h)
      | inr later ↦
          rw (other, later)
            (
              All-emplace (λ q. before i q.0 ≡ true) id c cs (before_total i id other later) h.0,
              emplace-IsAscending id c cs h.1,
            )
    ]
  ]

pub catch_ok :
    {S A : Type 0} (m h : Exec S A) (s : S) (a : A)
    → (catch m h s).0 ≡ ok a
    → ((m s).0 ≡ ok a) ⊎ ((h (m s).1).0 ≡ ok a)
unfolding catch
catch_ok {S} {A} m h s a e = by_result (m s).0 e
  where
    by_result :
        (r : Result A)
        → (elim r as (λ _. Result A × S) [
          | ok b ↦ (ok b, (m s).1)
          | throw x ↦ h (m s).1
          | undefined ↦ (undefined, (m s).1)
          | exited c ↦ (exited c, (m s).1)
        ]).0
          ≡ ok a
        → (r ≡ ok a) ⊎ ((h (m s).1).0 ≡ ok a)
    by_result (ok b) e = inl e
    by_result (throw x) e = inr e
    by_result undefined e = cc
    by_result (exited c) e = cc

module _ (net : Net) where
  open net use {World, Conn}

  -- A turn of the loop: the connection is made and kept, or the server is skipped.
  abbrev turn : RpcServerInfo → Clients Conn → Bytes × ℤ → Exec World (Clients Conn)
  turn srv cs e =
      catch (net.connect e.0 (port_number e.1) >>= λ c. pure (emplace srv.id c cs)) (pure cs)

  -- What holds of the connections to servers of a list.
  abbrev pub AreConnected : List RpcServerInfo → Clients Conn → Type 0
  AreConnected listed cs = IsAscending cs × All (λ p. Listed listed p.0) cs

  turn_ok :
      (listed : List RpcServerInfo) (srv : RpcServerInfo) (cs ds : Clients Conn) (e : Bytes × ℤ)
      (w : World)
      → Listed listed srv.id
      → AreConnected listed cs
      → (turn srv cs e w).0 ≡ ok ds
      → AreConnected listed ds
  turn_ok listed srv cs ds e w there h done =
      elim (catch_ok (net.connect e.0 (port_number e.1) >>= λ c. pure (emplace srv.id c cs))
        (pure cs) w ds done) [
          | inl made ↦
              let (c, connected, rest) =
                bind_ok (net.connect e.0 (port_number e.1)) (λ c. pure (emplace srv.id c cs)) w ds
                  made in
              subst (AreConnected listed) (ok_eq rest) (
                emplace-IsAscending srv.id c cs h.0,
                All-emplace (λ p. Listed listed p.0) srv.id c cs there h.1,
              )
          | inr skipped ↦ subst (AreConnected listed) (ok_eq skipped) h
        ]

  pub connect_all-AreConnected :
      (listed srvs : List RpcServerInfo) (cs ds : Clients Conn) (w : World)
      → All (λ srv. Listed listed srv.id) srvs
      → AreConnected listed cs
      → (connect_all net srvs cs w).0 ≡ ok ds
      → AreConnected listed ds
  unfolding connect_all
  connect_all-AreConnected listed [] cs ds w there h made =
      subst (AreConnected listed) (ok_eq made) h
  connect_all-AreConnected listed (srv ∷ srvs) cs ds w there h made =
      let (e, parsed, rest) =
        bind_ok (lift (parse_endpoint srv.endpoint))
          (λ e.
            if valid_port e.1
            then turn srv cs e >>= connect_all net srvs
            else raise (runtime_error "invalid port number for host"))
          w ds made in
      elim (Bool-cases (valid_port e.1)) [
        | inl valid ↦
            let (more, turned, others) =
              bind_ok (turn srv cs e) (connect_all net srvs) w ds (rw valid at rest) in
            connect_all-AreConnected listed srvs more ds _ there.1
              (turn_ok listed srv cs more e w there.0 h turned) others
        | inr bad ↦ absurd (cc (rw bad at rest))
      ]
