-- ===== src/Cluster/PutThenGet.antt =====
-- A get behind a put that was accepted.
use native.Mathlib.Decide.{dec_lt}
use replicated_splinterdb.Base.{
  ℕ, zero, suc, ◌≡◌, ◌≤◌, ◌<◌, ◌^◌, ◌⊎◌, inl, inr, refl, sym, ap, subst, ◌∙◌, true, some, some_eq,
  List, ◌++◌, length, get_elem?, get_elem?_within, get_elem?-below, get_elem?-append_left, take,
  pos, ok, arith,
}
use replicated_splinterdb.Nuraft.{Nuraft, Bytes}
use replicated_splinterdb.SplinterDb.{SplinterDb}
use replicated_splinterdb.SplinterDb.Keys.{bytes_eq_refl}
use replicated_splinterdb.Rpc.{RpcMutationResult, was_accepted}
use replicated_splinterdb.Operation.{make_put, deserialize}
use replicated_splinterdb.Operation.RoundTrip.{wire_size}
use replicated_splinterdb.Replica.{Raft, ReplicaConfig}
use replicated_splinterdb.Server.{handle_get}
use replicated_splinterdb.Client.{Net, Run, put}
use replicated_splinterdb.Cluster.{put_request, logged, Agreed, app_log, Cluster, IsStart, Reach}
use replicated_splinterdb.Cluster.Meaning.{meaning, nothing}
use replicated_splinterdb.Cluster.Invariant.{Reach-Inv}
use replicated_splinterdb.Cluster.Reads.{
  Elsewhere, meaning_put_last, meaning-Elsewhere, get_reads_log,
}
use replicated_splinterdb.Cluster.Mutations.{IsServed, accepted_is_logged}

module _ (n : Nuraft) (db : SplinterDb) where
  open n use {Buffer}

  -- The entry is this put.
  abbrev pub IsPut : Bytes → Bytes → Agreed Buffer → Type 0
  IsPut key value e = (b : Buffer) × (e ≡ app_log b) × (deserialize n b ≡ ok (make_put key value))

  -- A put is on its key.
  put_not-Elsewhere :
      (key value : Bytes) (e : Agreed Buffer) → IsPut key value e → ¬ Elsewhere n db key e
  unfolding make_put
  put_not-Elsewhere key value e (b, same, parsed) other =
      let on_key = (rw same at other) _ parsed in ground (arith, on_key, bytes_eq_refl key)

  -- The log up to `k` that has the put, and on its key only that.
  meaning_only_put :
      (log : List (Agreed Buffer)) (k p : ℕ) (e : Agreed Buffer) (key value : Bytes)
      → p < k
      → ((q : ℕ) → q < k → (d : Agreed Buffer) × (get_elem? log q ≡ some d))
      → get_elem? log p ≡ some e
      → IsPut key value e
      → ((q : ℕ) (d : Agreed Buffer)
          → q < k
          → get_elem? log q ≡ some d
          → Elsewhere n db key d ⊎ IsPut key value d)
      → meaning n db (take k log) (nothing n db) key ≡ some value
  meaning_only_put log zero p e key value below there found is_put only = absurd (omega arith)
  meaning_only_put log (suc k) p e key value below there found is_put only =
      let (d, at_k) = there k (omega arith) in
      elim (only k d (omega arith) at_k) [
        | inr (b, same, parsed) ↦
            meaning_put_last n db log k b key value (at_k ∙ ap some same) parsed
        | inl other ↦ elim (dec_lt p k) [
          | yes earlier ↦
              meaning-Elsewhere n db log k d key at_k other
              ∙ meaning_only_put log k p e key value earlier (λ q h. there q (omega arith)) found
                  is_put (λ q c h. only q c (omega arith))
          | no latest ↦
              let place : p ≡ k = omega arith in
              let same : d ≡ e = some_eq (sym at_k ∙ rw place at found) in
              absurd (put_not-Elsewhere key value e is_put (subst (Elsewhere n db key) same other))
        ]
      ]

module _ (n : Nuraft) (db : SplinterDb) {S : Type 0} where
  open n use {Buffer}
  open db use {Db}

  -- For an RPC library that answers a mutation only with what the handler of the server at the
  -- other end returns, and a Raft library that has an entry in the agreed log by the time of the
  -- return wherever it reports the entry of a request with the code 0: if a put of a client, whose
  -- operation takes less than 2 GiB, returns an accepted result after any number of tries, then in
  -- every state that a cluster reaches from new servers by the steps of `Cluster.Step` and whose
  -- log extends the agreed log at this return, a get handled by a server that has committed at
  -- least the entries of that agreed log, and on this key only entries that read as this put,
  -- however many, answers with the value and the code 0.
  pub put_then_get :
      {R C : Type 0} (net : Net) (agreed_log : net.World → List (Agreed Buffer))
      (raft : net.Conn → Raft n) (raft_world : (cl : net.Conn) → net.World → (raft cl).World)
      (config : net.Conn → ReplicaConfig C) (key value : Bytes) (s : Run net R)
      (q : RpcMutationResult) (start c : Cluster Buffer Db S) (more : List (Agreed Buffer)) (i : ℕ)
      → IsServed n net agreed_log raft raft_world config
      → wire_size (make_put key value) < 2 ^ 31
      → (put net key value s).0 ≡ ok q
      → was_accepted q ≡ true
      → IsStart n db start
      → Reach n db start c
      → c.log ≡ agreed_log (put net key value s).1.1 ++ more
      → length (agreed_log (put net key value s).1.1) ≤ (c.machines i).last_committed_idx
      → ((p : ℕ) (e : Agreed Buffer)
          → p < (c.machines i).last_committed_idx
          → get_elem? c.log p ≡ some e
          → Elsewhere n db key e ⊎ IsPut n db key value e)
      → handle_get db key (c.machines i).spl_handle ≡ record { value = some value; rc = pos 0 }
  unfolding logged
  put_then_get net agreed_log raft raft_world config key value s q start c more i served fits
        answered accepted started reached longer committed only =
      let (p, buf, found, parsed) =
        accepted_is_logged n net agreed_log raft raft_world config (put_request key value) s q
          served fits answered accepted in
      let log = agreed_log (put net key value s).1.1 in
      let k = (c.machines i).last_committed_idx in
      let below = get_elem?_within p (app_log buf) log found in
      let r = (Reach-Inv n db start c started reached).replica i in
      let shown : meaning n db (take k c.log) (nothing n db) key ≡ some value =
        meaning_only_put n db c.log k p (app_log buf) key value (omega arith)
          (λ j h. get_elem?-below c.log j (omega (arith, r.within, r.index)))
          (ap (λ l. get_elem? l p) longer ∙ get_elem?-append_left log more p below ∙ found)
          (buf, refl, parsed) only in
      rw shown at (get_reads_log n db start c started reached i key)
