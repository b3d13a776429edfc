-- ===== src/Node/Commits.antt =====
-- A server commits, one after the other, the entries that its log store gives.
use replicated_splinterdb.Base.{
  ℕ, suc, ◌+◌, ◌≡◌, ◌<◌, refl, sym, ap, ◌∙◌, some, List, [], ◌∷◌, ◌++◌, length, length-append,
  append-nil, append_assoc, get_elem?, All, ok, arith,
}
use replicated_splinterdb.Nuraft.{Nuraft}
use replicated_splinterdb.SplinterDb.{SplinterDb}
use replicated_splinterdb.LogStore.{InmemLogStore, next_slot, entry_at}
use replicated_splinterdb.StateMachine.{SplinterdbStateMachine, commit, commit_config}
use replicated_splinterdb.Cluster.{CallSucceeds}
use replicated_splinterdb.Cluster.Meaning.{IsReadable}
use replicated_splinterdb.Node.{
  Node, Done, applied, configured, entry_of, Step, commits, commits_conf, Reach, here, after,
}
use replicated_splinterdb.Node.Invariant.{history}
use replicated_splinterdb.Node.Kept.{Reach-trans}

module _ (n : Nuraft) where
  open n use {Entry, Buffer}

  -- The log store gives these entries behind index `k`.
  pub record Gives (t : InmemLogStore Entry) (k : ℕ) (ds : List (Done Entry)) : Type 0 where
    pub within : k + length ds < next_slot t
    pub gives :
        (i : ℕ) (d : Done Entry)
        → get_elem? ds i ≡ some d
        → entry_at n (suc (k + i)) t ≡ ok (entry_of d)

  Gives-rest :
      (t : InmemLogStore Entry) (k : ℕ) (d : Done Entry) (ds : List (Done Entry))
      → Gives t k (d ∷ ds)
      → Gives t (suc k) ds
  Gives-rest t k d ds g = record {
    within = omega (arith, g.within);
    gives = λ i x found.
        let e : suc (suc k + i) ≡ suc (k + suc i) = omega arith in
        ap (λ (j : ℕ). entry_at n j t) e ∙ g.gives (suc i) x found;
  }

  Gives-first :
      (t : InmemLogStore Entry) (k : ℕ) (d : Done Entry) (ds : List (Done Entry))
      → Gives t k (d ∷ ds)
      → entry_at n (suc k) t ≡ ok (entry_of d)
  Gives-first t k d ds g =
      let e : suc k ≡ suc (k + 0) = omega arith in
      ap (λ (j : ℕ). entry_at n j t) e ∙ g.gives 0 d refl

module _ (n : Nuraft) (db : SplinterDb) {S : Type 0} where
  open n use {Entry, Buffer}
  open db use {Db}

  -- SplinterDB's calls for the entries succeed, one after the other, behind index `k`.
  abbrev pub AllSucceed : ℕ → List (Done Entry) → SplinterdbStateMachine Db S → Type 0
  AllSucceed k [] m = Unit {0}
  AllSucceed k (applied e ∷ ds) m =
      CallSucceeds n db (n.get_buf e) m
      × AllSucceed (suc k) ds (commit n db (suc k) (n.get_buf e) m).1
  AllSucceed k (configured e ∷ ds) m = AllSucceed (suc k) ds (commit_config (suc k) m)

  -- A server that has committed more entries, with the log store it had.
  pub record Committed (c : Node Entry Db S) (ds : List (Done Entry)) : Type 0 where
    pub node : Node Entry Db S
    pub run : Reach n db c node
    pub same_store : node.store ≡ c.store
    pub more_done : node.done ≡ c.done ++ ds

  first-Committed :
      (c : Node Entry Db S) (d : Done Entry) (ds : List (Done Entry))
      (m : SplinterdbStateMachine Db S)
      → Step n db c (record c { machine = m; done = c.done ++ d ∷ [] })
      → Committed (record c { machine = m; done = c.done ++ d ∷ [] }) ds
      → Committed c (d ∷ ds)
  first-Committed c d ds m st rest = record {
    node = rest.node;
    run = Reach-trans n db (after here st) rest.run;
    same_store = rest.same_store;
    more_done = rest.more_done ∙ append_assoc c.done (d ∷ []) ds;
  }

  -- A server commits the entries that its log store gives behind the last committed one.
  pub commit_each :
      (ds : List (Done Entry)) (c : Node Entry Db S)
      → Gives n c.store (length c.done) ds
      → All (IsReadable n db) (history n ds)
      → AllSucceed (length c.done) ds c.machine
      → Committed c ds
  commit_each [] c g readable succeed = record {
    node = c;
    run = here;
    same_store = refl;
    more_done = sym (append-nil c.done);
  }
  commit_each (applied e ∷ ds) c g readable succeed =
      let len : length (c.done ++ applied e ∷ []) ≡ suc (length c.done) =
        omega (arith, length-append c.done (applied e ∷ [])) in
      let m = (commit n db (suc (length c.done)) (n.get_buf e) c.machine).1 in
      let st : Step n db c (record c { machine = m; done = c.done ++ applied e ∷ [] }) =
        commits e (omega (arith, g.within)) (Gives-first n c.store (length c.done) (applied e) ds g)
          readable.0 succeed.0 in
      first-Committed c (applied e) ds m st (
        commit_each ds (record c { machine = m; done = c.done ++ applied e ∷ [] })
          (rw len (Gives-rest n c.store (length c.done) (applied e) ds g)) readable.1
          (rw len succeed.1))
  commit_each (configured e ∷ ds) c g readable succeed =
      let len : length (c.done ++ configured e ∷ []) ≡ suc (length c.done) =
        omega (arith, length-append c.done (configured e ∷ [])) in
      let m = commit_config (suc (length c.done)) c.machine in
      let st : Step n db c (record c { machine = m; done = c.done ++ configured e ∷ [] }) =
        commits_conf e (omega (arith, g.within))
          (Gives-first n c.store (length c.done) (configured e) ds g) in
      first-Committed c (configured e) ds m st (
        commit_each ds (record c { machine = m; done = c.done ++ configured e ∷ [] })
          (rw len (Gives-rest n c.store (length c.done) (configured e) ds g)) readable.1
          (rw len succeed))
