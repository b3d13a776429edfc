-- ===== src/Node/InCluster.antt =====
-- The run of a server is a run of that server in the cluster, where the entries that it commits are
-- those of the agreed log.
use mathlib.Core.List.{map-append}
use replicated_splinterdb.Base.{
  ℕ, suc, ◌≡◌, refl, sym, ap, subst, ◌∙◌, some, List, [], ◌∷◌, ◌++◌, append_assoc, length,
  length-map, length-append, get_elem?, get_elem?-append_left, ==_refl, arith,
}
use replicated_splinterdb.Nuraft.{Nuraft}
use replicated_splinterdb.SplinterDb.{SplinterDb}
use replicated_splinterdb.Server.{handle_clearcache, handle_dumpcache}
use replicated_splinterdb.Replica.{register_thread}
use replicated_splinterdb.StateMachine.{SplinterdbStateMachine, commit, commit_config}
use replicated_splinterdb.Cluster as C
use replicated_splinterdb.Cluster.{
  Agreed, app_log, conf_log, Cluster, CallSucceeds, update_at, with_handle,
}
use replicated_splinterdb.Node.{
  Node, Done, applied, configured, agreed, Step, stores, commits, commits_conf, clears_cache,
  dumps_cache, registers, Reach, here, after,
}
use replicated_splinterdb.Node.Invariant.{history, get_elem?-end}
use replicated_splinterdb.Node.Kept.{Step-done}

update_at_same : {A : Type 0} (f : ℕ → A) (i : ℕ) (a : A) → update_at f i a i ≡ a
update_at_same f i a = rw (==_refl i)

module _ (n : Nuraft) (db : SplinterDb) {S : Type 0} where
  open n use {Entry, Buffer}
  open db use {Db}

  pub Reach-trans :
      {x y z : Cluster Buffer Db S} → C.Reach n db x y → C.Reach n db y z → C.Reach n db x z
  Reach-trans r C.here = r
  Reach-trans r (C.after r' st) = C.after (Reach-trans r r') st

  -- Server `i` of the cluster is this one, the log store aside.
  pub record Mirrors (i : ℕ) (c : Node Entry Db S) (x : Cluster Buffer Db S) : Type 0 where
    pub machine : x.machines i ≡ c.machine
    pub index : x.committed i ≡ length c.done

  -- The cluster goes on to a state with the same log that mirrors the server.
  pub record Follows (i : ℕ) (d : Node Entry Db S) (x : Cluster Buffer Db S) : Type 0 where
    pub cluster : Cluster Buffer Db S
    pub run : C.Reach n db x cluster
    pub mirrors : Mirrors i d cluster
    pub same_log : cluster.log ≡ x.log

  next_agreed :
      (x : Cluster Buffer Db S) (i : ℕ) (done : List (Done Entry)) (d : Done Entry)
      (rest : List (Agreed Buffer))
      → x.committed i ≡ length done
      → x.log ≡ history n (done ++ d ∷ []) ++ rest
      → get_elem? x.log (x.committed i) ≡ some (agreed n d)
  next_agreed x i done d rest index log =
      let len : length (history n done) ≡ x.committed i = length-map (agreed n) done ∙ sym index in
      let split = map-append (agreed n) done (d ∷ []) in
      ap (λ l. get_elem? l (x.committed i)) (log ∙ ap (λ l. l ++ rest) split)
      ∙ get_elem?-append_left (history n done ++ agreed n d ∷ []) rest (x.committed i)
          (omega (arith, len, length-append (history n done) (agreed n d ∷ [])))
      ∙ rw len at (get_elem?-end (history n done) (agreed n d))

  abbrev on_db : (Db → Db) → SplinterdbStateMachine Db S → SplinterdbStateMachine Db S
  on_db f s = record s { spl_handle = f s.spl_handle }

  handle-Follows :
      (x : Cluster Buffer Db S) (i : ℕ) (c : Node Entry Db S) (f : Db → Db)
      → Mirrors i c x
      → C.Step n db x (with_handle n db x i (f (x.machines i).spl_handle))
      → Follows i
          (record c { machine = record c.machine { spl_handle = f c.machine.spl_handle } })
          x
  handle-Follows x i c f m st = record {
    cluster = with_handle n db x i (f (x.machines i).spl_handle);
    run = C.after C.here st;
    mirrors = record {
      machine = update_at_same x.machines i _ ∙ ap (on_db f) m.machine;
      index = m.index;
    };
    same_log = refl;
  }

  commit-Follows :
      (x : Cluster Buffer Db S) (i : ℕ) (c : Node Entry Db S) (d : Done Entry)
      (f : ℕ → SplinterdbStateMachine Db S → SplinterdbStateMachine Db S)
      → Mirrors i c x
      → C.Step n db x (record x {
        machines = update_at x.machines i (f (suc (x.committed i)) (x.machines i));
        committed = update_at x.committed i (suc (x.committed i));
      })
      → Follows i
          (record c { machine = f (suc (length c.done)) c.machine; done = c.done ++ d ∷ [] })
          x
  commit-Follows x i c d f m st = record {
    cluster = record x {
      machines = update_at x.machines i (f (suc (x.committed i)) (x.machines i));
      committed = update_at x.committed i (suc (x.committed i));
    };
    run = C.after C.here st;
    mirrors = record {
      machine =
          update_at_same x.machines i _
          ∙ ap (λ (k : ℕ). f (suc k) (x.machines i)) m.index
          ∙ ap (f (suc (length c.done))) m.machine;
      index =
          update_at_same x.committed i _ ∙ omega (arith, m.index, length-append c.done (d ∷ []));
    };
    same_log = refl;
  }

  Step-Follows :
      {c d : Node Entry Db S} (st : Step n db c d) (i : ℕ) (x : Cluster Buffer Db S)
      (rest : List (Agreed Buffer))
      → Mirrors i c x
      → x.log ≡ history n d.done ++ rest
      → Follows i d x
  Step-Follows (stores st admitted) i x rest m log = record {
    cluster = x;
    run = C.here;
    mirrors = record { machine = m.machine; index = m.index };
    same_log = refl;
  }
  Step-Follows {c} (commits e room found clear succeeds) i x rest m log =
      commit-Follows x i c (applied e) (λ k s. (commit n db k (n.get_buf e) s).1) m
        (C.commits i (n.get_buf e) (next_agreed x i c.done (applied e) rest m.index log)
          (subst (CallSucceeds n db (n.get_buf e)) (sym m.machine) succeeds))
  Step-Follows {c} (commits_conf e room found) i x rest m log =
      commit-Follows x i c (configured e) commit_config m
        (C.commits_conf i (next_agreed x i c.done (configured e) rest m.index log))
  Step-Follows {c} clears_cache i x rest m log =
      handle-Follows x i c (λ d. (handle_clearcache db d).1) m (C.clears_cache i)
  Step-Follows {c} (dumps_cache directory) i x rest m log =
      handle-Follows x i c (λ d. (handle_dumpcache db directory d).1) m (C.dumps_cache i directory)
  Step-Follows {c} registers i x rest m log =
      handle-Follows x i c (register_thread db) m (C.registers i)

  -- A run of the server is a run of the cluster that mirrors it, where what the server has committed
  -- at the end are the first entries of the agreed log.
  pub node_runs_in_cluster :
      {c d : Node Entry Db S} (i : ℕ) (x : Cluster Buffer Db S) (rest : List (Agreed Buffer))
      → Mirrors i c x
      → Reach n db c d
      → x.log ≡ history n d.done ++ rest
      → Follows i d x
  node_runs_in_cluster i x rest m here log = record {
    cluster = x;
    run = C.here;
    mirrors = m;
    same_log = refl;
  }
  node_runs_in_cluster i x rest m (after {d = t} r st) log =
      let (more, e) = Step-done n db st in
      let earlier : x.log ≡ history n t.done ++ (history n more ++ rest) =
        log
        ∙ ap (λ l. l ++ rest) (ap (history n) e ∙ map-append (agreed n) t.done more)
        ∙ append_assoc (history n t.done) (history n more) rest in
      let f = node_runs_in_cluster i x (history n more ++ rest) m r earlier in
      let g = Step-Follows st i f.cluster rest f.mirrors (f.same_log ∙ log) in
      record {
        cluster = g.cluster;
        run = Reach-trans f.run g.run;
        mirrors = g.mirrors;
        same_log = g.same_log ∙ f.same_log;
      }
