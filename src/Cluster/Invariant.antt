-- ===== src/Cluster/Invariant.antt =====
-- The invariant of a cluster: how the data of each server and the agreed log belong together.
use replicated_splinterdb.Base.{
  ok_eq, ◌==ℤ◌, ==ℤ_iff, All-append, ℕ, ◌≡◌, sym, ap, subst, fun_ext, ◌∙◌, Bool, Bool-cases, inl,
  inr, none, List, [], ◌∷◌, All, pos, ◌==◌, ==_iff, ok, arith,
}
use replicated_splinterdb.Nuraft.{Nuraft, Bytes}
use replicated_splinterdb.SplinterDb.{SplinterDb}
use replicated_splinterdb.Operation.RoundTrip.{IsWellFormed, deserialize-serialize}
use replicated_splinterdb.Replica.{register_thread}
use replicated_splinterdb.Server.{handle_clearcache, handle_dumpcache}
use replicated_splinterdb.StateMachine.{SplinterdbStateMachine, new_state_machine}
use replicated_splinterdb.Cluster.Meaning.{IsReadable}
use replicated_splinterdb.Cluster.Committed.{
  IsReplica, IsReplica-longer, IsReplica-commit, IsReplica-commit_config, IsReplica-handle,
}
use replicated_splinterdb.Cluster.{
  Request, put_request, update_request, delete_request, logged, Agreed, app_log, conf_log, Cluster,
  update_at, Step, agrees, agrees_conf, commits, commits_conf, clears_cache, dumps_cache,
  with_handle, registers, restarts, IsStart, Reach, here, after,
}

pub logged-IsWellFormed : (r : Request) → IsWellFormed (logged r)
unfolding logged
logged-IsWellFormed (put_request k v) = tt
logged-IsWellFormed (update_request k v) = tt
logged-IsWellFormed (delete_request k) = tt

module _ (db : SplinterDb) where
  open db use {Db}

  pub view-handle_clearcache :
      (d : Db) (j : Bytes) → db.view (handle_clearcache db d).1 j ≡ db.view d j
  unfolding handle_clearcache
  view-handle_clearcache d j = db.view-clear_cache d j

  pub view-handle_dumpcache :
      (directory : Bytes) (d : Db) (j : Bytes)
      → db.view (handle_dumpcache db directory d).1 j ≡ db.view d j
  unfolding handle_dumpcache
  view-handle_dumpcache directory d j = db.view-print_cache directory d j

  pub view-register_thread : (d : Db) (j : Bytes) → db.view (register_thread db d) j ≡ db.view d j
  unfolding register_thread
  view-register_thread d j = db.view-register_thread d j

module _ (n : Nuraft) (db : SplinterDb) {S : Type 0} where
  open n use {Buffer}
  open db use {Db}

  pub record Inv (c : Cluster Buffer Db S) : Type 0 where
    pub readable : All (IsReadable n db) c.log
    pub replica : (i : ℕ) → IsReplica n db c.log (c.committed i) (c.machines i)

  pub created_machine :
      (config : db.Config) (disable_snapshots : Bool) (s : SplinterdbStateMachine Db S)
      → new_state_machine n db config disable_snapshots ≡ ok s
      → (s.last_committed_idx ≡ 0) × ((j : Bytes) → db.view s.spl_handle j ≡ none)
  unfolding new_state_machine
  created_machine config disable_snapshots s e =
      elim (Bool-cases ((db.create config).0 ==ℤ pos 0)) [
        | inl created ↦
            let made = rw created at e in
            (
              sym (ap (λ r. elim r [ ok m ↦ m.last_committed_idx | _ ↦ 0 ]) made),
              λ j. ground (
                arith,
                db.view-create config j,
                ==ℤ_iff (db.create config).0 (pos 0),
                created,
                made,
              ),
            )
        | inr failed ↦ absurd (ground (arith, rw failed at e))
      ]

  -- One server changes, the others stay.
  changed_one :
      (log : List (Agreed Buffer)) (machines : ℕ → SplinterdbStateMachine Db S) (committed : ℕ → ℕ)
      (i k : ℕ) (s : SplinterdbStateMachine Db S)
      → ((j : ℕ) → IsReplica n db log (committed j) (machines j))
      → IsReplica n db log k s
      → (j : ℕ) → IsReplica n db log (update_at committed i k j) (update_at machines i s j)
  changed_one log machines committed i k s all one j = elim (Bool-cases (i == j)) [
    | inl same ↦ rw same one
    | inr other ↦ rw other (all j)
  ]

  changed_handle :
      (log : List (Agreed Buffer)) (machines : ℕ → SplinterdbStateMachine Db S) (committed : ℕ → ℕ)
      (i : ℕ) (s : SplinterdbStateMachine Db S)
      → ((j : ℕ) → IsReplica n db log (committed j) (machines j))
      → IsReplica n db log (committed i) s
      → (j : ℕ) → IsReplica n db log (committed j) (update_at machines i s j)
  changed_handle log machines committed i s all one j = elim (Bool-cases (i == j)) [
    | inl same ↦
        rw same (subst (λ (k : ℕ). IsReplica n db log (committed k) s) ((==_iff i j).0 same) one)
    | inr other ↦ rw other (all j)
  ]

  -- A server whose handle changes and shows the same keys and values.
  handle-Inv :
      (c : Cluster Buffer Db S) (i : ℕ) (d : Db)
      → Inv c
      → ((j : Bytes) → db.view d j ≡ db.view (c.machines i).spl_handle j)
      → Inv (with_handle n db c i d)
  handle-Inv c i d inv same = record {
    readable = inv.readable;
    replica =
        changed_handle c.log c.machines c.committed i _ inv.replica
          (IsReplica-handle n db c.log (c.committed i) d (c.machines i) same (inv.replica i));
  }

  -- A server as its constructor left it has committed nothing.
  created-IsReplica :
      (log : List (Agreed Buffer)) (config : db.Config) (disable_snapshots : Bool)
      (s : SplinterdbStateMachine Db S)
      → new_state_machine n db config disable_snapshots ≡ ok s
      → IsReplica n db log 0 s
  created-IsReplica log config disable_snapshots s e =
      let made = created_machine config disable_snapshots s e in
      record { within = omega arith; index = made.0; holds = fun_ext made.1 }

  Step-Inv : {c d : Cluster Buffer Db S} → Step n db c d → Inv c → Inv d
  Step-Inv {c} (agrees r buf fits written) inv =
      let (b, wrote, _, parsed) = deserialize-serialize n (logged r) (logged-IsWellFormed r) fits in
      let same : b ≡ buf = ok_eq (sym wrote ∙ written) in
      record {
        readable =
            All-append (IsReadable n db) c.log (app_log buf ∷ []) inv.readable
              ((logged r, rw same at parsed, logged-IsWellFormed r), tt);
        replica = λ i.
            IsReplica-longer n db c.log (app_log buf ∷ []) (c.committed i) (c.machines i)
              (inv.replica i);
      }
  Step-Inv {c} agrees_conf inv = record {
    readable = All-append (IsReadable n db) c.log (conf_log ∷ []) inv.readable (tt, tt);
    replica = λ i.
        IsReplica-longer n db c.log (conf_log ∷ []) (c.committed i) (c.machines i) (inv.replica i);
  }
  Step-Inv {c} (commits i buf found succeeds) inv = record {
    readable = inv.readable;
    replica = changed_one c.log c.machines c.committed i _ _ inv.replica (
        IsReplica-commit n db c.log (c.committed i) buf (c.machines i) inv.readable found succeeds
          (inv.replica i));
  }
  Step-Inv {c} (commits_conf i found) inv = record {
    readable = inv.readable;
    replica =
        changed_one c.log c.machines c.committed i _ _ inv.replica
          (IsReplica-commit_config n db c.log (c.committed i) (c.machines i) found (inv.replica i));
  }
  Step-Inv {c} (clears_cache i) inv =
      handle-Inv c i _ inv (view-handle_clearcache db (c.machines i).spl_handle)
  Step-Inv {c} (dumps_cache i directory) inv =
      handle-Inv c i _ inv (view-handle_dumpcache db directory (c.machines i).spl_handle)
  Step-Inv {c} (registers i) inv =
      handle-Inv c i _ inv (view-register_thread db (c.machines i).spl_handle)
  Step-Inv {c} (restarts i config disable_snapshots s made) inv = record {
    readable = inv.readable;
    replica =
        changed_one c.log c.machines c.committed i 0 s inv.replica
          (created-IsReplica c.log config disable_snapshots s made);
  }

  IsStart-Inv : (c : Cluster Buffer Db S) → IsStart n db c → Inv c
  IsStart-Inv c start = record {
    readable = rw start.empty_log tt;
    replica = λ i. rw (start.none_committed i) (
        created-IsReplica c.log (start.config i) (start.disable_snapshots i) (c.machines i)
          (start.created i));
  }

  -- The log is readable and each server holds what it has committed, in every state that the cluster
  -- reaches.
  pub Reach-Inv : (c d : Cluster Buffer Db S) → IsStart n db c → Reach n db c d → Inv d
  Reach-Inv c d start here = IsStart-Inv c start
  Reach-Inv c d start (after r st) = Step-Inv st (Reach-Inv c _ start r)
