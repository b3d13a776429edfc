-- ===== src/Cluster/Committed.antt =====
-- A server that has committed a part of the log, and how a commit extends it.
use replicated_splinterdb.Base.{
  get_elem?_within, take-append_left, All-get, length-append, ℕ, suc, ◌≡◌, refl, sym, ap, fun_ext,
  ◌∙◌, ◌≤◌, some, List, ◌++◌, length, get_elem?, take, All, arith,
}
use replicated_splinterdb.Nuraft.{Nuraft, Bytes}
use replicated_splinterdb.SplinterDb.{SplinterDb}
use replicated_splinterdb.StateMachine.{SplinterdbStateMachine, commit, commit_config}
use replicated_splinterdb.StateMachine.Commit.{effect, commit-effect}
use replicated_splinterdb.Cluster.Meaning.{entry_effect, meaning, nothing, IsReadable, meaning_next}
use replicated_splinterdb.Cluster.{Agreed, app_log, conf_log, CallSucceeds}

module _ (n : Nuraft) (db : SplinterDb) {S : Type 0} where
  open n use {Buffer}
  open db use {Db}

  -- A server that has committed the first `k` entries of the log.
  pub record IsReplica (log : List (Agreed Buffer)) (k : ℕ) (s : SplinterdbStateMachine Db S)
      : Type 0 where
    pub within : k ≤ length log
    pub index : s.last_committed_idx ≡ k
    pub holds : db.view s.spl_handle ≡ meaning n db (take k log) (nothing n db)

  -- A longer log leaves what a server has committed.
  pub IsReplica-longer :
      (log more : List (Agreed Buffer)) (k : ℕ) (s : SplinterdbStateMachine Db S)
      → IsReplica log k s
      → IsReplica (log ++ more) k s
  IsReplica-longer log more k s r = record {
    within = omega (arith, length-append log more, r.within);
    index = r.index;
    holds =
        r.holds
        ∙ ap (λ l. meaning n db l (nothing n db)) (sym (take-append_left k log more r.within));
  }

  pub IsReplica-commit :
      (log : List (Agreed Buffer)) (k : ℕ) (buf : Buffer) (s : SplinterdbStateMachine Db S)
      → All (IsReadable n db) log
      → get_elem? log k ≡ some (app_log buf)
      → CallSucceeds n db buf s
      → IsReplica log k s
      → IsReplica log (suc k) (commit n db (suc k) buf s).1
  IsReplica-commit log k buf s readable found succeeds r =
      let (op, parsed, well_formed) =
        All-get (IsReadable n db) log k (app_log buf) readable found in
      let done = commit-effect n db (suc k) buf op s parsed well_formed (succeeds op parsed) in
      record {
        within = get_elem?_within k (app_log buf) log found;
        index = done.1;
        holds =
            done.2
            ∙ ap (effect db op.type op.key op.value) r.holds
            ∙ rw (entry_effect, parsed) at (sym (meaning_next n db log k (app_log buf) found));
      }

  pub IsReplica-commit_config :
      (log : List (Agreed Buffer)) (k : ℕ) (s : SplinterdbStateMachine Db S)
      → get_elem? log k ≡ some conf_log
      → IsReplica log k s
      → IsReplica log (suc k) (commit_config (suc k) s)
  unfolding commit_config
  IsReplica-commit_config log k s found r = record {
    within = get_elem?_within k conf_log log found;
    index = refl;
    holds = r.holds ∙ sym (meaning_next n db log k conf_log found);
  }

  pub IsReplica-handle :
      (log : List (Agreed Buffer)) (k : ℕ) (d : Db) (s : SplinterdbStateMachine Db S)
      → ((j : Bytes) → db.view d j ≡ db.view s.spl_handle j)
      → IsReplica log k s
      → IsReplica log k (record s { spl_handle = d })
  IsReplica-handle log k d s same r = record {
    within = r.within;
    index = r.index;
    holds = fun_ext same ∙ r.holds;
  }
