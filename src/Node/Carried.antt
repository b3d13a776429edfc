-- ===== src/Node/Carried.antt =====
-- Committed entries that another server received: the state machine sees no difference.
use replicated_splinterdb.Base.{ℕ, suc, ◌≡◌, refl, sym, ap, subst, ◌∙◌, List, [], ◌∷◌, map}
use replicated_splinterdb.Nuraft.{Nuraft, carried}
use replicated_splinterdb.SplinterDb.{SplinterDb}
use replicated_splinterdb.StateMachine.{SplinterdbStateMachine, commit, commit_config}
use replicated_splinterdb.Cluster.{app_log, conf_log, CallSucceeds}
use replicated_splinterdb.Node.{Done, applied, configured, entry_of}
use replicated_splinterdb.Node.Invariant.{history}
use replicated_splinterdb.Node.Commits.{AllSucceed}

module _ (n : Nuraft) where
  open n use {Entry, Buffer}

  -- A committed entry as it comes off the wire.
  abbrev pub carried_done : Done Entry → Done Entry
  carried_done (applied e) = applied (carried n e)
  carried_done (configured e) = configured (carried n e)

  pub entry_of-carried :
      (ds : List (Done Entry))
      → map entry_of (map carried_done ds) ≡ map (carried n) (map entry_of ds)
  entry_of-carried [] = refl
  entry_of-carried (applied e ∷ ds) = ap (λ r. carried n e ∷ r) (entry_of-carried ds)
  entry_of-carried (configured e ∷ ds) = ap (λ r. carried n e ∷ r) (entry_of-carried ds)

  -- The payloads are the same.
  pub history-carried : (ds : List (Done Entry)) → history n (map carried_done ds) ≡ history n ds
  history-carried [] = refl
  history-carried (applied e ∷ ds) =
      ap (λ b. app_log b ∷ history n (map carried_done ds)) (n.get_buf-deserialize e)
      ∙ ap (λ r. app_log (n.get_buf e) ∷ r) (history-carried ds)
  history-carried (configured e ∷ ds) = ap (λ r. conf_log ∷ r) (history-carried ds)

module _ (n : Nuraft) (db : SplinterDb) {S : Type 0} where
  open n use {Entry}
  open db use {Db}

  pub carried-AllSucceed :
      (k : ℕ) (ds : List (Done Entry)) (m : SplinterdbStateMachine Db S)
      → AllSucceed n db k ds m
      → AllSucceed n db k (map (carried_done n) ds) m
  carried-AllSucceed k [] m h = tt
  carried-AllSucceed k (applied e ∷ ds) m h =
      let same = sym (n.get_buf-deserialize e) in
      (
        subst (λ b. CallSucceeds n db b m) same h.0,
        subst (λ b. AllSucceed n db (suc k) (map (carried_done n) ds) (commit n db (suc k) b m).1)
            same (carried-AllSucceed (suc k) ds (commit n db (suc k) (n.get_buf e) m).1 h.1),
      )
  carried-AllSucceed k (configured e ∷ ds) m h =
      carried-AllSucceed (suc k) ds (commit_config (suc k) m) h
