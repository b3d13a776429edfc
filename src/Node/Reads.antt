-- ===== src/Node/Reads.antt =====
-- What a server of the cluster has in its log store, and what it answers.
use replicated_splinterdb.Base.{
  ℕ, zero, suc, ◌-◌, ◌≡◌, refl, sym, ap, subst, ◌∙◌, List, [], ◌∷◌, ◌++◌, map, length, length-map,
  take, take-length, take-append_left, drop, ok, arith,
}
use replicated_splinterdb.Nuraft.{Nuraft, Bytes}
use replicated_splinterdb.SplinterDb.{SplinterDb}
use replicated_splinterdb.Server.{handle_get}
use replicated_splinterdb.LogStore.{log_entries}
use replicated_splinterdb.Cluster as C
use replicated_splinterdb.Cluster.{Agreed, app_log, conf_log, Cluster}
use replicated_splinterdb.Cluster.Meaning.{meaning, nothing}
use replicated_splinterdb.Cluster.Reads.{IsAnswer, get_reads_log}
use replicated_splinterdb.Node.{Node, Done, applied, configured, entry_of, agreed, IsNew, Reach}
use replicated_splinterdb.Node.Invariant.{history}
use replicated_splinterdb.Node.InCluster.{Mirrors, node_runs_in_cluster, Reach-trans}
use replicated_splinterdb.Node.Kept.{log_explains_data}

drop-map : {A B : Type 0} (f : A → B) (k : ℕ) (xs : List A) → drop k (map f xs) ≡ map f (drop k xs)
drop-map f zero xs = refl
drop-map f (suc k) [] = refl
drop-map f (suc k) (x ∷ xs) = drop-map f k xs

take_left : {A : Type 0} (xs ys l : List A) (k : ℕ) → l ≡ xs ++ ys → k ≡ length xs → take k l ≡ xs
take_left xs ys l k e same =
    ap (take k) e
    ∙ ap (λ (j : ℕ). take j (xs ++ ys)) same
    ∙ take-append_left (length xs) xs ys (omega arith)
    ∙ take-length xs

module _ (n : Nuraft) where
  open n use {Entry, Buffer}

  -- Entries of a log store and as many of the agreed log, one for one: where the latter is an
  -- operation, it is the payload of the former.
  abbrev pub Carries : List Entry → List (Agreed Buffer) → Type 0
  Carries [] [] = Unit {0}
  Carries (e ∷ es) (app_log buf ∷ l) = (n.get_buf e ≡ buf) × Carries es l
  Carries (e ∷ es) (conf_log ∷ l) = Carries es l
  Carries _ _ = ⊥

  Carries-history : (ds : List (Done Entry)) → Carries (map entry_of ds) (history n ds)
  Carries-history [] = tt
  Carries-history (applied e ∷ ds) = (refl, Carries-history ds)
  Carries-history (configured e ∷ ds) = Carries-history ds

module _ (n : Nuraft) (db : SplinterDb) {S : Type 0} where
  open n use {Entry, Buffer}
  open db use {Db}

  -- A server that has, from its start index on, the agreed log in its log store, and answers a get
  -- with what the agreed log means.
  abbrev pub IsServing : Node Entry Db S → List (Agreed Buffer) → Bytes → Type 0
  IsServing d log key =
      let committed = take d.machine.last_committed_idx log in
      ((es : List Entry) × (log_entries n d.store.start_idx (suc d.machine.last_committed_idx)
            d.store
          ≡ ok es)
        × Carries n es (drop (d.store.start_idx - 1) committed))
      × IsAnswer (meaning n db committed (nothing n db) key)
          (handle_get db key d.machine.spl_handle)

  -- For a server that is new at first, whose log store the Raft library fills, overwrites behind
  -- the last committed entry and compacts up to it, and whose state machine commits the entries
  -- that this store gives, one after the other, each readable and with SplinterDB's call
  -- succeeding, or a change of the configuration, and for a cluster that runs by the steps of
  -- `Cluster.Step` from new servers and an empty log and of which this is server `i` at first: if
  -- the entries that it commits are the first entries of the agreed log, then `log_entries` of its
  -- log store, from the start index up to the last committed one, returns one entry for each entry
  -- of the agreed log there, with the agreed operations as payloads, and the handler of a get
  -- answers with what the agreed log up to the last committed index means for the key.
  pub node_reads_log :
      (start x : Cluster Buffer Db S) (c d : Node Entry Db S) (i : ℕ) (rest : List (Agreed Buffer))
      (key : Bytes)
      → C.IsStart n db start
      → C.Reach n db start x
      → IsNew n db c
      → Mirrors n db i c x
      → Reach n db c d
      → x.log ≡ history n d.done ++ rest
      → IsServing d x.log key
  node_reads_log start x c d i rest key started reached new m run log =
      let f = node_runs_in_cluster n db i x rest m run log in
      let answer =
        get_reads_log n db start f.cluster started (Reach-trans n db reached f.run) i key in
      let shown : IsAnswer
          (meaning n db (take (f.cluster.machines i).last_committed_idx x.log) (nothing n db) key)
          (handle_get db key (f.cluster.machines i).spl_handle) =
        rw f.same_log at answer in
      let (index, entries, view) = log_explains_data n db c d new run in
      let committed : take d.machine.last_committed_idx x.log ≡ history n d.done =
        take_left (history n d.done) rest x.log d.machine.last_committed_idx log
          (index ∙ sym (length-map (agreed n) d.done)) in
      let kept = d.store.start_idx - 1 in
      (
        (
          map entry_of (drop kept d.done),
          entries,
          subst (Carries n (map entry_of (drop kept d.done)))
              (sym (ap (drop kept) committed ∙ drop-map (agreed n) kept d.done))
              (Carries-history n (drop kept d.done)),
        ),
        rw f.mirrors.machine at shown,
      )
