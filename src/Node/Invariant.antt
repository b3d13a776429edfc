-- ===== src/Node/Invariant.antt =====
-- The invariant of a server: how its log store, its state machine and the entries it has committed
-- belong together.
use mathlib.Core.List.{map-append}
use replicated_splinterdb.Base.{
  ok_eq, ℕ, suc, ◌≡◌, ◌≤◌, ◌<◌, refl, sym, ap, fun_ext, ◌∙◌, some, List, [], ◌∷◌, ◌++◌, map, length,
  length-append, get_elem?, get_elem?-below, le→ltb_false, ◌-◌, All-append, length-map, All, ok,
  arith,
}
use replicated_splinterdb.Node.Held.{HoldsDone, HoldsDone-committed, HoldsDone-stores}
use replicated_splinterdb.Base.Numbered.{at}
use replicated_splinterdb.Nuraft.{Nuraft, Bytes}
use replicated_splinterdb.SplinterDb.{SplinterDb}
use replicated_splinterdb.LogStore.{next_slot, entry_at}
use replicated_splinterdb.LogStore.View.{
  RaftLog, Represents, next, entry_or_dummy, next_slot-Represents,
}
use replicated_splinterdb.LogStore.Reads.{value_or, entry_at-Represents}
use replicated_splinterdb.LogStore.Reach.{after_step, Step-Represents, new_log_store-Represents}
use replicated_splinterdb.StateMachine.{SplinterdbStateMachine}
use replicated_splinterdb.Cluster.{Agreed}
use replicated_splinterdb.Cluster.Invariant.{
  created_machine, view-handle_clearcache, view-handle_dumpcache, view-register_thread,
}
use replicated_splinterdb.Cluster.Meaning.{IsReadable}
use replicated_splinterdb.Cluster.Committed.{
  IsReplica, IsReplica-longer, IsReplica-commit, IsReplica-commit_config, IsReplica-handle,
}
use replicated_splinterdb.Node.{
  Node, Done, applied, configured, entry_of, agreed, Step, stores, commits, commits_conf,
  clears_cache, dumps_cache, registers, IsNew, Reach, here, after, with_db,
}

pub get_elem?-end :
    {A : Type 0} (xs : List A) (x : A) → get_elem? (xs ++ x ∷ []) (length xs) ≡ some x
get_elem?-end [] x = refl
get_elem?-end (y ∷ xs) x = get_elem?-end xs x

-- The entry that is found within the log.
entry_within :
    {E : Type 0} (l : RaftLog E) (i : ℕ) (e : E)
    → l.start ≤ i
    → i < next l
    → entry_or_dummy l i ≡ e
    → at i l.start l.entries ≡ some e
entry_within l i e lo hi h =
    let (x, found) = get_elem?-below l.entries (i - l.start) (omega arith) in
    let at_i : at i l.start l.entries ≡ some x = rw (le→ltb_false i l.start lo) found in
    at_i ∙ ap some (sym (ap (value_or l.dummy) at_i) ∙ h)

module _ (n : Nuraft) where
  open n use {Entry, Buffer}

  -- What the entries were to the state machine.
  abbrev pub history : List (Done Entry) → List (Agreed Buffer)
  history done = map (agreed n) done

module _ (n : Nuraft) (db : SplinterDb) {S : Type 0} where
  open n use {Entry, Buffer}
  open db use {Db}

  pub record Inv (c : Node Entry Db S) : Type 0 where
    pub log : RaftLog Entry
    pub represents : Represents c.store log
    pub held : HoldsDone log c.done
    pub readable : All (IsReadable n db) (history n c.done)
    pub replica : IsReplica n db (history n c.done) (length c.done) c.machine

  with_db-Inv :
      (c : Node Entry Db S) (d : Db)
      → ((j : Bytes) → db.view d j ≡ db.view c.machine.spl_handle j)
      → Inv c
      → Inv (with_db n db c d)
  with_db-Inv c d same inv = record {
    log = inv.log;
    represents = inv.represents;
    held = inv.held;
    readable = inv.readable;
    replica = IsReplica-handle n db (history n c.done) (length c.done) d c.machine same inv.replica;
  }

  -- The machine commits the next entry of the log.
  committed-Inv :
      (c : Node Entry Db S) (x : Done Entry) (m : SplinterdbStateMachine Db S)
      → (inv : Inv c) → suc (length c.done) < next_slot c.store
      → entry_at n (suc (length c.done)) c.store ≡ ok (entry_of x)
      → IsReadable n db (agreed n x)
      → (All (IsReadable n db) (history n c.done ++ agreed n x ∷ [])
          → get_elem? (history n c.done ++ agreed n x ∷ []) (length c.done) ≡ some (agreed n x)
          → IsReplica n db (history n c.done ++ agreed n x ∷ []) (length c.done) c.machine
          → IsReplica n db (history n c.done ++ agreed n x ∷ []) (suc (length c.done)) m)
      → Inv (record c { machine = m; done = c.done ++ x ∷ [] })
  committed-Inv c x m inv room found clear step =
      let e = map-append (agreed n) c.done (x ∷ []) in
      let len : length (c.done ++ x ∷ []) ≡ suc (length c.done) =
        omega (arith, length-append c.done (x ∷ [])) in
      let readable =
        All-append (IsReadable n db) (history n c.done) (agreed n x ∷ []) inv.readable
          (clear, tt) in
      let last = get_elem?-end (history n c.done) (agreed n x) in
      let i = suc (length c.done) in
      record {
        log = inv.log;
        represents = inv.represents;
        held =
            HoldsDone-committed inv.log c.done x
              (omega (arith, next_slot-Represents inv.represents))
              (entry_within inv.log i (entry_of x) inv.held.begins
                (omega (arith, next_slot-Represents inv.represents))
                (ok_eq (sym (entry_at-Represents n inv.represents i) ∙ found)))
              inv.held;
        readable = rw e readable;
        replica =
            rw (e, len)
              (step readable (rw (length-map (agreed n) c.done) at last) (
                IsReplica-longer n db (history n c.done) (agreed n x ∷ []) (length c.done) c.machine
                  inv.replica));
      }

  Step-Inv : {c d : Node Entry Db S} → Step n db c d → Inv c → Inv d
  Step-Inv {c} (stores st admitted) inv = record {
    log = after_step n st inv.log;
    represents = Step-Represents n st inv.log inv.represents;
    held = HoldsDone-stores n st inv.log c.done inv.represents admitted inv.held;
    readable = inv.readable;
    replica = inv.replica;
  }
  Step-Inv {c} (commits e room found clear succeeds) inv =
      committed-Inv c (applied e) _ inv room found clear λ readable last r.
        IsReplica-commit n db _ (length c.done) (n.get_buf e) c.machine readable last succeeds r
  Step-Inv {c} (commits_conf e room found) inv =
      committed-Inv c (configured e) _ inv room found tt
        λ readable last r. IsReplica-commit_config n db _ (length c.done) c.machine last r
  Step-Inv {c} clears_cache inv =
      with_db-Inv c _ (view-handle_clearcache db c.machine.spl_handle) inv
  Step-Inv {c} (dumps_cache directory) inv =
      with_db-Inv c _ (view-handle_dumpcache db directory c.machine.spl_handle) inv
  Step-Inv {c} registers inv = with_db-Inv c _ (view-register_thread db c.machine.spl_handle) inv

  IsNew-Inv : (c : Node Entry Db S) → IsNew n db c → Inv c
  IsNew-Inv c new =
      let made = created_machine n db new.config new.disable_snapshots c.machine new.created in
      record {
        log = record { dummy = n.default_entry 0 (n.alloc 8); start = 1; entries = [] };
        represents = rw new.new_store (new_log_store-Represents n);
        held =
            rw new.none_done
              (record { begins = omega arith; reaches = omega arith; same = λ i d lo found. cc });
        readable = rw new.none_done tt;
        replica =
            rw new.none_done
              (record { within = omega arith; index = made.0; holds = fun_ext made.1 });
      }

  pub Reach-Inv : {c d : Node Entry Db S} → IsNew n db c → Reach n db c d → Inv d
  Reach-Inv new here = IsNew-Inv _ new
  Reach-Inv new (after r st) = Step-Inv st (Reach-Inv new r)
