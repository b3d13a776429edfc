-- ===== src/Node/Held.antt =====
-- The log of a server has the entries that it committed.
use replicated_splinterdb.Base.{
  ℕ, zero, suc, max, ◌≡◌, ◌≤◌, ◌<◌, ◌⊎◌, inl, inr, refl, ap, ◌∙◌, some, List, [], ◌∷◌, ◌++◌, length,
  length-append, get_elem?, get_elem?_within, arith,
}
use native.Mathlib.Decide.{dec_lt}
use replicated_splinterdb.Base.Numbered.{at}
use replicated_splinterdb.Nuraft.{Nuraft}
use replicated_splinterdb.LogStore.{InmemLogStore}
use replicated_splinterdb.LogStore.View.{RaftLog, Represents, next}
use replicated_splinterdb.LogStore.Reach as Log
use replicated_splinterdb.LogStore.Reach.{after_step, Step-Represents}
use replicated_splinterdb.LogStore.Untouched.{IsKept, Spares, Step-IsKept}
use replicated_splinterdb.Node.{Done, entry_of, Admits}

module _ (n : Nuraft) where
  open n use {Entry}

  -- A call that the library admits, with the last committed index `k`: the log begins no earlier than
  -- before, and no later than behind `k`, and the call spares each committed index left in the log.
  pub record IsAdmitted {s t : InmemLogStore Entry} (st : Log.Step n s t) (l : RaftLog Entry)
      (k : ℕ) : Type 0 where
    pub rises : l.start ≤ (after_step n st l).start
    pub stays : (after_step n st l).start ≤ max l.start (suc k)
    pub spares : (i : ℕ) → (after_step n st l).start ≤ i → i ≤ k → Spares n st i

  Admits-IsAdmitted :
      {s t : InmemLogStore Entry} (st : Log.Step n s t) (l : RaftLog Entry) (k : ℕ)
      → Admits n st k
      → IsAdmitted st l k
  Admits-IsAdmitted (Log.appends e now room) l k h = record {
    rises = omega arith;
    stays = omega arith;
    spares = λ i p q. tt;
  }
  Admits-IsAdmitted (Log.writes index e now lo hi room) l k h = record {
    rises = omega arith;
    stays = omega arith;
    spares = λ i p q. omega arith;
  }
  Admits-IsAdmitted (Log.receives index es lo hi some_entry room) l k h = record {
    rises = omega arith;
    stays = omega arith;
    spares = λ i p q. omega arith;
  }
  Admits-IsAdmitted (Log.compacts last room) l k h = record {
    rises = omega arith;
    stays = omega arith;
    spares = λ i p q. omega arith;
  }
  Admits-IsAdmitted Log.flushes l k h = record {
    rises = omega arith;
    stays = omega arith;
    spares = λ i p q. tt;
  }
  Admits-IsAdmitted (Log.delays raft ms) l k h = record {
    rises = omega arith;
    stays = omega arith;
    spares = λ i p q. tt;
  }
  Admits-IsAdmitted (Log.wakes t) l k h = record {
    rises = omega arith;
    stays = omega arith;
    spares = λ i p q. tt;
  }
  Admits-IsAdmitted Log.stops l k h = record {
    rises = omega arith;
    stays = omega arith;
    spares = λ i p q. tt;
  }

module _ {E : Type 0} where
  -- The log has every committed entry that it does not begin behind, and begins at the next one at
  -- the latest.
  pub record HoldsDone (l : RaftLog E) (done : List (Done E)) : Type 0 where
    pub begins : l.start ≤ suc (length done)
    pub reaches : length done < next l
    pub same :
        (i : ℕ) (d : Done E)
        → l.start ≤ suc i
        → get_elem? done i ≡ some d
        → at (suc i) l.start l.entries ≡ some (entry_of d)

  last_or_earlier :
      (done : List (Done E)) (x d : Done E) (i : ℕ)
      → get_elem? (done ++ x ∷ []) i ≡ some d
      → (get_elem? done i ≡ some d) ⊎ ((i ≡ length done) × (d ≡ x))
  last_or_earlier [] x d zero h = inr (refl, cc)
  last_or_earlier [] x d (suc i) h = cc
  last_or_earlier (y ∷ done) x d zero h = inl h
  last_or_earlier (y ∷ done) x d (suc i) h = elim (last_or_earlier done x d i h) [
    | inl found ↦ inl found
    | inr (place, e) ↦ inr (ap suc place, e)
  ]

  -- One more entry of the log is committed.
  pub HoldsDone-committed :
      (l : RaftLog E) (done : List (Done E)) (x : Done E)
      → suc (length done) < next l
      → at (suc (length done)) l.start l.entries ≡ some (entry_of x)
      → HoldsDone l done
      → HoldsDone l (done ++ x ∷ [])
  HoldsDone-committed l done x room found h = record {
    begins = omega (arith, h.begins, length-append done (x ∷ []));
    reaches = omega (arith, length-append done (x ∷ []));
    same = λ i d lo at_i. elim (last_or_earlier done x d i at_i) [
      | inl earlier ↦ h.same i d lo earlier
      | inr (place, e) ↦ rw (place, e) found
    ];
  }

module _ (n : Nuraft) where
  open n use {Entry}

  pub HoldsDone-stores :
      {s t : InmemLogStore Entry} (st : Log.Step n s t) (l : RaftLog Entry)
      (done : List (Done Entry))
      → Represents s l
      → Admits n st (length done)
      → HoldsDone l done
      → HoldsDone (after_step n st l) done
  HoldsDone-stores st l done v admitted h =
      let a = Admits-IsAdmitted n st l (length done) admitted in
      let kept : (i : ℕ)
          → (after_step n st l).start ≤ i
          → i ≤ length done
          → IsKept l (after_step n st l) i =
        λ i p q.
          Step-IsKept n st l i v (omega (arith, a.rises)) (omega (arith, h.reaches))
            (a.spares i p q) in
      record {
        begins = omega (arith, a.stays, h.begins);
        reaches = elim (dec_lt (length done) (after_step n st l).start) [
          | yes behind ↦ omega arith
          | no within ↦ (kept (length done) (omega arith) (omega arith)).below
        ];
        same = λ i d lo found.
            let below = get_elem?_within i d done found in
            (kept (suc i) lo below).same ∙ h.same i d (omega (arith, a.rises)) found;
      }
