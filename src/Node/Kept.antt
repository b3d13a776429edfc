-- ===== src/Node/Kept.antt =====
-- What a server keeps of the entries that it committed, and what its data mean.
use replicated_splinterdb.Base.{
  ℕ, zero, suc, ◌+◌, ◌-◌, ◌≡◌, ◌≤◌, ◌<◌, refl, sym, ap, ◌∙◌, some, List, [], ◌∷◌, ◌++◌, map, length,
  length-map, length-drop, append-nil, append_assoc, get_elem?, get_elem?-below,
  get_elem?-append_left, get_elem?-take, get_elem?-drop, take, take-length, drop, le→ltb_false, ok,
  arith,
}
use replicated_splinterdb.Nuraft.{Nuraft}
use replicated_splinterdb.SplinterDb.{SplinterDb}
use replicated_splinterdb.LogStore.{entry_at, log_entries}
use replicated_splinterdb.LogStore.View.{RaftLog}
use replicated_splinterdb.LogStore.Reads.{
  value_or, entry_at-Represents, slice, length-slice, log_entries-Represents,
}
use replicated_splinterdb.Cluster.Meaning.{meaning, nothing}
use replicated_splinterdb.Node.{
  Node, Done, entry_of, agreed, IsNew, Step, stores, commits, commits_conf, clears_cache,
  dumps_cache, registers, Reach, here, after,
}
use replicated_splinterdb.Node.Held.{HoldsDone}
use replicated_splinterdb.Node.Invariant.{Inv, history, Reach-Inv}

module _ {E : Type 0} where
  same_elements :
      (xs ys : List E)
      → length xs ≡ length ys
      → ((i : ℕ) → i < length xs → get_elem? xs i ≡ get_elem? ys i)
      → xs ≡ ys
  same_elements [] [] len same = refl
  same_elements [] (y ∷ ys) len same = absurd (omega arith)
  same_elements (x ∷ xs) [] len same = absurd (omega arith)
  same_elements (x ∷ xs) (y ∷ ys) len same =
      let head : some x ≡ some y = same 0 (omega arith) in
      let rest : xs ≡ ys = same_elements xs ys (omega arith) λ i h. same (suc i) (omega arith) in cc

  pub get_elem?-map :
      {A : Type 0} (f : A → E) (xs : List A) (i : ℕ) (x : A)
      → get_elem? xs i ≡ some x
      → get_elem? (map f xs) i ≡ some (f x)
  get_elem?-map f [] i x h = cc
  get_elem?-map f (y ∷ xs) zero x h = cc
  get_elem?-map f (y ∷ xs) (suc i) x h = get_elem?-map f xs i x h

  -- The log behind index `k`, up to the last committed entry, is what was committed.
  pub slice_done :
      (l : RaftLog E) (done : List (Done E)) (k : ℕ)
      → l.start ≤ suc k
      → k ≤ length done
      → HoldsDone l done
      → slice l (suc k) (suc (length done)) ≡ map entry_of (drop k done)
  slice_done l done k lo hi h =
      let len =
        length-slice l (suc k) (suc (length done)) lo (omega arith) (omega (arith, h.reaches)) in
      same_elements _ _ (omega (arith, len, length-map entry_of (drop k done), length-drop k done))
        λ i below.
          let (d, found) = get_elem?-below done (k + i) (omega (arith, len)) in
          let place : suc (k + i) - l.start ≡ suc k - l.start + i = omega arith in
          let held = h.same (k + i) d (omega arith) found in
          get_elem?-take (suc (length done) - suc k) (drop (suc k - l.start) l.entries) i
            (omega (arith, len))
          ∙ get_elem?-drop (suc k - l.start) l.entries i
          ∙ rw (le→ltb_false (suc (k + i)) l.start (omega arith), place) at held
          ∙ sym (get_elem?-map entry_of (drop k done) i d (get_elem?-drop k done i ∙ found))

module _ (n : Nuraft) (db : SplinterDb) {S : Type 0} where
  open n use {Entry, Buffer}
  open db use {Db}

  -- In every state that a server reaches by the steps of `Node.Step` from a new one, the last
  -- committed index is the number of entries that it has committed, `log_entries` from the start
  -- index up to the last committed one returns those of them that were not compacted, in order, and
  -- the keys and values are what all of them mean.
  pub log_explains_data :
      (new c : Node Entry Db S)
      → IsNew n db new
      → Reach n db new c
      → (c.machine.last_committed_idx ≡ length c.done)
        × (log_entries n c.store.start_idx (suc c.machine.last_committed_idx) c.store
            ≡ ok (map entry_of (drop (c.store.start_idx - 1) c.done)))
        × (db.view c.machine.spl_handle ≡ meaning n db (history n c.done) (nothing n db))
  log_explains_data new c started reached =
      let inv = Reach-Inv n db started reached in
      let e = inv.represents.start_eq in
      let first : suc (inv.log.start - 1) ≡ inv.log.start =
        omega (arith, inv.represents.positive) in
      let whole : take (length c.done) (history n c.done) ≡ history n c.done =
        rw (length-map (agreed n) c.done) at (take-length (history n c.done)) in
      (
        inv.replica.index,
        ap (λ (k : ℕ). log_entries n c.store.start_idx (suc k) c.store) inv.replica.index
            ∙ ap (λ (k : ℕ). log_entries n k (suc (length c.done)) c.store) (e ∙ sym first)
            ∙ log_entries-Represents n inv.represents (suc (inv.log.start - 1))
                (suc (length c.done)) (omega arith) (omega (arith, inv.held.begins))
                (omega (arith, inv.held.reaches))
            ∙ ap ok (
                slice_done inv.log c.done (inv.log.start - 1) (omega arith)
                  (omega (arith, first, inv.held.begins)) inv.held)
            ∙ ap (λ (k : ℕ). ok (map entry_of (drop (k - 1) c.done))) (sym e),
        rw whole at inv.replica.holds,
      )

  -- A committed entry that is still in the log.
  pub entry_kept :
      (c : Node Entry Db S) (j : ℕ) (d : Done Entry)
      → Inv n db c
      → c.store.start_idx ≤ suc j
      → get_elem? c.done j ≡ some d
      → entry_at n (suc j) c.store ≡ ok (entry_of d)
  entry_kept c j d inv still_there found =
      entry_at-Represents n inv.represents (suc j)
      ∙ ap (λ o. ok (value_or inv.log.dummy o))
          (inv.held.same j d (omega (arith, inv.represents.start_eq)) found)

  pub Step-done :
      {c d : Node Entry Db S}
      → Step n db c d
      → (more : List (Done Entry)) × (d.done ≡ c.done ++ more)
  Step-done {c} (stores st admitted) = ([], sym (append-nil c.done))
  Step-done (commits e room found clear succeeds) = (_, refl)
  Step-done (commits_conf e room found) = (_, refl)
  Step-done {c} clears_cache = ([], sym (append-nil c.done))
  Step-done {c} (dumps_cache directory) = ([], sym (append-nil c.done))
  Step-done {c} registers = ([], sym (append-nil c.done))

  Reach-done :
      {c d : Node Entry Db S}
      → Reach n db c d
      → (more : List (Done Entry)) × (d.done ≡ c.done ++ more)
  Reach-done {c} here = ([], sym (append-nil c.done))
  Reach-done {c} (after r st) =
      let (more, e) = Reach-done r in
      let (last, e') = Step-done st in
      (more ++ last, e' ∙ ap (λ l. l ++ last) e ∙ append_assoc c.done more last)

  pub Reach-trans : {c d e : Node Entry Db S} → Reach n db c d → Reach n db d e → Reach n db c e
  Reach-trans r here = r
  Reach-trans r (after r' st) = after (Reach-trans r r') st

  -- By whatever steps of `Node.Step` a server goes from one state to a later one, starting as a new
  -- one: at an index that was committed in the earlier state and is in the log of both, from its
  -- start index on, `entry_at` gives the same in both.
  pub committed_stays :
      (new c d : Node Entry Db S) (i : ℕ)
      → IsNew n db new
      → Reach n db new c
      → Reach n db c d
      → 0 < i
      → i ≤ c.machine.last_committed_idx
      → c.store.start_idx ≤ i
      → d.store.start_idx ≤ i
      → entry_at n i d.store ≡ entry_at n i c.store
  committed_stays new c d zero started reached later some_index below still_there kept_there =
      absurd (omega arith)
  committed_stays new c d (suc j) started reached later some_index below still_there kept_there =
      let inv = Reach-Inv n db started reached in
      let (more, e) = Reach-done later in
      let (x, found) = get_elem?-below c.done j (omega (arith, inv.replica.index)) in
      entry_kept d j x (Reach-Inv n db started (Reach-trans reached later)) kept_there (
        ap (λ l. get_elem? l j) e
        ∙ get_elem?-append_left c.done more j (omega (arith, inv.replica.index))
        ∙ found)
      ∙ sym (entry_kept c j x inv still_there found)
