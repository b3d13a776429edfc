-- ===== src/Node/CatchUp.antt =====
-- A server that lags behind another takes over its entries and commits them.
use mathlib.Core.List.{map-append}
use replicated_splinterdb.Base.{
  ℕ, suc, ◌+◌, ◌-◌, ◌^◌, ◌≡◌, ◌≤◌, ◌<◌, refl, sym, ap, subst, ◌∙◌, List, [], ◌∷◌, ◌++◌, map, length,
  length-map, length-append, get_elem?, get_elem?_within, All, drop, le→ltb_false, pos, ok, arith,
}
use replicated_splinterdb.Base.Numbered.{at}
use replicated_splinterdb.Nuraft.{Nuraft, carried}
use replicated_splinterdb.SplinterDb.{SplinterDb}
use replicated_splinterdb.LogStore.{InmemLogStore}
use replicated_splinterdb.LogStore.Pack.{pack, apply_pack}
use replicated_splinterdb.LogStore.Packed.{packed, packed_size, pack-Represents}
use replicated_splinterdb.LogStore.Splice.{length-spliced, get_elem?-spliced}
use replicated_splinterdb.LogStore.Transfer.{received, apply_pack-packed}
use replicated_splinterdb.LogStore.View.{RaftLog, Represents, next, next_slot-Represents}
use replicated_splinterdb.LogStore.Reads.{value_or, slice, entry_at-Represents}
use replicated_splinterdb.LogStore.Reach as Log
use replicated_splinterdb.Cluster.Meaning.{meaning, nothing, IsReadable}
use replicated_splinterdb.Node.{
  Node, Done, entry_of, agreed, IsNew, Step, stores, Reach, here, after,
}
use replicated_splinterdb.Node.Held.{HoldsDone}
use replicated_splinterdb.Node.Invariant.{history, Reach-Inv}
use replicated_splinterdb.Node.Kept.{get_elem?-map, slice_done, log_explains_data, Reach-trans}
use replicated_splinterdb.Node.Carried.{
  carried_done, entry_of-carried, history-carried, carried-AllSucceed,
}
use replicated_splinterdb.Node.Commits.{AllSucceed, Gives, commit_each}

drop-append_length : {A : Type 0} (xs ys : List A) → drop (length xs) (xs ++ ys) ≡ ys
drop-append_length [] ys = refl
drop-append_length (x ∷ xs) ys = drop-append_length xs ys

All-right : {A : Type 0} (P : A → Type 0) (xs ys : List A) → All P (xs ++ ys) → All P ys
All-right P [] ys h = h
All-right P (x ∷ xs) ys h = All-right P xs ys h.1

module _ (n : Nuraft) where
  open n use {Entry, Buffer}

  -- What a log store received it gives.
  received-Gives :
      (t : InmemLogStore Entry) (l : RaftLog Entry) (k : ℕ) (ds : List (Done Entry))
      → l.start ≤ suc k
      → suc k ≤ next l
      → Represents t (received n l (suc k) (map entry_of ds))
      → Gives n t k (map (carried_done n) ds)
  received-Gives t l k ds lo hi v =
      let es = map (carried n) (map entry_of ds) in
      let len = length-spliced (suc k - l.start) es l.entries (omega arith) in
      let same : length es ≡ length ds =
        length-map (carried n) (map entry_of ds) ∙ length-map entry_of ds in
      let size = length-map (carried_done n) ds in
      record {
        within = omega (arith, next_slot-Represents v, len, same, size);
        gives = λ i d found.
            let e : suc (k + i) - l.start ≡ suc k - l.start + i = omega arith in
            let below = get_elem?_within i d (map (carried_done n) ds) found in
            entry_at-Represents n v (suc (k + i))
            ∙ ap (λ o. ok (value_or l.dummy o))
                {x = at (suc (k + i)) l.start (received n l (suc k) (map entry_of ds)).entries}
                (rw (le→ltb_false (suc (k + i)) l.start (omega arith), e)
                    (get_elem?-spliced (suc k - l.start) es l.entries i (omega arith)
                      (omega (arith, same, size)))
                  ∙ ap (λ zs. get_elem? zs i) (sym (entry_of-carried n ds))
                  ∙ get_elem?-map entry_of (map (carried_done n) ds) i d found);
      }

  slice_more :
      (l : RaftLog Entry) (done more : List (Done Entry))
      → l.start ≤ suc (length done)
      → HoldsDone l (done ++ more)
      → slice l (suc (length done)) (suc (length done) + length more) ≡ map entry_of more
  slice_more l done more lo h =
      let len = length-append done more in
      let e : suc (length done) + length more ≡ suc (length (done ++ more)) = omega arith in
      ap (λ (b : ℕ). slice l (suc (length done)) b) e
      ∙ slice_done l (done ++ more) (length done) lo (omega arith) h
      ∙ ap (map entry_of) (drop-append_length done more)

module _ (n : Nuraft) (db : SplinterDb) {S : Type 0} where
  open n use {Entry, Buffer}
  open db use {Db}

  -- A server after it took over, with this log store, what another committed.
  pub record IsCaughtUp (leader follower : Node Entry Db S) (t : InmemLogStore Entry) : Type 0 where
    pub node : Node Entry Db S
    pub run : Reach n db follower node
    pub same_store : node.store ≡ t
    pub same_index : node.machine.last_committed_idx ≡ leader.machine.last_committed_idx
    pub same_data : db.view node.machine.spl_handle ≡ db.view leader.machine.spl_handle

  -- What the server packs behind index `k` and the other one applies there, with its data then.
  abbrev pub CatchesUp : Node Entry Db S → Node Entry Db S → List (Done Entry) → ℕ → Type 0
  CatchesUp leader follower more k =
      (b : Buffer) × (pack n (suc k) (pos (length more)) leader.store ≡ ok b)
      × ((apply_pack n (suc k) b follower.store).0 ≡ ok tt)
      × IsCaughtUp leader follower (apply_pack n (suc k) b follower.store).1

  module _ (leader0 leader follower0 follower : Node Entry Db S) (more : List (Done Entry))
      (new_l : IsNew n db leader0) (reach_l : Reach n db leader0 leader)
      (new_f : IsNew n db follower0) (reach_f : Reach n db follower0 follower)
      (ahead : leader.done ≡ follower.done ++ more) where
    same_as_leader :
        (g : Node Entry Db S)
        → Reach n db follower g
        → g.done ≡ follower.done ++ map (carried_done n) more
        → IsCaughtUp leader follower g.store
    same_as_leader g run done =
        let e : history n g.done ≡ history n leader.done =
          ap (history n) done
          ∙ map-append (agreed n) follower.done (map (carried_done n) more)
          ∙ ap (λ r. history n follower.done ++ r) (history-carried n more)
          ∙ sym (ap (history n) ahead ∙ map-append (agreed n) follower.done more) in
        let count : length g.done ≡ length leader.done =
          sym (length-map (agreed n) g.done) ∙ ap length e ∙ length-map (agreed n) leader.done in
        let at_l = log_explains_data n db leader0 leader new_l reach_l in
        let at_g = log_explains_data n db follower0 g new_f (Reach-trans n db reach_f run) in
        record {
          node = g;
          run = run;
          same_store = refl;
          same_index = at_g.0 ∙ count ∙ sym at_l.0;
          same_data = at_g.2 ∙ ap (λ h. meaning n db h (nothing n db)) e ∙ sym at_l.2;
        }

    more-IsReadable : All (IsReadable n db) (history n more)
    more-IsReadable = All-right (IsReadable n db) (history n follower.done) (history n more) (
        subst (All (IsReadable n db))
          (ap (history n) ahead ∙ map-append (agreed n) follower.done more)
          (Reach-Inv n db new_l reach_l).readable)

    -- The buffer that the other server packs.
    leader_packs :
        leader.store.start_idx ≤ suc (length follower.done)
        → 4 + packed_size n (map entry_of more) < 2 ^ 31
        → (pack n (suc (length follower.done)) (pos (length more)) leader.store
            ≡ ok (packed n (map entry_of more)))
          × (suc (length follower.done) + length (map entry_of more) < 2 ^ 64)
    leader_packs there fits =
        let inv = Reach-Inv n db new_l reach_l in
        let lo : inv.log.start ≤ suc (length follower.done) =
          omega (arith, inv.represents.start_eq) in
        let held = subst (HoldsDone inv.log) ahead inv.held in
        let count = length-append follower.done more in
        let slices = slice_more n inv.log follower.done more lo held in
        (
          pack-Represents n inv.represents (suc (length follower.done)) (length more) lo
                (omega (arith, held.reaches, count)) (rw slices fits)
              ∙ ap (λ z. ok (packed n z)) slices,
          omega (arith, length-map entry_of more, held.reaches, count, inv.represents.fits),
        )

    -- This server with the store after `apply_pack`.
    abbrev receiver : Node Entry Db S
    receiver = record follower {
      store =
          (apply_pack n (suc (length follower.done)) (packed n (map entry_of more))
            follower.store).1;
    }

    take_over :
        0 < length more
        → leader.store.start_idx ≤ suc (length follower.done)
        → 4 + packed_size n (map entry_of more) < 2 ^ 31
        → AllSucceed n db (length follower.done) more follower.machine
        → CatchesUp leader follower more (length follower.done)
    take_over some_more there fits succeed =
        let inv = Reach-Inv n db new_f reach_f in
        let v = inv.represents in
        let k = length follower.done in
        let es = map entry_of more in
        let (packs, room) = leader_packs there fits in
        let some_entry : 0 < length es = omega (arith, length-map entry_of more) in
        let hi : suc k ≤ next inv.log = omega (arith, inv.held.reaches) in
        let taken =
          apply_pack-packed n es (suc k) follower.store inv.log v.logs_eq v.positive inv.held.begins
            hi some_entry room v.fits in
        let received =
          Log.receives (suc k) es (omega (arith, v.start_eq, inv.held.begins))
            (omega (arith, next_slot-Represents v)) some_entry room in
        let st : Step n db follower receiver = stores received (omega arith) in
        let done =
          commit_each n db (map (carried_done n) more) receiver
            (received-Gives n receiver.store inv.log k more inv.held.begins hi taken.1)
            (subst (All (IsReadable n db)) (sym (history-carried n more)) more-IsReadable)
            (carried-AllSucceed n db k more follower.machine succeed) in
        (
          packed n es,
          packs,
          taken.0,
          subst (IsCaughtUp leader follower) done.same_store
              (same_as_leader done.node (Reach-trans n db (after here st) done.run) done.more_done),
        )

    -- For two servers that the steps of `Node.Step` have brought from new ones to where they are,
    -- the leader having committed the entries of the follower and then at least one more, with its
    -- log not compacted behind the follower's last committed index and the wire form of those
    -- further entries below 2 GiB: `pack` of the leader returns a buffer of them, `apply_pack` of
    -- the follower takes it with no exception, and, where SplinterDB's calls for them succeed on
    -- the follower, there is a run of the follower from there that commits what its log store gives
    -- and ends with the last committed index and the keys and values of the leader.
    pub caught_up :
        0 < length more
        → leader.store.start_idx ≤ suc follower.machine.last_committed_idx
        → 4 + packed_size n (map entry_of more) < 2 ^ 31
        → AllSucceed n db follower.machine.last_committed_idx more follower.machine
        → CatchesUp leader follower more follower.machine.last_committed_idx
    caught_up some_more there fits succeed =
        let e = (Reach-Inv n db new_f reach_f).replica.index in
        subst (CatchesUp leader follower more) (sym e) (
          take_over some_more (omega (arith, e)) fits
            (subst (λ (k : ℕ). AllSucceed n db k more follower.machine) e succeed))
