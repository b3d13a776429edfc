-- ===== src/LogStore/Untouched.antt =====
-- The entries that a call of the log store leaves where they are.
use replicated_splinterdb.Base.{
  ℕ, suc, max, ◌+◌, ◌-◌, ◌≤◌, ◌<◌, ◌≡◌, refl, sym, ◌∙◌, List, [], ◌∷◌, ◌++◌, map, length,
  length-append, length-take, length-drop, get_elem?, get_elem?-append_left, get_elem?-take,
  get_elem?-drop, take, drop, le→ltb_false, arith,
}
use replicated_splinterdb.Base.Numbered.{at}
use replicated_splinterdb.Nuraft.{Nuraft, carried}
use replicated_splinterdb.LogStore.{InmemLogStore}
use replicated_splinterdb.LogStore.View.{RaftLog, Represents, next, next_slot-Represents}
use replicated_splinterdb.LogStore.Writes.{appended, compacted}
use replicated_splinterdb.LogStore.Reach.{
  Step, appends, writes, receives, compacts, flushes, delays, wakes, stops, after_step,
}

module _ {E : Type 0} where
  -- An index of both logs, with the same entry in both.
  pub record IsKept (l m : RaftLog E) (i : ℕ) : Type 0 where
    pub above : m.start ≤ i
    pub below : i < next m
    pub same : at i m.start m.entries ≡ at i l.start l.entries

  at_within : (i k : ℕ) (xs : List E) → k ≤ i → at i k xs ≡ get_elem? xs (i - k)
  at_within i k xs h = rw (le→ltb_false i k h)

  -- A log with another end.
  changed_behind-IsKept :
      (l : RaftLog E) (j i : ℕ) (es : List E)
      → j ≤ length l.entries
      → l.start ≤ i
      → i < l.start + j
      → IsKept l (record l { entries = take j l.entries ++ es }) i
  changed_behind-IsKept l j i es hj lo hi = record {
    above = lo;
    below = omega (arith, length-append (take j l.entries) es, length-take j l.entries);
    same =
        at_within i l.start _ lo
        ∙ get_elem?-append_left (take j l.entries) es (i - l.start)
            (omega (arith, length-take j l.entries))
        ∙ get_elem?-take j l.entries (i - l.start) (omega arith)
        ∙ sym (at_within i l.start _ lo);
  }

  appended-IsKept :
      (l : RaftLog E) (e : E) (i : ℕ) → l.start ≤ i → i < next l → IsKept l (appended l e) i
  appended-IsKept l e i lo hi = record {
    above = lo;
    below = omega (arith, length-append l.entries (e ∷ []));
    same =
        at_within i l.start _ lo
        ∙ get_elem?-append_left l.entries (e ∷ []) (i - l.start) (omega arith)
        ∙ sym (at_within i l.start _ lo);
  }

  compacted-IsKept :
      (l : RaftLog E) (last i : ℕ)
      → l.start ≤ i
      → last < i
      → i < next l
      → IsKept l (compacted l last) i
  compacted-IsKept l last i lo past hi =
      let shift : suc last - l.start + (i - max l.start (last + 1)) ≡ i - l.start = omega arith in
      record {
        above = omega arith;
        below = omega (arith, length-drop (suc last - l.start) l.entries);
        same =
            at_within i (max l.start (last + 1)) _ (omega arith)
            ∙ get_elem?-drop (suc last - l.start) l.entries (i - max l.start (last + 1))
            ∙ rw shift (sym (at_within i l.start _ lo));
      }

module _ (n : Nuraft) where
  open n use {Entry}

  -- The index is below those that the call writes, and above those that it drops.
  abbrev pub Spares : {s t : InmemLogStore Entry} → Step n s t → ℕ → Type 0
  Spares (appends e now room) i = Unit {0}
  Spares (writes index e now lo hi room) i = i < index
  Spares (receives index es lo hi some_entry room) i = i < index
  Spares (compacts last room) i = last < i
  Spares flushes i = Unit {0}
  Spares (delays raft ms) i = Unit {0}
  Spares (wakes t) i = Unit {0}
  Spares stops i = Unit {0}

  pub Step-IsKept :
      {s t : InmemLogStore Entry} (st : Step n s t) (l : RaftLog Entry) (i : ℕ)
      → Represents s l
      → l.start ≤ i
      → i < next l
      → Spares st i
      → IsKept l (after_step n st l) i
  Step-IsKept (appends e now room) l i v lo hi spared = appended-IsKept l e i lo hi
  Step-IsKept (writes index e now within fits room) l i v lo hi spared =
      changed_behind-IsKept l (index - l.start) i (e ∷ []) (omega (arith, next_slot-Represents v))
        lo (omega arith)
  Step-IsKept (receives index es within fits some_entry room) l i v lo hi spared =
      changed_behind-IsKept l (index - l.start) i
        (map (carried n) es ++ drop (index - l.start + length (map (carried n) es)) l.entries)
        (omega (arith, next_slot-Represents v)) lo (omega arith)
  Step-IsKept (compacts last room) l i v lo hi spared = compacted-IsKept l last i lo spared hi
  Step-IsKept flushes l i v lo hi spared = record { above = lo; below = hi; same = refl }
  Step-IsKept (delays raft ms) l i v lo hi spared = record { above = lo; below = hi; same = refl }
  Step-IsKept (wakes t) l i v lo hi spared = record { above = lo; below = hi; same = refl }
  Step-IsKept stops l i v lo hi spared = record { above = lo; below = hi; same = refl }
