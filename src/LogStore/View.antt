-- ===== src/LogStore/View.antt =====
-- What a log store stands for: a dummy entry, the index of the first entry, and the entries.
use replicated_splinterdb.Base.{ℕ, ◌+◌, ◌^◌, ◌<◌, ◌≡◌, none, some, List, ◌∷◌, length, ok, arith}
use replicated_splinterdb.Base.Map.{find}
use replicated_splinterdb.Base.Numbered.{number, at, length-number, find-number}
use replicated_splinterdb.Nuraft.{Nuraft}
use replicated_splinterdb.LogStore.{InmemLogStore, next_slot, find_or_dummy, make_clone}

pub record RaftLog (E : Type 0) : Type 0 where
  pub dummy : E
  pub start : ℕ
  pub entries : List E

module _ {E : Type 0} where
  abbrev pub next : RaftLog E → ℕ
  next l = l.start + length l.entries

  -- The entry at an index, or the dummy entry where there is none.
  abbrev pub entry_or_dummy : RaftLog E → ℕ → E
  entry_or_dummy l i = elim (at i l.start l.entries) [ none ↦ l.dummy | some e ↦ e ]

  pub record Represents (s : InmemLogStore E) (l : RaftLog E) : Type 0 where
    pub logs_eq : s.logs ≡ (0, l.dummy) ∷ number l.start l.entries
    pub start_eq : s.start_idx ≡ l.start
    pub positive : 0 < l.start
    pub fits : next l < 2 ^ 64

  pub next_slot-Represents :
      {s : InmemLogStore E} {l : RaftLog E} → Represents s l → next_slot s ≡ next l
  unfolding next_slot
  next_slot-Represents {s} {l} r =
      rw (r.logs_eq, r.start_eq)
        (omega (arith, length-number l.start l.entries, r.fits, r.positive))

  pub find_or_dummy-Represents :
      (i : ℕ) {s : InmemLogStore E} {l : RaftLog E}
      → Represents s l
      → find_or_dummy i s.logs ≡ ok (entry_or_dummy l i)
  unfolding find_or_dummy find
  find_or_dummy-Represents i {s} {l} r =
      ground (arith, r.logs_eq, r.positive, find-number i l.start l.entries)

pub make_clone_lem : (n : Nuraft) (e : n.Entry) → make_clone n e ≡ e
unfolding make_clone
make_clone_lem n e = n.new_entry-clone e
