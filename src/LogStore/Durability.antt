-- ===== src/LogStore/Durability.antt =====
-- The emulated disk: what a round of its thread takes for written, and what `write_at` does to the
-- index that is reported as durable.
pub mod Behind
use replicated_splinterdb.Base.{
  ℕ, ◌+◌, ◌*◌, ◌≤◌, ◌<◌, ◌≡◌, refl, ap, ◌∙◌, Option, none, some, Bool, true, false, [], ◌∷◌, ◌++◌,
  All, leb, leb→le, if◌then◌else◌, arith, Bool-cases, inl, inr, u64,
}
use replicated_splinterdb.Base.Map.{Map, assign, find}
use replicated_splinterdb.Nuraft.{Nuraft}
use replicated_splinterdb.LogStore.{InmemLogStore, write_at, keep_up_to}
use replicated_splinterdb.LogStore.Disk.{
  Flushed, Round, take_due, next_sleep_us, notify, disk_emul_round, last_durable_index,
}

-- The index of the last note, or `d` where there is none.
abbrev pub last_noted : ℕ → Map ℕ → ℕ
last_noted d [] = d
last_noted d ((t, i) ∷ m) = last_noted i m

-- Some note is there.
abbrev pub noted : Map ℕ → Bool
noted [] = false
noted (p ∷ m) = true

-- The first note, if there is one, is for a time after `cur_time`.
abbrev pub StartsAfter : ℕ → Map ℕ → Type 0
StartsAfter cur_time [] = Unit {0}
StartsAfter cur_time ((t, i) ∷ m) = cur_time < t

-- `due` has come off the front of the notes `m`, and `waiting` is left.
pub record IsSplit (cur_time : ℕ) (m due waiting : Map ℕ) : Type 0 where
  pub in_order : m ≡ due ++ waiting
  pub in_time : All (λ (p : ℕ × ℕ). p.0 ≤ cur_time) due
  pub to_come : StartsAfter cur_time waiting

abbrev or_else : Bool → Bool → Bool
or_else true b = true
or_else false b = b

pub record TakesDue (cur_time durable : ℕ) (called : Bool) (m : Map ℕ) (f : Flushed) : Type 0 where
  pub due : Map ℕ
  pub is_split : IsSplit cur_time m due f.waiting
  pub last_due : f.durable ≡ last_noted durable due
  pub calls : f.call_notification ≡ or_else (noted due) called

take_due-TakesDue :
    (cur_time : ℕ) (f : Flushed) (m : Map ℕ)
    → TakesDue cur_time f.durable f.call_notification m (take_due cur_time f m)
unfolding take_due
take_due-TakesDue cur_time f [] = record {
  due = [];
  is_split = record { in_order = refl; in_time = tt; to_come = tt };
  last_due = refl;
  calls = refl;
}
take_due-TakesDue cur_time f ((t, i) ∷ m) = elim (Bool-cases (leb t cur_time)) [
  | inl now ↦
      let rest =
        take_due-TakesDue cur_time (record f { durable = i; call_notification = true }) m in
      rw now (record {
        due = (t, i) ∷ rest.due;
        is_split = record {
          in_order = ap (◌∷◌ (t, i)) rest.is_split.in_order;
          in_time = (leb→le t cur_time now, rest.is_split.in_time);
          to_come = rest.is_split.to_come;
        };
        last_due = rest.last_due;
        calls = rest.calls ∙ or_else-true (noted rest.due);
      })
  | inr later ↦ rw later (record {
    due = [];
    is_split = record { in_order = refl; in_time = tt; to_come = ground arith };
    last_due = refl;
    calls = refl;
  })
]
  where
    or_else-true : (b : Bool) → or_else b true ≡ true
    or_else-true true = refl
    or_else-true false = refl

next_sleep_pos : (cur_time : ℕ) (m : Map ℕ) → StartsAfter cur_time m → 0 < next_sleep_us cur_time m
unfolding next_sleep_us
next_sleep_pos cur_time [] h = omega arith
next_sleep_pos cur_time ((t, i) ∷ m) h = omega arith

-- A round of a thread that was not told to stop splits the notes at the current time: the durable index
-- becomes that of the last note that is due, the others stay, the Raft server is notified exactly when
-- a note was due, and the thread sleeps for a positive time.
pub record IsRound {E : Type 0} (cur_time : ℕ) (s : InmemLogStore E) (r : Round E) : Type 0 where
  pub due : Map ℕ
  pub is_split :
      IsSplit cur_time s.disk_emul_logs_being_written due r.store.disk_emul_logs_being_written
  pub durable : r.store.disk_emul_last_durable_index ≡ last_noted s.disk_emul_last_durable_index due
  pub notifies : r.notified ≡ (if noted due then s.raft_server_bwd_pointer else none)
  pub goes_on : r.goes_on ≡ true
  pub sleeps : 0 < r.sleep_us

notify-if : (b : Bool) (raft : Option ℕ) → notify b raft ≡ (if b then raft else none)
unfolding notify
notify-if true raft = refl
notify-if false raft = refl

-- A round of a thread that was not told to stop splits the notes at the current time: the durable
-- index becomes that of the last note that is due, the others stay, the Raft server is notified
-- exactly when a note was due, and the thread sleeps for a positive time.
pub disk_emul_round-IsRound :
    {E : Type 0} (cur_time : ℕ) (s : InmemLogStore E)
    → s.disk_emul_thread_stop_signal ≡ false
    → IsRound cur_time s (disk_emul_round cur_time s)
unfolding disk_emul_round
disk_emul_round-IsRound cur_time s live = rw live (record {
  due = taken.due;
  is_split = taken.is_split;
  durable = taken.last_due;
  notifies =
      rw (taken.calls, or_else-false) (notify-if (noted taken.due) s.raft_server_bwd_pointer);
  goes_on = refl;
  sleeps = next_sleep_pos cur_time _ taken.is_split.to_come;
})
  where
    or_else-false : (b : Bool) → or_else b false ≡ b
    or_else-false true = refl
    or_else-false false = refl

    start : Flushed
    start = record {
      durable = s.disk_emul_last_durable_index;
      waiting = [];
      call_notification = false;
    }

    taken :
        TakesDue cur_time s.disk_emul_last_durable_index false s.disk_emul_logs_being_written
          (take_due cur_time start s.disk_emul_logs_being_written)
    taken = take_due-TakesDue cur_time start s.disk_emul_logs_being_written

find-keep_up_to :
    (k index : ℕ) (m : Map ℕ) → find k (keep_up_to index (assign k index m)) ≡ some index
unfolding find keep_up_to assign
find-keep_up_to k index [] = ground arith
find-keep_up_to k index ((t, i) ∷ m) = ground (arith, find-keep_up_to k index m)

-- With a delay set, `write_at` at an index that had been reported as durable leaves the report at
-- that index or above, although the new entry there is only noted as being written.
pub write_at_overstates :
    (n : Nuraft) (index : ℕ) (e : n.Entry) (now : ℕ) (s : InmemLogStore n.Entry)
    → 0 < s.disk_emul_delay
    → index ≤ last_durable_index s
    → (index ≤ last_durable_index (write_at n index e now s))
      × (find
            (u64 (now + s.disk_emul_delay * 1000))
            (write_at n index e now s).disk_emul_logs_being_written
          ≡ some index)
unfolding write_at last_durable_index
write_at_overstates n index e now s delayed durable = ground (
  arith,
  find-keep_up_to (u64 (now + s.disk_emul_delay * 1000)) index s.disk_emul_logs_being_written,
)
