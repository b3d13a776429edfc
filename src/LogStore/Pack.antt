-- ===== src/LogStore/Pack.antt =====
-- Packing a run of log entries into one buffer and unpacking it into another store: `pack` and
-- `apply_pack` of src/server/in_memory_log_store.cpp.
use replicated_splinterdb.Base.{
  ℕ, zero, suc, ◌+◌, ◌-◌, ◌*◌, Option, none, some, List, [], ◌∷◌, ℤ, pos, negsuc, is_negative, u64,
  u64_of, int32_of, if◌then◌else◌, Result, ok, throw, undefined, runtime_error, overflow_error,
  bind, Exec,
}
use replicated_splinterdb.Base.Map.{Map, find, assign, upper_bound}
use replicated_splinterdb.Nuraft.{Nuraft, i32, raw}
use replicated_splinterdb.LogStore.{InmemLogStore}

-- The result of a `put` or `get` that throws where the buffer is too small.
abbrev pub checked {ℓ} : {A : Type ℓ} → Option A → Result A
checked none = throw (overflow_error "not enough space")
checked (some a) = ok a

module _ (n : Nuraft) where
  open n use {Entry, Buffer}

  -- The first loop of `pack`: the buffers of the entries from `ii` on. `logs_[ii]` makes a null
  -- pointer of a missing entry, and `le->serialize()` follows it.
  unfoldable pub serialize_range : ℕ → ℕ → Map Entry → Result (List Buffer)
  serialize_range zero ii m = ok []
  serialize_range (suc r) ii m = elim (find ii m) [
    | none ↦ undefined
    | some le ↦ bind (serialize_range r (u64 (suc ii)) m) (λ rest. ok (n.serialize le ∷ rest))
  ]

  unfoldable pub size_total : List Buffer → ℕ
  size_total [] = 0
  size_total (b ∷ bs) = n.size b + size_total bs

  -- The second loop of `pack`.
  unfoldable pub put_all : List Buffer → Buffer → Option Buffer
  put_all [] out = some out
  put_all (bb ∷ rest) out = elim (n.put (i32 (int32_of (n.size bb))) out) [
    | none ↦ none
    | some out' ↦ elim (n.put (raw (n.bytes bb)) out') [
      | none ↦ none
      | some out'' ↦ put_all rest out''
    ]
  ]

  unfoldable pub fill : ℤ → ℕ → List Buffer → Result Buffer
  unfolding size_total put_all
  fill cnt count bufs =
      let buf_out = n.alloc (u64 (4 + count * 4 + size_total bufs)) in
      bind (checked (n.put (i32 cnt) (n.rewind buf_out))) λ out. checked (put_all bufs out)

  unfoldable pub pack : ℕ → ℤ → InmemLogStore Entry → Result Buffer
  unfolding serialize_range fill
  pack index cnt s =
      if is_negative cnt
      then throw (runtime_error "Packing negative number of logs")
      else let count = u64_of cnt in
        bind (serialize_range (u64 (index + count) - index) index s.logs)
          λ bufs. fill cnt count bufs

  -- The loop of `apply_pack`, over its rounds, from the cursor of `pack`. A map that was written
  -- before an exception stays.
  unfoldable pub unpack : ℕ → ℕ → Buffer → Map Entry → Result (Unit {0}) × Map Entry
  unpack zero cur pack m = (ok tt, m)
  unpack (suc r) cur pack m = elim (n.get_i32 pack) [
    | none ↦ (throw (overflow_error "not enough space"), m)
    | some (negsuc k, p) ↦ (throw (runtime_error "Invalid buffer size (negative)"), m)
    | some (pos buf_size, p) ↦ elim (n.get_raw (n.alloc buf_size) p) [
      | none ↦ (throw (overflow_error "not enough space"), m)
      | some (buf_local, p') ↦ unpack r (u64 (suc cur)) p' (assign cur (n.deserialize buf_local) m)
    ]
  ]

  -- The first index after the dummy entry's.
  unfoldable pub first_index : Map Entry → ℕ
  first_index m = elim (upper_bound 0 m) [ none ↦ 1 | some (k, e) ↦ k ]

  -- The part of `apply_pack` behind the loop, which an exception skips.
  unfoldable pub finish :
      InmemLogStore Entry → Result (Unit {0}) × Map Entry → Result (Unit {0}) × InmemLogStore Entry
  unfolding first_index
  finish s (ok x, m) = (ok x, record s { logs = m; start_idx = first_index m })
  finish s (r, m) = (r, record s { logs = m })

  unfoldable pub apply_pack : ℕ → Buffer → Exec (InmemLogStore Entry) (Unit {0})
  unfolding unpack finish
  apply_pack index pack s = elim (n.get_i32 (n.rewind pack)) [
    | none ↦ (throw (overflow_error "not enough space"), s)
    | some (negsuc k, p) ↦ (throw (runtime_error "Invalid number of logs (negative)"), s)
    | some (pos nlogs, p) ↦ finish s (unpack nlogs index p s.logs)
  ]
