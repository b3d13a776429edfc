-- ===== src/LogStore/Threads.antt =====
-- `log_entries` and `log_entries_ext` as they take the lock: once for each entry that they read, so
-- that other calls change the store between the reads. `seen i` is the store under the lock that is
-- taken for index `i`.
pub mod Atomic
use replicated_splinterdb.Base.{
  ℕ, zero, suc, ◌+◌, ◌-◌, List, [], ◌∷◌, ℤ, is_negative, ltb, u64, if◌then◌else◌, Result, ok, throw,
  length_error, bind,
}
use replicated_splinterdb.Nuraft.{Nuraft}
use replicated_splinterdb.LogStore.{InmemLogStore, find_or_dummy, make_clone, reached}

module _ (n : Nuraft) where
  open n use {Entry}

  unfoldable pub clone_each : ℕ → ℕ → (ℕ → InmemLogStore Entry) → Result (List Entry)
  clone_each zero ii seen = ok []
  clone_each (suc r) ii seen =
      bind (find_or_dummy ii (seen ii).logs)
        λ src. bind (clone_each r (suc ii) seen) λ rest. ok (make_clone n src ∷ rest)

  unfoldable pub log_entries_each : ℕ → ℕ → (ℕ → InmemLogStore Entry) → Result (List Entry)
  unfolding clone_each
  log_entries_each start end seen =
      if ltb end start
      then throw (length_error "vector::_M_default_append")
      else clone_each (end - start) start seen

  unfoldable pub batch_each : ℤ → ℕ → ℕ → ℕ → (ℕ → InmemLogStore Entry) → Result (List Entry)
  batch_each hint zero ii accum seen = ok []
  batch_each hint (suc r) ii accum seen = bind (find_or_dummy ii (seen ii).logs) λ src.
      let accum' = u64 (accum + n.size (n.get_buf src)) in
      let more =
        bind (batch_each hint r (suc ii) accum' seen) (λ rest. ok (make_clone n src ∷ rest)) in
      if reached n hint accum' then ok (make_clone n src ∷ []) else more

  unfoldable pub log_entries_ext_each : ℕ → ℕ → ℤ → (ℕ → InmemLogStore Entry) → Result (List Entry)
  unfolding batch_each
  log_entries_ext_each start end hint seen =
      if is_negative hint then ok [] else batch_each hint (end - start) start 0 seen
