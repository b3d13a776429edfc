-- ===== src/StateMachine/Commit.antt =====
-- What one call of `commit` does to the store of key-value pairs.
use replicated_splinterdb.Base.{
  ℕ, ◌≡◌, ◌≢◌, refl, ap, fun_ext, ◌∙◌, true, Option, none, some, ℤ, pos, if◌then◌else◌, ok, throw,
  runtime_error, arith,
}
use replicated_splinterdb.Nuraft.{Nuraft, Bytes, i32}
use replicated_splinterdb.SplinterDb.{SplinterDb}
use replicated_splinterdb.SplinterDb.Keys.{bytes_eq}
use replicated_splinterdb.LogStore.Packed.{put_fits}
use replicated_splinterdb.Operation.{
  SplinterdbOperation, OperationType, put, update, delete, unknown, deserialize,
}
use replicated_splinterdb.Operation.RoundTrip.{HasValue, IsWellFormed}
use replicated_splinterdb.StateMachine.{
  SplinterdbStateMachine, register_commit_thread, perform, reply, commit,
}

-- The abstract store: every key has a value or none.
abbrev pub KeyValues : Type 0
KeyValues = Bytes → Option Bytes

module _ (db : SplinterDb) where
  open db use {Db}

  -- What an operation means for the abstract store.
  abbrev pub effect : OperationType → Bytes → Option Bytes → KeyValues → KeyValues
  effect put k (some v) m j = if bytes_eq k j then some v else m j
  effect update k (some v) m j = if bytes_eq k j then db.merge (m k) v else m j
  effect delete k v m j = if bytes_eq k j then none else m j
  effect _ k v m j = m j

  -- The call of SplinterDB that an operation comes to.
  abbrev pub call : OperationType → Bytes → Option Bytes → Db → ℤ × Db
  call put k (some v) d = db.insert k v d
  call update k (some v) d = db.update k v d
  call delete k v d = db.remove k d
  call _ k v d = (pos 0, d)

  call-effect :
      (t : OperationType) (k j : Bytes) (v : Option Bytes) (d : Db)
      → HasValue t v
      → (call t k v d).0 ≡ pos 0
      → db.view (call t k v d).1 j ≡ effect t k v (db.view d) j
  call-effect put k j none d h e = absurd h
  call-effect put k j (some v) d h e = db.view-insert k j v d e
  call-effect update k j none d h e = absurd h
  call-effect update k j (some v) d h e = db.view-update k j v d e
  call-effect delete k j none d h e = db.view-remove k j d e
  call-effect delete k j (some v) d h e = absurd h
  call-effect (unknown t) k j v d h e = absurd h

module _ (n : Nuraft) where
  open n use {Buffer}

  abbrev pub reply_buffer : ℤ → Buffer
  reply_buffer rc = n.rewind (n.after_put (i32 rc) (n.alloc 4))

  reply_lem : (rc : ℤ) → reply n rc ≡ ok (reply_buffer rc)
  unfolding reply
  reply_lem rc = rw (
    n.rewind-alloc,
    put_fits n (i32 rc) (n.alloc 4) (omega (arith, n.room-alloc 4 (omega arith))),
  )

module _ (n : Nuraft) (db : SplinterDb) {S : Type 0} where
  open n use {Buffer}
  open db use {Db}

  -- The handle after the first commit has registered its thread.
  abbrev pub registered : SplinterdbStateMachine Db S → Db
  registered s =
      if s.commit_thread_initialized then s.spl_handle else db.register_thread s.spl_handle

  view-registered :
      (s : SplinterdbStateMachine Db S) (j : Bytes)
      → db.view (registered s) j ≡ db.view s.spl_handle j
  view-registered s j = ground (arith, db.view-register_thread s.spl_handle j)

  abbrev started : SplinterdbStateMachine Db S → SplinterdbStateMachine Db S
  started s = record s { commit_thread_initialized = true; spl_handle = registered s }

  register-started :
      (s : SplinterdbStateMachine Db S) → register_commit_thread n db s ≡ (ok tt, started s)
  unfolding register_commit_thread
  register-started s = ground arith

  perform-call :
      (t : OperationType) (k : Bytes) (v : Option Bytes) (s : SplinterdbStateMachine Db S)
      → HasValue t v
      → perform n db t k v s ≡ (
        ok (call db t k v s.spl_handle).0,
        record s { spl_handle = (call db t k v s.spl_handle).1 },
      )
  unfolding perform
  perform-call put k none s h = absurd h
  perform-call put k (some v) s h = refl
  perform-call update k none s h = absurd h
  perform-call update k (some v) s h = refl
  perform-call delete k v s h = refl
  perform-call (unknown t) k v s h = absurd h

  commit-call :
      (idx : ℕ) (buf : Buffer) (op : SplinterdbOperation) (s : SplinterdbStateMachine Db S)
      → deserialize n buf ≡ ok op
      → IsWellFormed op
      → let r = call db op.type op.key op.value (registered s) in
        commit n db idx buf s ≡ (
          ok (reply_buffer n r.0),
          record s { spl_handle = r.1; commit_thread_initialized = true; last_committed_idx = idx },
        )
  unfolding commit
  commit-call idx buf op s read h = rw (
    register-started s,
    commit,
    read,
    commit,
    perform-call op.type op.key op.value (started s) h,
    commit,
    reply_lem n,
  )

  -- A log entry that reads as a well-formed operation, on which SplinterDB's call succeeds, is
  -- committed with no exception: the reply carries the code 0, the entry's index is the last
  -- committed one, and the keys and values change as the operation means.
  pub commit-effect :
      (idx : ℕ) (buf : Buffer) (op : SplinterdbOperation) (s : SplinterdbStateMachine Db S)
      → deserialize n buf ≡ ok op
      → IsWellFormed op
      → (call db op.type op.key op.value (registered s)).0 ≡ pos 0
      → ((commit n db idx buf s).0 ≡ ok (reply_buffer n (pos 0)))
        × ((commit n db idx buf s).1.last_committed_idx ≡ idx)
        × (db.view (commit n db idx buf s).1.spl_handle
            ≡ effect db op.type op.key op.value (db.view s.spl_handle))
  commit-effect idx buf op s read h ok_rc = rw (commit-call idx buf op s read h) (
    ap (λ z. ok (reply_buffer n z)) ok_rc,
    refl,
    fun_ext λ j.
        call-effect db op.type op.key j op.value (registered s) h ok_rc
        ∙ ap (λ m. effect db op.type op.key op.value m j) (fun_ext (view-registered s)),
  )

  -- For a log entry that reads as a well-formed operation, on which SplinterDB's call returns a
  -- code other than 0, the reply carries that code, and the entry counts as committed all the same.
  pub commit_failed :
      (idx : ℕ) (buf : Buffer) (op : SplinterdbOperation) (s : SplinterdbStateMachine Db S) (rc : ℤ)
      → deserialize n buf ≡ ok op
      → IsWellFormed op
      → (call db op.type op.key op.value (registered s)).0 ≡ rc
      → rc ≢ pos 0
      → ((commit n db idx buf s).0 ≡ ok (reply_buffer n rc))
        × ((commit n db idx buf s).1.last_committed_idx ≡ idx)
  commit_failed idx buf op s rc read h e failed =
      rw (commit-call idx buf op s read h) (ap (λ z. ok (reply_buffer n z)) e, refl)

  -- A log entry that reads as an operation of an unknown type makes `commit` throw. The index of
  -- the last committed entry stays, and so do the keys and values.
  pub commit_unknown :
      (idx t : ℕ) (buf : Buffer) (key : Bytes) (s : SplinterdbStateMachine Db S)
      → deserialize n buf ≡ ok (record { key = key; value = none; type = unknown t })
      → ((commit n db idx buf s).0 ≡ throw (runtime_error "Unknown operation type."))
        × ((commit n db idx buf s).1.last_committed_idx ≡ s.last_committed_idx)
        × (db.view (commit n db idx buf s).1.spl_handle ≡ db.view s.spl_handle)
  unfolding commit perform
  commit_unknown idx t buf key s read =
      rw (register-started s, commit, read) (refl, refl, fun_ext (view-registered s))
