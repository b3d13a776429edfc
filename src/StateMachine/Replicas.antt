-- ===== src/StateMachine/Replicas.antt =====
-- Replicas that commit the same log.
use replicated_splinterdb.Base.{ℕ, ◌^◌, ◌<◌, ◌≡◌, refl, ap, sym, ◌∙◌, List, [], ◌∷◌, pos, All}
use replicated_splinterdb.Nuraft.{Nuraft}
use replicated_splinterdb.SplinterDb.{SplinterDb}
use replicated_splinterdb.Operation.{SplinterdbOperation}
use replicated_splinterdb.Operation.RoundTrip.{
  IsWellFormed, wire_size, serialized, deserialize-serialized,
}
use replicated_splinterdb.StateMachine.{SplinterdbStateMachine, commit}
use replicated_splinterdb.StateMachine.Commit.{KeyValues, effect, call, registered, commit-effect}

-- A log: operations under their indices, each with a wire form below 2 GiB.
abbrev pub Log : Type 0
Log = List (ℕ × SplinterdbOperation)

abbrev pub IsLog : Log → Type 0
IsLog = All (λ (e : ℕ × SplinterdbOperation). IsWellFormed e.1 × (wire_size e.1 < 2 ^ 31))

-- The index of the last entry, or `d` for the empty log.
abbrev pub last_index : ℕ → Log → ℕ
last_index d [] = d
last_index d ((i, op) ∷ l) = last_index i l

module _ (db : SplinterDb) where
  -- What the log means for the keys and values.
  abbrev pub effects : Log → KeyValues → KeyValues
  effects [] m = m
  effects ((i, op) ∷ l) m = effects l (effect db op.type op.key op.value m)

module _ (n : Nuraft) (db : SplinterDb) {S : Type 0} where
  open db use {Db}

  -- The state machine after the commit of every entry, as it was serialized.
  abbrev pub replay : Log → SplinterdbStateMachine Db S → SplinterdbStateMachine Db S
  replay [] s = s
  replay ((i, op) ∷ l) s = replay l (commit n db i (serialized n op) s).1

  -- SplinterDB succeeds on every entry.
  abbrev pub Succeeds : Log → SplinterdbStateMachine Db S → Type 0
  Succeeds [] s = Unit {0}
  Succeeds ((i, op) ∷ l) s =
      ((call db op.type op.key op.value (registered n db s)).0 ≡ pos 0)
      × Succeeds l (commit n db i (serialized n op) s).1

  -- Committing a log of well-formed operations below 2 GiB, as they are serialized, with every call
  -- of SplinterDB succeeding, gives the keys and values that the operations mean one after the
  -- other, and the index of the last entry as the last committed one.
  pub replay-effects :
      (l : Log) (s : SplinterdbStateMachine Db S)
      → IsLog l
      → Succeeds l s
      → (db.view (replay l s).spl_handle ≡ effects db l (db.view s.spl_handle))
        × ((replay l s).last_committed_idx ≡ last_index s.last_committed_idx l)
  replay-effects [] s h succeeded = (refl, refl)
  replay-effects ((i, op) ∷ l) s h succeeded =
      let buf = serialized n op in
      let step =
        commit-effect n db i buf op s (deserialize-serialized n op h.0.0 h.0.1) h.0.0 succeeded.0 in
      let rest = replay-effects l (commit n db i buf s).1 h.1 succeeded.1 in
      (rest.0 ∙ ap (effects db l) step.2, rest.1 ∙ ap (λ k. last_index k l) step.1)

  -- Two state machines that hold the same keys and values and have the same last committed index,
  -- and that commit the same log of well-formed operations below 2 GiB with every call of
  -- SplinterDB succeeding, hold the same keys and values afterwards and have the same last
  -- committed index.
  pub replicas_agree :
      (l : Log) (a b : SplinterdbStateMachine Db S)
      → IsLog l
      → Succeeds l a
      → Succeeds l b
      → db.view a.spl_handle ≡ db.view b.spl_handle
      → a.last_committed_idx ≡ b.last_committed_idx
      → (db.view (replay l a).spl_handle ≡ db.view (replay l b).spl_handle)
        × ((replay l a).last_committed_idx ≡ (replay l b).last_committed_idx)
  replicas_agree l a b h sa sb same_view same_index =
      let ra = replay-effects l a h sa in
      let rb = replay-effects l b h sb in
      (
        ra.0 ∙ ap (effects db l) same_view ∙ sym rb.0,
        ra.1 ∙ ap (λ k. last_index k l) same_index ∙ sym rb.1,
      )
