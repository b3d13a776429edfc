-- ===== src/Cluster/Meaning.antt =====
-- What the agreed log means for the keys and values.
use replicated_splinterdb.Base.{
  take_next, ℕ, suc, ◌≡◌, refl, none, some, List, [], ◌∷◌, ◌++◌, get_elem?, take, ok,
}
use replicated_splinterdb.Nuraft.{Nuraft}
use replicated_splinterdb.SplinterDb.{SplinterDb}
use replicated_splinterdb.Operation.{SplinterdbOperation, deserialize}
use replicated_splinterdb.Operation.RoundTrip.{IsWellFormed}
use replicated_splinterdb.StateMachine.Commit.{KeyValues, effect}
use replicated_splinterdb.Cluster.{Agreed, app_log, conf_log}

module _ (n : Nuraft) (db : SplinterDb) where
  open n use {Buffer}
  open db use {Db}

  -- What an entry means for the keys and values.
  abbrev pub entry_effect : Agreed Buffer → KeyValues → KeyValues
  entry_effect conf_log m = m
  entry_effect (app_log b) m = elim (deserialize n b) [
    | ok op ↦ effect db op.type op.key op.value m
    | _ ↦ m
  ]

  abbrev pub meaning : List (Agreed Buffer) → KeyValues → KeyValues
  meaning [] m = m
  meaning (e ∷ log) m = meaning log (entry_effect e m)

  pub meaning-append :
      (log more : List (Agreed Buffer)) (m : KeyValues)
      → meaning (log ++ more) m ≡ meaning more (meaning log m)
  meaning-append [] more m = refl
  meaning-append (e ∷ log) more m = meaning-append log more (entry_effect e m)

  abbrev pub nothing : KeyValues
  nothing j = none

  abbrev pub IsReadable : Agreed Buffer → Type 0
  IsReadable conf_log = Unit {0}
  IsReadable (app_log b) = (op : SplinterdbOperation) × (deserialize n b ≡ ok op) × IsWellFormed op

  pub meaning_next :
      (log : List (Agreed Buffer)) (k : ℕ) (e : Agreed Buffer)
      → get_elem? log k ≡ some e
      → meaning (take (suc k) log) nothing ≡ entry_effect e (meaning (take k log) nothing)
  meaning_next log k e found =
      rw (take_next k e log found) (meaning-append (take k log) (e ∷ []) nothing)
