-- ===== src/Cluster/Reads.antt =====
-- What a client reads from a server of the cluster.
use replicated_splinterdb.Base.{
  ℕ, zero, suc, ◌≡◌, ◌≢◌, refl, sym, ap, ◌∙◌, ◌⊎◌, inl, inr, ◌<◌, false, Option, none, some, List,
  get_elem?, get_elem?-below, take, pos, ◌==ℤ◌, ==ℤ_iff, Result, ok, throw, undefined, exited,
  arith,
}
use native.Mathlib.Decide.{dec_lt}
use replicated_splinterdb.Nuraft.{Nuraft, Bytes}
use replicated_splinterdb.SplinterDb.{SplinterDb}
use replicated_splinterdb.SplinterDb.Keys.{bytes_eq, bytes_eq_refl}
use replicated_splinterdb.Rpc.{RpcReadResult}
use replicated_splinterdb.Operation.{
  SplinterdbOperation, OperationType, put, update, delete, unknown, make_put, deserialize,
}
use replicated_splinterdb.StateMachine.Commit.{KeyValues, effect}
use replicated_splinterdb.Replica.{read}
use replicated_splinterdb.Replica.Read.{IsRead, read-IsRead}
use replicated_splinterdb.Server.{handle_get}
use replicated_splinterdb.Cluster.{
  put_request, update_request, logged, Agreed, app_log, conf_log, Cluster, IsStart, Reach,
}
use replicated_splinterdb.Cluster.Meaning.{entry_effect, meaning, nothing, meaning_next}
use replicated_splinterdb.Cluster.Invariant.{Reach-Inv}

-- The answer to a get of a key with this value, or with none.
abbrev pub IsAnswer : Option Bytes → RpcReadResult → Type 0
IsAnswer (some v) r = r ≡ record { value = some v; rc = pos 0 }
IsAnswer none r = (r.value ≡ none) × (r.rc ≢ pos 0)

module _ (db : SplinterDb) where
  open db use {Db}

  handle_get-IsAnswer :
      (key : Bytes) (d : Db) (o : Option Bytes)
      → IsRead db o (read db key d)
      → IsAnswer o (handle_get db key d)
  unfolding handle_get
  handle_get-IsAnswer key d (some v) e = rw e
  handle_get-IsAnswer key d none (nothing_read, failed) =
      let code : ((read db key d).1 ==ℤ pos 0) ≡ false =
        ground (arith, ==ℤ_iff (read db key d).1 (pos 0), failed) in
      rw code (refl, failed)

  -- An operation on another key.
  effect_elsewhere :
      (t : OperationType) (k j : Bytes) (v : Option Bytes) (m : KeyValues)
      → bytes_eq k j ≡ false
      → effect db t k v m j ≡ m j
  effect_elsewhere put k j none m e = refl
  effect_elsewhere put k j (some v) m e = rw e
  effect_elsewhere update k j none m e = refl
  effect_elsewhere update k j (some v) m e = rw e
  effect_elsewhere delete k j v m e = rw e
  effect_elsewhere (unknown t) k j v m e = refl

module _ (n : Nuraft) (db : SplinterDb) where
  open n use {Buffer}

  -- The entry is an operation on another key, or none.
  abbrev pub Elsewhere : Bytes → Agreed Buffer → Type 0
  Elsewhere key conf_log = Unit {0}
  Elsewhere key (app_log b) =
      (op : SplinterdbOperation) → deserialize n b ≡ ok op → bytes_eq op.key key ≡ false

  pub entry-Elsewhere :
      (e : Agreed Buffer) (m : KeyValues) (key : Bytes)
      → Elsewhere key e
      → entry_effect n db e m key ≡ m key
  entry-Elsewhere conf_log m key other = refl
  entry-Elsewhere (app_log b) m key other = by_result (deserialize n b) (λ op e. other op e)
    where
      by_result :
          (r : Result SplinterdbOperation)
          → ((op : SplinterdbOperation) → r ≡ ok op → bytes_eq op.key key ≡ false)
          → (elim r as (λ _. KeyValues) [ ok op ↦ effect db op.type op.key op.value m | _ ↦ m ]) key
            ≡ m key
      by_result (ok op) h = effect_elsewhere db op.type op.key key op.value m (h op refl)
      by_result (throw x) h = refl
      by_result undefined h = refl
      by_result (exited c) h = refl

  -- The log where the last entry puts the key.
  pub meaning_put_last :
      (log : List (Agreed Buffer)) (k : ℕ) (buf : Buffer) (key value : Bytes)
      → get_elem? log k ≡ some (app_log buf)
      → deserialize n buf ≡ ok (make_put key value)
      → meaning n db (take (suc k) log) (nothing n db) key ≡ some value
  unfolding make_put
  meaning_put_last log k buf key value found parsed =
      ap (λ m. m key) (meaning_next n db log k (app_log buf) found)
      ∙ rw (entry_effect, parsed, bytes_eq_refl key)

  -- The log where the last entry is not on the key.
  pub meaning-Elsewhere :
      (log : List (Agreed Buffer)) (k : ℕ) (e : Agreed Buffer) (key : Bytes)
      → get_elem? log k ≡ some e
      → Elsewhere key e
      → meaning n db (take (suc k) log) (nothing n db) key
        ≡ meaning n db (take k log) (nothing n db) key
  meaning-Elsewhere log k e key found other =
      ap (λ m. m key) (meaning_next n db log k e found)
      ∙ entry-Elsewhere e (meaning n db (take k log) (nothing n db)) key other

  -- The log up to `k` where entry `p` puts the key and none behind it is on the key.
  meaning_last_put :
      (log : List (Agreed Buffer)) (k p : ℕ) (buf : Buffer) (key value : Bytes)
      → p < k
      → ((q : ℕ) → q < k → (e : Agreed Buffer) × (get_elem? log q ≡ some e))
      → get_elem? log p ≡ some (app_log buf)
      → deserialize n buf ≡ ok (make_put key value)
      → ((q : ℕ) (e : Agreed Buffer) → p < q → q < k → get_elem? log q ≡ some e → Elsewhere key e)
      → meaning n db (take k log) (nothing n db) key ≡ some value
  meaning_last_put log zero p buf key value below there found parsed other = absurd (omega arith)
  meaning_last_put log (suc k) p buf key value below there found parsed other = elim (dec_lt p k) [
    | yes earlier ↦
        let (e, here) = there k (omega arith) in
        meaning-Elsewhere log k e key here (other k e earlier (omega arith) here)
        ∙ meaning_last_put log k p buf key value earlier (λ q h. there q (omega arith)) found parsed
            (λ q e' h h' at_q. other q e' h (omega arith) at_q)
    | no latest ↦
        let same : p ≡ k = omega arith in
        meaning_put_last log k buf key value (rw same at found) parsed
  ]

module _ (n : Nuraft) (db : SplinterDb) {S : Type 0} where
  open n use {Buffer}
  open db use {Db}

  module _ (start c : Cluster Buffer Db S) (started : IsStart n db start)
      (reached : Reach n db start c) where
    -- In every state that a cluster reaches from new servers and an empty log, where steps agree on
    -- a serialized request of less than 2 GiB or on a change of the configuration, have a server
    -- commit the next entry with SplinterDB's call succeeding, clear or print its cache, register a
    -- worker thread, or begin anew: the handler of a get answers, on each server, with what the
    -- entries up to the server's last committed index mean for the key, the value with the code 0,
    -- or no value and another code.
    pub get_reads_log :
        (i : ℕ) (key : Bytes)
        → IsAnswer
            (meaning n db (take (c.machines i).last_committed_idx c.log) (nothing n db) key)
            (handle_get db key (c.machines i).spl_handle)
    get_reads_log i key =
        let r = (Reach-Inv n db start c started reached).replica i in
        handle_get-IsAnswer db key (c.machines i).spl_handle _ (
          read-IsRead db key (c.machines i).spl_handle _ (
            ap (λ m. m key) r.holds
            ∙ ap (λ (k : ℕ). meaning n db (take k c.log) (nothing n db) key) (sym r.index)))

    -- Two servers that have committed as far hold the same keys and values.
    pub servers_agree :
        (i j : ℕ)
        → (c.machines i).last_committed_idx ≡ (c.machines j).last_committed_idx
        → db.view (c.machines i).spl_handle ≡ db.view (c.machines j).spl_handle
    servers_agree i j same =
        let inv = Reach-Inv n db start c started reached in
        let e : c.committed i ≡ c.committed j =
          omega (arith, (inv.replica i).index, (inv.replica j).index, same) in
        (inv.replica i).holds
        ∙ ap (λ (k : ℕ). meaning n db (take k c.log) (nothing n db)) e
        ∙ sym (inv.replica j).holds

    -- In every state that a cluster reaches by the steps of `Step` from new servers and an empty
    -- log: where the log has a put or an update of a key with a value, as the handlers log it, the
    -- server has committed it, and the entries that it has committed behind it are on other keys,
    -- the handler of a get of the key answers with the value and the code 0. For the update this is
    -- the whole value, without a merge.
    pub get_last_put :
        (i p : ℕ) (buf : Buffer) (key value : Bytes)
        → get_elem? c.log p ≡ some (app_log buf)
        → (deserialize n buf ≡ ok (logged (put_request key value)))
          ⊎ (deserialize n buf ≡ ok (logged (update_request key value)))
        → p < (c.machines i).last_committed_idx
        → ((q : ℕ) (e : Agreed Buffer)
            → p < q
            → q < (c.machines i).last_committed_idx
            → get_elem? c.log q ≡ some e
            → Elsewhere n db key e)
        → handle_get db key (c.machines i).spl_handle ≡ record { value = some value; rc = pos 0 }
    unfolding logged
    get_last_put i p buf key value found parsed below other =
        let r = (Reach-Inv n db start c started reached).replica i in
        let as_put : deserialize n buf ≡ ok (make_put key value) = elim parsed [
          | inl e ↦ e
          | inr e ↦ e
        ] in
        let idx = (c.machines i).last_committed_idx in
        let last : meaning n db (take idx c.log) (nothing n db) key ≡ some value =
          meaning_last_put n db c.log idx p buf key value below
            (λ q h. get_elem?-below c.log q (omega (arith, r.within, r.index))) found as_put
            other in
        rw last at (get_reads_log i key)
