-- ===== src/Replica/Read.antt =====
-- Reads from the local store, also after a commit.
use replicated_splinterdb.Base.{
  ℕ, ◌≡◌, ◌≢◌, refl, ap, ◌∙◌, false, Option, none, some, ℤ, pos, ◌==ℤ◌, ==ℤ_iff, ok, arith,
}
use replicated_splinterdb.Nuraft.{Nuraft, Bytes}
use replicated_splinterdb.SplinterDb.{SplinterDb}
use replicated_splinterdb.SplinterDb.Keys.{bytes_eq_refl}
use replicated_splinterdb.Operation.{make_put, deserialize}
use replicated_splinterdb.StateMachine.{SplinterdbStateMachine, commit}
use replicated_splinterdb.StateMachine.Commit.{registered, commit-effect}
use replicated_splinterdb.Replica.{read}

module _ (db : SplinterDb) where
  open db use {Db}

  read_found : (key v : Bytes) (d : Db) → db.view d key ≡ some v → read db key d ≡ (some v, pos 0)
  unfolding read
  read_found key v d e = rw (db.lookup_ok key d, read, db.lookup_found key v d e)

  read_missing :
      (key : Bytes) (d : Db)
      → db.view d key ≡ none
      → ((read db key d).0 ≡ none) × ((read db key d).1 ≢ pos 0)
  unfolding read
  read_missing key d e =
      let rc = (db.lookup_result_value (db.lookup key d).1).0 in
      let failed : (rc ==ℤ pos 0) ≡ false =
        ground (arith, ==ℤ_iff rc (pos 0), db.lookup_missing key d e) in
      rw (db.lookup_ok key d, failed) (refl, db.lookup_missing key d e)

  -- What a read of a key with this value, or with none, has to return.
  abbrev pub IsRead : Option Bytes → Option Bytes × ℤ → Type 0
  IsRead (some v) r = r ≡ (some v, pos 0)
  IsRead none r = (r.0 ≡ none) × (r.1 ≢ pos 0)

  -- A read returns the value of a key with the code 0, or no value with another code where the key
  -- has none.
  pub read-IsRead :
      (key : Bytes) (d : Db) (o : Option Bytes) → db.view d key ≡ o → IsRead o (read db key d)
  read-IsRead key d (some v) e = read_found key v d e
  read-IsRead key d none e = read_missing key d e

module _ (n : Nuraft) (db : SplinterDb) {S : Type 0} where
  -- After a commit of an entry that reads as a put, on which SplinterDB's insert succeeds, the
  -- replica reads the value of the key with the code 0, also after its cache is cleared.
  pub read_after_put :
      (idx : ℕ) (buf : n.Buffer) (key value : Bytes) (s : SplinterdbStateMachine db.Db S)
      → deserialize n buf ≡ ok (make_put key value)
      → (db.insert key value (registered n db s)).0 ≡ pos 0
      → (read db key (commit n db idx buf s).1.spl_handle ≡ (some value, pos 0))
        × (read db key (db.clear_cache (commit n db idx buf s).1.spl_handle) ≡ (some value, pos 0))
  unfolding make_put
  read_after_put idx buf key value s parsed inserted =
      let done = commit-effect n db idx buf (make_put key value) s parsed tt inserted in
      let found : db.view (commit n db idx buf s).1.spl_handle key ≡ some value =
        ap (λ m. m key) done.2 ∙ rw (bytes_eq_refl key) in
      (
        read_found db key value _ found,
        read_found db key value _ (db.view-clear_cache _ key ∙ found),
      )
