-- ===== src/SplinterDb.antt =====
-- What the program uses of SplinterDB, whose sources are a git submodule: a handle to a store of
-- key-value pairs. `SplinterDb/Sample.antt` has a value of this interface.
pub mod Keys
pub mod Sample
use replicated_splinterdb.Base.{ℕ, ◌≡◌, ◌≢◌, Bool, Option, none, some, ℤ, pos, if◌then◌else◌}
use replicated_splinterdb.Nuraft.{Bytes}
use replicated_splinterdb.SplinterDb.Keys.{bytes_eq}

pub record SplinterDb : Type 1 where
  pub Db : Type 0
  -- splinterdb_config, and the result buffer of a lookup
  pub Config : Type 0
  pub Found : Type 0
  -- Each call returns its error code, 0 for success.
  pub create : Config → ℤ × Db
  pub close : Db → Db
  pub insert : Bytes → Bytes → Db → ℤ × Db
  pub update : Bytes → Bytes → Db → ℤ × Db
  pub remove : Bytes → Db → ℤ × Db
  pub lookup : Bytes → Db → ℤ × Found
  pub lookup_result_value : Found → ℤ × Bytes
  pub register_thread : Db → Db
  pub clear_cache : Db → Db
  pub print_cache : Bytes → Db → Db
  -- What a lookup of a key would find, and how the data configuration merges an update.
  pub view : Db → Bytes → Option Bytes
  pub merge : Option Bytes → Bytes → Option Bytes
  -- A store that was created holds nothing.
  pub view-create : (c : Config) (j : Bytes) → (create c).0 ≡ pos 0 → view (create c).1 j ≡ none
  pub view-insert :
      (k j v : Bytes) (d : Db)
      → (insert k v d).0 ≡ pos 0
      → view (insert k v d).1 j ≡ (if bytes_eq k j then some v else view d j)
  pub view-update :
      (k j v : Bytes) (d : Db)
      → (update k v d).0 ≡ pos 0
      → view (update k v d).1 j ≡ (if bytes_eq k j then merge (view d k) v else view d j)
  pub view-remove :
      (k j : Bytes) (d : Db)
      → (remove k d).0 ≡ pos 0
      → view (remove k d).1 j ≡ (if bytes_eq k j then none else view d j)
  pub view-register_thread : (d : Db) (j : Bytes) → view (register_thread d) j ≡ view d j
  pub view-clear_cache : (d : Db) (j : Bytes) → view (clear_cache d) j ≡ view d j
  pub view-print_cache : (f : Bytes) (d : Db) (j : Bytes) → view (print_cache f d) j ≡ view d j
  -- A lookup itself succeeds; its result has a value if the key is there, and an error code if not.
  pub lookup_ok : (k : Bytes) (d : Db) → (lookup k d).0 ≡ pos 0
  pub lookup_found :
      (k v : Bytes) (d : Db) → view d k ≡ some v → lookup_result_value (lookup k d).1 ≡ (pos 0, v)
  pub lookup_missing :
      (k : Bytes) (d : Db) → view d k ≡ none → (lookup_result_value (lookup k d).1).0 ≢ pos 0
