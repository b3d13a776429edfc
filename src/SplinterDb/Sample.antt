-- ===== src/SplinterDb/Sample.antt =====
-- An association list in the place of SplinterDB: a value of the interface for the tests. An update
-- appends its bytes to the value, and an empty key is not inserted.
use replicated_splinterdb.Base.{
  ◌≡◌, ◌≢◌, refl, ap, Option, none, some, List, [], ◌∷◌, ◌++◌, ℤ, pos, if◌then◌else◌, arith,
}
use replicated_splinterdb.Nuraft.{Bytes}
use replicated_splinterdb.SplinterDb.{SplinterDb}
use replicated_splinterdb.SplinterDb.Keys.{bytes_eq}

abbrev pub PlainDb : Type 0
PlainDb = List (Bytes × Option Bytes)

unfoldable pub find_key : PlainDb → Bytes → Option Bytes
find_key [] j = none
find_key ((k, v) ∷ d) j = if bytes_eq k j then v else find_key d j

abbrev merge_append : Option Bytes → Bytes → Option Bytes
merge_append none v = some v
merge_append (some w) v = some (w ++ v)

abbrev result_value : Option Bytes → ℤ × Bytes
result_value none = (pos 22, [])
result_value (some v) = (pos 0, v)

pub result_missing : (o : Option Bytes) → o ≡ none → (result_value o).0 ≢ pos 0
result_missing none e h = ground arith
result_missing (some v) e h = cc

pub find_key-nil : (j : Bytes) → find_key [] j ≡ none
unfolding find_key
find_key-nil j = refl

pub find_key-cons :
    (k j : Bytes) (v : Option Bytes) (d : PlainDb)
    → find_key ((k, v) ∷ d) j ≡ (if bytes_eq k j then v else find_key d j)
unfolding find_key
find_key-cons k j v d = refl

-- The empty key is refused with the code of EINVAL.
abbrev plain_insert : Bytes → Bytes → PlainDb → ℤ × PlainDb
plain_insert [] v d = (pos 22, d)
plain_insert (x ∷ k) v d = (pos 0, (x ∷ k, some v) ∷ d)

pub find_key-insert :
    (k j v : Bytes) (d : PlainDb)
    → (plain_insert k v d).0 ≡ pos 0
    → find_key (plain_insert k v d).1 j ≡ (if bytes_eq k j then some v else find_key d j)
find_key-insert [] j v d h = ground arith
find_key-insert (x ∷ k) j v d h = find_key-cons (x ∷ k) j (some v) d

abbrev pub sample_db : SplinterDb
sample_db = record {
  Db = PlainDb;
  Config = Unit {0};
  Found = Option Bytes;
  create = λ c. (pos 0, []);
  close = λ d. d;
  insert = plain_insert;
  update = λ k v d. (pos 0, (k, merge_append (find_key d k) v) ∷ d);
  remove = λ k d. (pos 0, (k, none) ∷ d);
  lookup = λ k d. (pos 0, find_key d k);
  lookup_result_value = result_value;
  register_thread = λ d. d;
  clear_cache = λ d. d;
  print_cache = λ f d. d;
  view = find_key;
  merge = merge_append;
  view-create = λ c j h. find_key-nil j;
  view-insert = find_key-insert;
  view-update = λ k j v d h. find_key-cons k j (merge_append (find_key d k) v) d;
  view-remove = λ k j d h. find_key-cons k j none d;
  view-register_thread = λ d j. refl;
  view-clear_cache = λ d j. refl;
  view-print_cache = λ f d j. refl;
  lookup_ok = λ k d. refl;
  lookup_found = λ k v d h. ap result_value h;
  lookup_missing = λ k d h. result_missing (find_key d k) h;
}
