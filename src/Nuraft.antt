-- ===== src/Nuraft.antt =====
-- What the program uses of NuRaft, whose sources are a git submodule: buffers with a cursor
-- (buffer, buffer_serializer) and log entries (log_entry). Every module that calls NuRaft takes a
-- value of `Nuraft` as a parameter; `Nuraft/Sample.antt` has one.
pub mod Sample
mod Wire
use replicated_splinterdb.Base.{
  ℕ, ◌+◌, ◌-◌, ◌^◌, ◌<◌, ◌≡◌, refl, ap, Bool, false, Option, none, some, List, [], ◌∷◌, ◌++◌, map,
  length, ℤ, leb, if◌then◌else◌,
}

-- A string or the payload of a buffer, byte by byte.
abbrev pub Bytes : Type 0
Bytes = List ℕ

-- What one call of a `put` function writes.
pub data Item : Type 0 where
  u8 : ℕ → Item
  i32 : ℤ → Item
  str : Bytes → Item
  raw : Bytes → Item

-- The bytes that it takes up: a string stands behind a length of four bytes.
abbrev pub item_size : Item → ℕ
item_size (u8 n) = 1
item_size (i32 z) = 4
item_size (str s) = 4 + length s
item_size (raw s) = length s

pub record Nuraft : Type 1 where
  pub Buffer : Type 0
  pub Entry : Type 0
  -- buffer::alloc and size(); `room` is the space behind the cursor.
  pub alloc : ℕ → Buffer
  pub size : Buffer → ℕ
  pub room : Buffer → ℕ
  pub bytes : Buffer → Bytes
  -- pos(0), or a new buffer_serializer over the buffer
  pub rewind : Buffer → Buffer
  -- `none`: the call throws std::overflow_error
  pub put : Item → Buffer → Option Buffer
  pub get_u8 : Buffer → Option (ℕ × Buffer)
  pub get_i32 : Buffer → Option (ℤ × Buffer)
  pub get_str : Buffer → Option (Bytes × Buffer)
  -- get(buf): reads as many bytes as the given buffer has, into it
  pub get_raw : Buffer → Buffer → Option (Buffer × Buffer)
  -- The items put since the allocation, those behind the cursor, and the buffer after a call.
  pub written : Buffer → List Item
  pub unread : Buffer → List Item
  pub after_put : Item → Buffer → Buffer
  pub skip : Buffer → Buffer
  pub size-alloc : (n : ℕ) → size (alloc n) ≡ n
  -- buffer::alloc refuses 2 ^ 31 bytes and more.
  pub room-alloc : (n : ℕ) → n < 2 ^ 31 → room (alloc n) ≡ n
  pub written-alloc : (n : ℕ) → written (alloc n) ≡ []
  -- A fresh buffer has its cursor at the start.
  pub rewind-alloc : (n : ℕ) → rewind (alloc n) ≡ alloc n
  pub put_lem :
      (i : Item) (b : Buffer)
      → put i b ≡ (if leb (item_size i) (room b) then some (after_put i b) else none)
  pub room-after_put : (i : Item) (b : Buffer) → room (after_put i b) ≡ room b - item_size i
  pub size-after_put : (i : Item) (b : Buffer) → size (after_put i b) ≡ size b
  pub written-after_put : (i : Item) (b : Buffer) → written (after_put i b) ≡ written b ++ i ∷ []
  pub unread-rewind : (b : Buffer) → unread (rewind b) ≡ written b
  pub unread-skip : (b : Buffer) (i : Item) (r : List Item) → unread b ≡ i ∷ r → unread (skip b) ≡ r
  pub get_u8_lem :
      (b : Buffer) (n : ℕ) (r : List Item) → unread b ≡ u8 n ∷ r → get_u8 b ≡ some (n, skip b)
  pub get_u8_end : (b : Buffer) → unread b ≡ [] → get_u8 b ≡ none
  pub get_i32_lem :
      (b : Buffer) (z : ℤ) (r : List Item) → unread b ≡ i32 z ∷ r → get_i32 b ≡ some (z, skip b)
  pub get_str_lem :
      (b : Buffer) (s : Bytes) (r : List Item)
      → length s < 2 ^ 32
      → unread b ≡ str s ∷ r
      → get_str b ≡ some (s, skip b)
  pub get_str_end : (b : Buffer) → unread b ≡ [] → get_str b ≡ none
  -- The buffer that `get(buf)` fills: `of_bytes s` holds the bytes s.
  pub of_bytes : Bytes → Buffer
  pub get_raw_lem :
      (b target : Buffer) (s : Bytes) (r : List Item)
      → unread b ≡ raw s ∷ r
      → size target ≡ length s
      → get_raw target b ≡ some (of_bytes s, skip b)
  pub size-bytes : (b : Buffer) → size b ≡ length (bytes b)
  -- log_entry: the constructors, the accessors, and the wire format.
  pub new_entry : ℕ → Buffer → ℕ → ℕ → Bool → ℕ → Bool → Entry
  -- log_entry(term, buf), the other arguments at their defaults
  pub default_entry : ℕ → Buffer → Entry
  pub get_term : Entry → ℕ
  pub get_buf : Entry → Buffer
  pub get_val_type : Entry → ℕ
  pub get_timestamp : Entry → ℕ
  pub has_crc32 : Entry → Bool
  pub get_crc32 : Entry → ℕ
  -- buffer::clone
  pub clone : Buffer → Buffer
  pub serialize : Entry → Buffer
  pub deserialize : Buffer → Entry
  pub get_term-default : (t : ℕ) (b : Buffer) → get_term (default_entry t b) ≡ t
  -- An entry is its fields and the bytes of its payload.
  pub new_entry-clone :
      (e : Entry)
      → new_entry
          (get_term e)
          (clone (get_buf e))
          (get_val_type e)
          (get_timestamp e)
          (has_crc32 e)
          (get_crc32 e)
          false
        ≡ e
  -- The wire format keeps the term, the value type and the payload, which every reader reads from
  -- its start. What becomes of the timestamp and of the CRC is left open.
  pub get_term-deserialize :
      (e : Entry) → get_term (deserialize (of_bytes (bytes (serialize e)))) ≡ get_term e
  pub get_val_type-deserialize :
      (e : Entry) → get_val_type (deserialize (of_bytes (bytes (serialize e)))) ≡ get_val_type e
  pub get_buf-deserialize :
      (e : Entry) → get_buf (deserialize (of_bytes (bytes (serialize e)))) ≡ get_buf e

module _ (n : Nuraft) where
  open n use {Entry, Buffer}

  -- An entry as it comes off the wire.
  abbrev pub carried : Entry → Entry
  carried e = n.deserialize (n.of_bytes (n.bytes (n.serialize e)))

  -- What the wire format keeps of an entry.
  abbrev pub wire_fields : Entry → ℕ × ℕ × Buffer
  wire_fields e = (n.get_term e, n.get_val_type e, n.get_buf e)

  pub wire_fields-carried :
      (es : List Entry) → map wire_fields (map carried es) ≡ map wire_fields es
  wire_fields-carried [] = refl
  wire_fields-carried (e ∷ es) =
      rw (n.get_term-deserialize e, n.get_val_type-deserialize e, n.get_buf-deserialize e)
        (ap (λ r. wire_fields e ∷ r) (wire_fields-carried es))
