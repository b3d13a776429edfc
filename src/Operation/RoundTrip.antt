-- ===== src/Operation/RoundTrip.antt =====
-- Operations, from `serialize` to `deserialize`.
use replicated_splinterdb.Base.{
  ℕ, ◌+◌, ◌^◌, ◌≤◌, ◌<◌, ◌≡◌, refl, sym, ◌∙◌, Option, none, some, List, [], ◌∷◌, ◌++◌, append-nil,
  length, ok, throw, overflow_error, arith,
}
use replicated_splinterdb.Nuraft.{Nuraft, Bytes, Item, u8, str}
use replicated_splinterdb.LogStore.Packed.{put_fits}
use replicated_splinterdb.Operation.{
  SplinterdbOperation, OperationType, put, update, delete, unknown, of_u8, to_u8, buffer_size,
  put_value, serialize, deserialize, get_value,
}

-- A value is there exactly where the type wants one, as the three `make` functions see to.
abbrev pub HasValue : OperationType → Option Bytes → Type 0
HasValue put (some v) = Unit {0}
HasValue update (some v) = Unit {0}
HasValue delete none = Unit {0}
HasValue _ _ = ⊥

abbrev pub IsWellFormed : SplinterdbOperation → Type 0
IsWellFormed op = HasValue op.type op.value

-- What the operation takes up on the wire.
abbrev value_size : Option Bytes → ℕ
value_size none = 0
value_size (some v) = 4 + length v

abbrev pub wire_size : SplinterdbOperation → ℕ
wire_size op = 5 + length op.key + value_size op.value

abbrev value_items : Option Bytes → List Item
value_items none = []
value_items (some v) = str v ∷ []

abbrev pub wire_items : SplinterdbOperation → List Item
wire_items op = u8 (to_u8 op.type) ∷ str op.key ∷ value_items op.value

buffer_size_lem : (op : SplinterdbOperation) → wire_size op < 2 ^ 31 → buffer_size op ≡ wire_size op
unfolding buffer_size
buffer_size_lem op h = ground arith

of_u8-to_u8 : (t : OperationType) (v : Option Bytes) → HasValue t v → of_u8 (to_u8 t) ≡ t
unfolding of_u8 to_u8
of_u8-to_u8 put v h = refl
of_u8-to_u8 update v h = refl
of_u8-to_u8 delete v h = refl
of_u8-to_u8 (unknown b) v h = absurd h

of_u8_unknown : (t : ℕ) → 2 < t → of_u8 t ≡ unknown t
unfolding of_u8
of_u8_unknown t h = ground arith

module _ (n : Nuraft) where
  open n use {Buffer}

  abbrev after_value : Option Bytes → Buffer → Buffer
  after_value none b = b
  after_value (some v) b = n.after_put (str v) b

  abbrev after_key : SplinterdbOperation → Buffer
  after_key op =
      n.after_put (str op.key) (n.after_put (u8 (to_u8 op.type)) (n.alloc (wire_size op)))

  abbrev pub serialized : SplinterdbOperation → Buffer
  serialized op = after_value op.value (after_key op)

  put_value-after :
      (v : Option Bytes) (b : Buffer)
      → value_size v ≤ n.room b
      → put_value n v b ≡ ok (after_value v b)
  unfolding put_value
  put_value-after none b h = refl
  put_value-after (some v) b h = rw (put_fits n (str v) b h)

  room-after_key :
      (op : SplinterdbOperation)
      → wire_size op < 2 ^ 31
      → n.room (after_key op) ≡ value_size op.value
  room-after_key op h = omega (
    arith,
    n.room-after_put (str op.key) (n.after_put (u8 (to_u8 op.type)) (n.alloc (wire_size op))),
    n.room-after_put (u8 (to_u8 op.type)) (n.alloc (wire_size op)),
    n.room-alloc (wire_size op) h,
  )

  room-after_value :
      (v : Option Bytes) (b : Buffer) → n.room b ≡ value_size v → n.room (after_value v b) ≡ 0
  room-after_value none b h = h
  room-after_value (some v) b h = omega (arith, n.room-after_put (str v) b)

  written-after_value :
      (v : Option Bytes) (b : Buffer) → n.written (after_value v b) ≡ n.written b ++ value_items v
  written-after_value none b = sym (append-nil _)
  written-after_value (some v) b = n.written-after_put (str v) b

  written-serialized : (op : SplinterdbOperation) → n.written (serialized op) ≡ wire_items op
  written-serialized op =
      written-after_value op.value (after_key op)
      ∙ rw (
        n.written-after_put (str op.key)
            (n.after_put (u8 (to_u8 op.type)) (n.alloc (wire_size op))),
        n.written-after_put (u8 (to_u8 op.type)) (n.alloc (wire_size op)),
        n.written-alloc,
      )

  -- The buffer that `serialize` allocates holds all that it writes, and is full then.
  pub serialize-serialized :
      (op : SplinterdbOperation)
      → wire_size op < 2 ^ 31
      → (serialize n op ≡ ok (serialized op)) × (n.room (serialized op) ≡ 0)
  unfolding serialize
  serialize-serialized op h = (
    rw
        (
          buffer_size_lem op h,
          n.rewind-alloc,
          put_fits n (u8 (to_u8 op.type)) (n.alloc (wire_size op))
              (omega (arith, n.room-alloc (wire_size op) h)),
          put_fits n (str op.key) (n.after_put (u8 (to_u8 op.type)) (n.alloc (wire_size op))) (
              omega (
                arith,
                n.room-after_put (u8 (to_u8 op.type)) (n.alloc (wire_size op)),
                n.room-alloc (wire_size op) h,
              )),
        )
        (put_value-after op.value (after_key op) (omega (arith, room-after_key op h))),
    room-after_value op.value (after_key op) (room-after_key op h),
  )

  -- A buffer that begins with the items of an operation is read as that operation.
  get_value-items :
      (t : OperationType) (v : Option Bytes) (b : Buffer)
      → HasValue t v
      → value_size v < 2 ^ 31
      → n.unread b ≡ value_items v
      → get_value n t b ≡ ok v
  unfolding get_value
  get_value-items put none b h fits e = absurd h
  get_value-items put (some v) b h fits e = rw (n.get_str_lem b v [] (omega arith) e)
  get_value-items update none b h fits e = absurd h
  get_value-items update (some v) b h fits e = rw (n.get_str_lem b v [] (omega arith) e)
  get_value-items delete none b h fits e = refl
  get_value-items delete (some v) b h fits e = absurd h
  get_value-items (unknown k) v b h fits e = absurd h

  deserialize-items :
      (op : SplinterdbOperation) (b : Buffer)
      → IsWellFormed op
      → wire_size op < 2 ^ 31
      → n.written b ≡ wire_items op
      → deserialize n b ≡ ok op
  unfolding deserialize
  deserialize-items op b h fits e = rw (
    n.get_u8_lem (n.rewind b) _ _ (n.unread-rewind b ∙ e),
    n.get_str_lem (n.skip (n.rewind b)) op.key (value_items op.value) (omega arith) behind_type,
    of_u8-to_u8 op.type op.value h,
    get_value-items op.type op.value (n.skip (n.skip (n.rewind b))) h (omega arith)
        (n.unread-skip _ _ _ behind_type),
  )
    where
      behind_type : n.unread (n.skip (n.rewind b)) ≡ str op.key ∷ value_items op.value
      behind_type = n.unread-skip _ _ _ (n.unread-rewind b ∙ e)

  pub deserialize-serialized :
      (op : SplinterdbOperation)
      → IsWellFormed op
      → wire_size op < 2 ^ 31
      → deserialize n (serialized op) ≡ ok op
  deserialize-serialized op h fits =
      deserialize-items op (serialized op) h fits (written-serialized op)

  -- An operation that has a value exactly where its type wants one and is shorter than 2 GiB is
  -- serialized with no exception into a buffer that it fills, and that buffer is read back as the
  -- operation.
  pub deserialize-serialize :
      (op : SplinterdbOperation)
      → IsWellFormed op
      → wire_size op < 2 ^ 31
      → (b : Buffer) × (serialize n op ≡ ok b) × (n.room b ≡ 0) × (deserialize n b ≡ ok op)
  deserialize-serialize op h fits =
      let done = serialize-serialized op fits in
      (serialized op, done.0, done.1, deserialize-serialized op h fits)

  -- An empty buffer makes `deserialize` throw, and a buffer of a type byte above 2 and a key below
  -- 4 GiB is read as an operation of that unknown type with no value.
  pub deserialize_other :
      (empty b : Buffer) (t : ℕ) (key : Bytes) (rest : List Item)
      → n.written empty ≡ []
      → 2 < t
      → length key < 2 ^ 32
      → n.written b ≡ u8 t ∷ str key ∷ rest
      → (deserialize n empty ≡ throw (overflow_error "not enough space"))
        × (deserialize n b ≡ ok (record { key = key; value = none; type = unknown t }))
  unfolding deserialize
  deserialize_other empty b t key rest e h fits e' = (
    rw (n.get_u8_end (n.rewind empty) (n.unread-rewind empty ∙ e)),
    rw (
      n.get_u8_lem (n.rewind b) t (str key ∷ rest) (n.unread-rewind b ∙ e'),
      n.get_str_lem (n.skip (n.rewind b)) key rest fits
          (n.unread-skip _ _ _ (n.unread-rewind b ∙ e')),
      of_u8_unknown t h,
    ),
  )
