-- ===== src/Operation.antt =====
-- The operations that are replicated, and their wire form:
-- include/replicated-splinterdb/server/splinterdb_operation.h, src/server/splinterdb_operation.cpp.
pub mod RoundTrip
mod Tests
use replicated_splinterdb.Base.{
  ℕ, ◌+◌, Option, none, some, u64, length, ◌==◌, if◌then◌else◌, Result, ok, throw, overflow_error,
  bind,
}
use replicated_splinterdb.Nuraft.{Nuraft, Bytes, u8, str}
use replicated_splinterdb.LogStore.Pack.{checked}

-- enum splinterdb_operation_type : uint8_t. A cast from a byte makes no check, so there are more
-- values than enumerators.
pub data OperationType : Type 0 where
  put update delete : OperationType
  unknown : ℕ → OperationType

unfoldable pub of_u8 : ℕ → OperationType
of_u8 b = if b == 0 then put else if b == 1 then update else if b == 2 then delete else unknown b

unfoldable pub to_u8 : OperationType → ℕ
to_u8 put = 0
to_u8 update = 1
to_u8 delete = 2
to_u8 (unknown b) = b

pub record SplinterdbOperation : Type 0 where
  pub key : Bytes
  pub value : Option Bytes
  pub type : OperationType

unfoldable pub make_put : Bytes → Bytes → SplinterdbOperation
make_put key value = record { key = key; value = some value; type = put }

unfoldable pub make_update : Bytes → Bytes → SplinterdbOperation
make_update key value = record { key = key; value = some value; type = update }

unfoldable pub make_delete : Bytes → SplinterdbOperation
make_delete key = record { key = key; value = none; type = delete }

-- The size that `serialize` allocates.
unfoldable pub buffer_size : SplinterdbOperation → ℕ
buffer_size op =
    let head = 1 + 4 + length op.key in
    elim op.value [ none ↦ u64 head | some value ↦ u64 (head + (4 + length value)) ]

-- Whether `deserialize` reads a value behind the key.
unfoldable pub get_value : (n : Nuraft) → OperationType → n.Buffer → Result (Option Bytes)
get_value n put bs = bind (checked (n.get_str bs)) λ r. ok (some r.0)
get_value n update bs = bind (checked (n.get_str bs)) λ r. ok (some r.0)
get_value n delete bs = ok none
get_value n (unknown b) bs = ok none

module _ (n : Nuraft) where
  open n use {Buffer}

  unfoldable pub put_value : Option Bytes → Buffer → Result Buffer
  put_value none bs = ok bs
  put_value (some value) bs = checked (n.put (str value) bs)

  unfoldable pub serialize : SplinterdbOperation → Result Buffer
  unfolding put_value buffer_size to_u8
  serialize op =
      bind (checked (n.put (u8 (to_u8 op.type)) (n.rewind (n.alloc (buffer_size op)))))
        λ bs. bind (checked (n.put (str op.key) bs)) λ bs'. put_value op.value bs'

  unfoldable pub deserialize : Buffer → Result SplinterdbOperation
  unfolding get_value of_u8
  deserialize payload_in = bind (checked (n.get_u8 (n.rewind payload_in))) λ b.
      bind (checked (n.get_str b.1)) λ k.
        bind (get_value n (of_u8 b.0) k.1)
          λ value. ok (record { key = k.0; value = value; type = of_u8 b.0 })
