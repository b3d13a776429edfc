-- ===== src/Operation/Tests.antt =====
-- The theorems on the wire form of operations, at a put of one key and at buffers of plain items.
use replicated_splinterdb.Base.{◌≡◌, some, [], ◌∷◌, ok, arith}
use replicated_splinterdb.Nuraft.{u8, str}
use replicated_splinterdb.Nuraft.Sample.{sample, PlainBuffer, plain}
use replicated_splinterdb.Operation.{SplinterdbOperation, put, serialize, deserialize}
use replicated_splinterdb.Operation.RoundTrip.{deserialize-serialize}

abbrev one_put : SplinterdbOperation
one_put = record { key = 107 ∷ []; value = some (118 ∷ 119 ∷ []); type = put }

deserialize-serialize_example :
    (b : PlainBuffer) × (serialize sample one_put ≡ ok b)
    × (sample.room b ≡ 0)
    × (deserialize sample b ≡ ok one_put)
deserialize-serialize_example = deserialize-serialize sample one_put tt (omega arith)

-- A buffer of type byte 9.
abbrev odd_buffer : PlainBuffer
odd_buffer = record (plain []) { put_items = u8 9 ∷ str (107 ∷ []) ∷ [] }
