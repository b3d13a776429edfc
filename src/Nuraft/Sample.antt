-- ===== src/Nuraft/Sample.antt =====
-- Buffers and log entries as plain data: a value of `Nuraft` for the tests.
use replicated_splinterdb.Base.{
  ℕ, zero, suc, ◌-◌, ◌≡◌, refl, ap, Bool, false, Option, none, some, List, [], ◌∷◌, ◌++◌, length, ℤ,
  leb, ◌==◌, ==_refl, if◌then◌else◌,
}
use replicated_splinterdb.Nuraft.{Nuraft, Item, u8, i32, str, raw, item_size, Bytes}
use replicated_splinterdb.Nuraft.Wire.{encode_items, decode_items, decode_items-encode}

pub record PlainBuffer : Type 0 where
  pub content : Bytes
  pub space : ℕ
  pub put_items : List Item
  pub next_items : List Item

pub record PlainEntry : Type 0 where
  pub term : ℕ
  pub payload : Bytes
  pub items : List Item
  pub val_type : ℕ
  pub timestamp : ℕ
  pub has_crc : Bool
  pub crc : ℕ

abbrev zeros : ℕ → Bytes
zeros zero = []
zeros (suc n) = 0 ∷ zeros n

pub length-zeros : (n : ℕ) → length (zeros n) ≡ n
length-zeros zero = refl
length-zeros (suc n) = ap suc (length-zeros n)

abbrev pub plain : Bytes → PlainBuffer
plain s = record { content = s; space = 0; put_items = []; next_items = [] }

abbrev plain_alloc : ℕ → PlainBuffer
plain_alloc n = record { content = zeros n; space = n; put_items = []; next_items = [] }

abbrev plain_after : Item → PlainBuffer → PlainBuffer
plain_after i b = record b { space = b.space - item_size i; put_items = b.put_items ++ i ∷ [] }

abbrev plain_put : Item → PlainBuffer → Option PlainBuffer
plain_put i b = if leb (item_size i) b.space then some (plain_after i b) else none

abbrev rest : List Item → List Item
rest [] = []
rest (i ∷ r) = r

abbrev plain_skip : PlainBuffer → PlainBuffer
plain_skip b = record b { next_items = rest b.next_items }

abbrev head_u8 : List Item → PlainBuffer → Option (ℕ × PlainBuffer)
head_u8 (u8 n ∷ r) b = some (n, b)
head_u8 _ b = none

abbrev head_i32 : List Item → PlainBuffer → Option (ℤ × PlainBuffer)
head_i32 (i32 z ∷ r) b = some (z, b)
head_i32 _ b = none

abbrev head_str : List Item → PlainBuffer → Option (Bytes × PlainBuffer)
head_str (str s ∷ r) b = some (s, b)
head_str _ b = none

abbrev head_raw : List Item → ℕ → PlainBuffer → Option (PlainBuffer × PlainBuffer)
head_raw (raw s ∷ r) n b = if length s == n then some (plain s, b) else none
head_raw _ n b = none

-- An entry in bytes: its term, its value type, the items of its buffer and the bytes of that.
abbrev pub plain_entry : ℕ → Bytes → PlainEntry
plain_entry t s = record {
  term = t;
  payload = s;
  items = [];
  val_type = 0;
  timestamp = 0;
  has_crc = false;
  crc = 0;
}

abbrev encode : PlainEntry → Bytes
encode e = e.term ∷ e.val_type ∷ length e.items ∷ encode_items e.items ++ e.payload

abbrev decode : Bytes → PlainEntry
decode (t ∷ v ∷ m ∷ s) = record (plain_entry t (decode_items m s).1) {
  items = (decode_items m s).0;
  val_type = v;
}
decode _ = plain_entry 0 []

abbrev plain_buffer : PlainEntry → PlainBuffer
plain_buffer e = record (plain e.payload) { put_items = e.items }

pub decode-encode :
    (e : PlainEntry)
    → decode (encode e)
      ≡ record (plain_entry e.term e.payload) { items = e.items; val_type = e.val_type }
decode-encode e = rw (decode_items-encode e.items e.payload)

pub plain_get_raw :
    (b target : PlainBuffer) (s : Bytes) (r : List Item)
    → b.next_items ≡ raw s ∷ r
    → length target.content ≡ length s
    → head_raw b.next_items (length target.content) (plain_skip b) ≡ some (plain s, plain_skip b)
plain_get_raw b target s r h e = rw (h, e, ==_refl)

abbrev pub sample : Nuraft
sample = record {
  Buffer = PlainBuffer;
  Entry = PlainEntry;
  alloc = plain_alloc;
  size = λ b. length b.content;
  room = λ b. b.space;
  bytes = λ b. b.content;
  rewind = λ b. record b { next_items = b.put_items };
  put = plain_put;
  get_u8 = λ b. head_u8 b.next_items (plain_skip b);
  get_i32 = λ b. head_i32 b.next_items (plain_skip b);
  get_str = λ b. head_str b.next_items (plain_skip b);
  get_raw = λ target b. head_raw b.next_items (length target.content) (plain_skip b);
  written = λ b. b.put_items;
  unread = λ b. b.next_items;
  after_put = plain_after;
  skip = plain_skip;
  size-alloc = length-zeros;
  room-alloc = λ n h. refl;
  written-alloc = λ n. refl;
  rewind-alloc = λ n. refl;
  put_lem = λ i b. refl;
  room-after_put = λ i b. refl;
  size-after_put = λ i b. refl;
  written-after_put = λ i b. refl;
  unread-rewind = λ b. refl;
  unread-skip = λ b i r h. ap rest h;
  get_u8_lem = λ b n r h. ap (λ q. head_u8 q (plain_skip b)) h;
  get_u8_end = λ b h. ap (λ q. head_u8 q (plain_skip b)) h;
  get_i32_lem = λ b z r h. ap (λ q. head_i32 q (plain_skip b)) h;
  get_str_lem = λ b s r fits h. ap (λ q. head_str q (plain_skip b)) h;
  get_str_end = λ b h. ap (λ q. head_str q (plain_skip b)) h;
  of_bytes = plain;
  get_raw_lem = plain_get_raw;
  size-bytes = λ b. refl;
  new_entry = λ t b v w h c _. record {
    term = t;
    payload = b.content;
    items = b.put_items;
    val_type = v;
    timestamp = w;
    has_crc = h;
    crc = c;
  };
  default_entry = λ t b. record (plain_entry t b.content) { items = b.put_items };
  get_term = λ e. e.term;
  get_buf = plain_buffer;
  get_val_type = λ e. e.val_type;
  get_timestamp = λ e. e.timestamp;
  has_crc32 = λ e. e.has_crc;
  get_crc32 = λ e. e.crc;
  clone = λ b. b;
  serialize = λ e. plain (encode e);
  deserialize = λ b. decode b.content;
  get_term-default = λ t b. refl;
  new_entry-clone = λ e. refl;
  get_term-deserialize = λ e. ap (λ d. d.term) (decode-encode e);
  get_val_type-deserialize = λ e. ap (λ d. d.val_type) (decode-encode e);
  get_buf-deserialize = λ e. ap (λ d. plain_buffer d) (decode-encode e);
}
