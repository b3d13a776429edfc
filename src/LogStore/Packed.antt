-- ===== src/LogStore/Packed.antt =====
-- What `pack` writes: the number of entries, and each entry in its wire format behind its size.
use replicated_splinterdb.Base.{
  ℕ, zero, suc, ◌+◌, ◌-◌, ◌*◌, ◌^◌, ◌≤◌, ◌<◌, ◌≡◌, refl, sym, ◌∙◌, some, List, [], ◌∷◌, ◌++◌, map,
  append_assoc, append-nil, length, take, drop, get_elem?, pos, u64, int32_of_small, le→leb,
  le→ltb_false, ok, arith,
}
use replicated_splinterdb.Base.Map.{Map, find}
use replicated_splinterdb.Base.Numbered.{number, at, find-number}
use replicated_splinterdb.Nuraft.{Nuraft, Item, i32, raw, item_size}
use replicated_splinterdb.LogStore.{InmemLogStore}
use replicated_splinterdb.LogStore.Pack.{pack, fill, serialize_range, size_total, put_all}
use replicated_splinterdb.LogStore.View.{RaftLog, Represents, next}
use replicated_splinterdb.LogStore.Reads.{slice, length-slice, slice_step, value_or}

module _ {E : Type 0} where
  get_elem?-some :
      (d : E) (j : ℕ) (xs : List E)
      → j < length xs
      → get_elem? xs j ≡ some (value_or d (get_elem? xs j))
  get_elem?-some d j [] h = absurd (omega arith)
  get_elem?-some d zero (x ∷ xs) h = refl
  get_elem?-some d (suc j) (x ∷ xs) h = get_elem?-some d j xs (omega arith)

  find_behind : (d : E) (m : Map E) (i : ℕ) → 0 < i → find i ((0, d) ∷ m) ≡ find i m
  unfolding find
  find_behind d m i h = ground arith

module _ (n : Nuraft) where
  open n use {Entry, Buffer}

  abbrev pub wire_size : Entry → ℕ
  wire_size e = n.size (n.serialize e)

  -- What the entries take up in a pack, without its head.
  abbrev pub packed_size : List Entry → ℕ
  packed_size [] = 0
  packed_size (e ∷ es) = 4 + wire_size e + packed_size es

  abbrev pub items : List Entry → List Item
  items [] = []
  items (e ∷ es) = i32 (pos (wire_size e)) ∷ raw (n.bytes (n.serialize e)) ∷ items es

  -- A put that fits.
  pub put_fits :
      (i : Item) (b : Buffer) → item_size i ≤ n.room b → n.put i b ≡ some (n.after_put i b)
  put_fits i b h = n.put_lem i b ∙ rw (le→leb (item_size i) (n.room b) h)

  -- The buffer after the two puts of an entry, and after those of all entries.
  abbrev after_entry : Entry → Buffer → Buffer
  after_entry e out =
      n.after_put (raw (n.bytes (n.serialize e))) (n.after_put (i32 (pos (wire_size e))) out)

  abbrev pub after_all : List Entry → Buffer → Buffer
  after_all [] out = out
  after_all (e ∷ es) out = after_all es (after_entry e out)

  room-after_entry :
      (e : Entry) (out : Buffer) → n.room (after_entry e out) ≡ n.room out - 4 - wire_size e
  room-after_entry e out =
      n.room-after_put (raw (n.bytes (n.serialize e))) _
      ∙ rw (n.room-after_put (i32 (pos (wire_size e))) out, ← n.size-bytes (n.serialize e))

  put_all-after_all :
      (es : List Entry) (out : Buffer)
      → packed_size es ≤ n.room out
      → packed_size es < 2 ^ 31
      → put_all n (map n.serialize es) out ≡ some (after_all es out)
  unfolding put_all
  put_all-after_all [] out h fits = refl
  put_all-after_all (e ∷ es) out h fits =
      rw
        (
          int32_of_small (wire_size e) (omega arith),
          put_fits (i32 (pos (wire_size e))) out (omega arith),
          put_fits (raw (n.bytes (n.serialize e))) (n.after_put (i32 (pos (wire_size e))) out) (
              omega (
                arith,
                n.room-after_put (i32 (pos (wire_size e))) out,
                n.size-bytes (n.serialize e),
              )),
        )
        (put_all-after_all es (after_entry e out) (omega (arith, room-after_entry e out))
          (omega arith))

  written-after_all :
      (es : List Entry) (out : Buffer) → n.written (after_all es out) ≡ n.written out ++ items es
  written-after_all [] out = sym (append-nil _)
  written-after_all (e ∷ es) out =
      written-after_all es (after_entry e out)
      ∙ rw
          (
            n.written-after_put (raw (n.bytes (n.serialize e)))
                (n.after_put (i32 (pos (wire_size e))) out),
            n.written-after_put (i32 (pos (wire_size e))) out,
          )
          (simp append_assoc)

  size_total-packed :
      (es : List Entry) → length es * 4 + size_total n (map n.serialize es) ≡ packed_size es
  unfolding size_total
  size_total-packed [] = refl
  size_total-packed (e ∷ es) = omega (arith, size_total-packed es)

  -- The buffer that `pack` returns for these entries.
  abbrev pub packed : List Entry → Buffer
  packed es = after_all es (n.after_put (i32 (pos (length es))) (n.alloc (4 + packed_size es)))

  fill-packed :
      (es : List Entry)
      → 4 + packed_size es < 2 ^ 31
      → fill n (pos (length es)) (length es) (map n.serialize es) ≡ ok (packed es)
  unfolding fill
  fill-packed es fits = rw (
    total,
    n.rewind-alloc (4 + packed_size es),
    put_fits (i32 (pos (length es))) (n.alloc (4 + packed_size es))
        (omega (arith, n.room-alloc (4 + packed_size es) fits)),
    put_all-after_all es head
        (omega (
          arith,
          n.room-after_put (i32 (pos (length es))) (n.alloc (4 + packed_size es)),
          n.room-alloc (4 + packed_size es) fits,
        ))
        (omega arith),
  )
    where
      total : u64 (4 + length es * 4 + size_total n (map n.serialize es)) ≡ 4 + packed_size es
      total = omega (arith, size_total-packed es)

      head : Buffer
      head = n.after_put (i32 (pos (length es))) (n.alloc (4 + packed_size es))

  fill_of_length :
      (c : ℕ) (es : List Entry)
      → length es ≡ c
      → 4 + packed_size es < 2 ^ 31
      → fill n (pos c) c (map n.serialize es) ≡ ok (packed es)
  fill_of_length c es e fits = rw (← e) (fill-packed es fits)

  pub written-packed : (es : List Entry) → n.written (packed es) ≡ i32 (pos (length es)) ∷ items es
  written-packed es =
      written-after_all es _
      ∙ rw (
        n.written-after_put (i32 (pos (length es))) (n.alloc (4 + packed_size es)),
        n.written-alloc,
      )

  module _ {s : InmemLogStore Entry} {l : RaftLog Entry} (v : Represents s l) where
    find-Represents :
        (ii : ℕ)
        → l.start ≤ ii
        → ii < next l
        → find ii s.logs ≡ some (value_or l.dummy (at ii l.start l.entries))
    find-Represents ii lo hi = rw v.logs_eq (
        find_behind l.dummy (number l.start l.entries) ii (omega (arith, v.positive))
        ∙ find-number ii l.start l.entries
        ∙ rw (le→ltb_false ii l.start lo)
            (get_elem?-some l.dummy (ii - l.start) l.entries (omega arith)))

    serialize_range-Represents :
        (r ii : ℕ)
        → l.start ≤ ii
        → ii + r ≤ next l
        → serialize_range n r ii s.logs
          ≡ ok (map n.serialize (take r (drop (ii - l.start) l.entries)))
    unfolding serialize_range
    serialize_range-Represents zero ii lo hi = refl
    serialize_range-Represents (suc r) ii lo hi =
        let e : u64 (suc ii) ≡ suc ii = omega (arith, v.fits) in
        rw (
          find-Represents ii lo (omega arith),
          serialize_range,
          e,
          serialize_range-Represents r (suc ii) (omega arith) (omega arith),
          slice_step ii l.start l.dummy l.entries r lo (omega arith),
        )

    -- `pack` succeeds on a range within the log, whose wire form stays below 2 GiB, and returns the
    -- buffer of its entries.
    pub pack-Represents :
        (index count : ℕ)
        → l.start ≤ index
        → index + count ≤ next l
        → 4 + packed_size (slice l index (index + count)) < 2 ^ 31
        → pack n index (pos count) s ≡ ok (packed (slice l index (index + count)))
    unfolding pack
    pack-Represents index count lo hi fits =
        let narrow : u64 count ≡ count = omega (arith, v.fits) in
        let end : u64 (index + count) ≡ index + count = omega (arith, v.fits) in
        rw (narrow, end, serialize_range-Represents (index + count - index) index lo (omega arith))
          (fill_of_length count (slice l index (index + count))
            (omega (arith, length-slice l index (index + count) lo (omega arith) hi)) fits)
