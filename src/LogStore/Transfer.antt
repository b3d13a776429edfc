-- ===== src/LogStore/Transfer.antt =====
-- A pack that one store makes, applied to another: `pack` and then `apply_pack`.
use replicated_splinterdb.Base.{
  ℕ, suc, max, ◌+◌, ◌-◌, ◌^◌, ◌≤◌, ◌<◌, ◌≡◌, refl, ap, subst, ◌∙◌, List, [], ◌∷◌, map, length,
  length-map, pos, u64, ok, arith,
}
use replicated_splinterdb.Base.Map.{assign, upper_bound}
use replicated_splinterdb.Base.Numbered.{number, put_at, assign-number}
use replicated_splinterdb.Nuraft.{Nuraft, carried, wire_fields, wire_fields-carried}
use replicated_splinterdb.LogStore.{InmemLogStore}
use replicated_splinterdb.LogStore.Pack.{pack, apply_pack, unpack, first_index, finish}
use replicated_splinterdb.LogStore.View.{RaftLog, Represents, next}
use replicated_splinterdb.LogStore.Reads.{slice, length-slice}
use replicated_splinterdb.LogStore.Packed.{
  packed_size, items, packed, wire_size, written-packed, pack-Represents,
}
use replicated_splinterdb.LogStore.Splice.{
  put_all_at, spliced, length-put_at, length-spliced, put_all_at-spliced,
}

module _ {E : Type 0} where
  assign-logs :
      (d e : E) (k j : ℕ) (xs : List E)
      → 0 < k
      → j ≤ length xs
      → assign (k + j) e ((0, d) ∷ number k xs) ≡ (0, d) ∷ number k (put_at j e xs)
  unfolding assign
  assign-logs d e k j xs h p = ground (arith, assign-number k j e xs)

module _ (n : Nuraft) where
  open n use {Entry, Buffer}

  unpack-items :
      (es : List Entry) (j k : ℕ) (p : Buffer) (d : Entry) (xs : List Entry)
      → n.unread p ≡ items n es
      → 0 < k
      → j ≤ length xs
      → k + j + length es < 2 ^ 64
      → unpack n (length es) (k + j) p ((0, d) ∷ number k xs)
        ≡ (ok tt, (0, d) ∷ number k (put_all_at j (map (carried n) es) xs))
  unfolding unpack
  unpack-items [] j k p d xs content pos_k hi fits = refl
  unpack-items (e ∷ es) j k p d xs content pos_k hi fits =
      rw
        (
          n.get_i32_lem p _ _ content,
          n.get_raw_lem (n.skip p) (n.alloc (wire_size n e)) _ _ (n.unread-skip p _ _ content)
              (n.size-alloc (wire_size n e) ∙ n.size-bytes (n.serialize e)),
          assign-logs d (carried n e) k j xs pos_k hi,
          next_index,
        )
        (unpack-items es (suc j) k (n.skip (n.skip p)) d (put_at j (carried n e) xs)
          (n.unread-skip _ _ _ (n.unread-skip p _ _ content)) pos_k
          (length-put_at j (carried n e) xs hi) (omega arith))
    where
      next_index : u64 (suc (k + j)) ≡ k + suc j
      next_index = omega arith

  first_index-logs :
      (d : Entry) (k : ℕ) (xs : List Entry)
      → 0 < k
      → 0 < length xs
      → first_index n ((0, d) ∷ number k xs) ≡ k
  unfolding first_index upper_bound
  first_index-logs d k [] h p = absurd (omega arith)
  first_index-logs d k (x ∷ xs) h p = ground arith

  -- The log with these entries, as they come off the wire, in the place of its own from an index on.
  abbrev pub received : RaftLog Entry → ℕ → List Entry → RaftLog Entry
  received l index es = record l {
    entries = spliced (index - l.start) (map (carried n) es) l.entries;
  }

  unpack-packed :
      (es : List Entry) (index : ℕ) (l : RaftLog Entry)
      → 0 < l.start
      → l.start ≤ index
      → index ≤ next l
      → index + length es < 2 ^ 64
      → unpack n
          (length es)
          index
          (n.skip (n.rewind (packed n es)))
          ((0, l.dummy) ∷ number l.start l.entries)
        ≡ (ok tt, (0, l.dummy) ∷ number l.start (received l index es).entries)
  unpack-packed es index l pos_k lo hi fits =
      let e : l.start + (index - l.start) ≡ index = omega arith in
      let content : n.unread (n.skip (n.rewind (packed n es))) ≡ items n es =
        n.unread-skip _ _ _ (n.unread-rewind (packed n es) ∙ written-packed n es) in
      subst
        (λ (i : ℕ).
          unpack n (length es) i (n.skip (n.rewind (packed n es)))
            ((0, l.dummy) ∷ number l.start l.entries)
          ≡ (ok tt, (0, l.dummy) ∷ number l.start (received l index es).entries))
        e
        (rw (← put_all_at-spliced (index - l.start) (map (carried n) es) l.entries (omega arith)) (
          unpack-items es (index - l.start) l.start _ l.dummy l.entries content pos_k (omega arith)
            (omega arith)))

  apply_pack-finish :
      (es : List Entry) (index : ℕ) (t : InmemLogStore Entry) (l : RaftLog Entry)
      → t.logs ≡ (0, l.dummy) ∷ number l.start l.entries
      → 0 < l.start
      → l.start ≤ index
      → index ≤ next l
      → index + length es < 2 ^ 64
      → apply_pack n index (packed n es) t
        ≡ finish n t (ok tt, (0, l.dummy) ∷ number l.start (received l index es).entries)
  unfolding apply_pack
  apply_pack-finish es index t l logs pos_k lo hi fits = rw (
    n.get_i32_lem _ _ _ (n.unread-rewind (packed n es) ∙ written-packed n es),
    apply_pack,
    logs,
    unpack-packed es index l pos_k lo hi fits,
  )

  finish-Represents :
      (t : InmemLogStore Entry) (l : RaftLog Entry)
      → 0 < l.start
      → 0 < length l.entries
      → next l < 2 ^ 64
      → ((finish n t (ok tt, (0, l.dummy) ∷ number l.start l.entries)).0 ≡ ok tt)
        × Represents (finish n t (ok tt, (0, l.dummy) ∷ number l.start l.entries)).1 l
  unfolding finish
  finish-Represents t l pos_k nonempty fits = (
    refl,
    record {
      logs_eq = refl;
      start_eq = first_index-logs l.dummy l.start l.entries pos_k nonempty;
      positive = pos_k;
      fits = fits;
    },
  )

  -- The receiver's log `l` starts at `l.start`, which its start index need not agree with.
  pub apply_pack-packed :
      (es : List Entry) (index : ℕ) (t : InmemLogStore Entry) (l : RaftLog Entry)
      → t.logs ≡ (0, l.dummy) ∷ number l.start l.entries
      → 0 < l.start
      → l.start ≤ index
      → index ≤ next l
      → 0 < length es
      → index + length es < 2 ^ 64
      → next l < 2 ^ 64
      → ((apply_pack n index (packed n es) t).0 ≡ ok tt)
        × Represents (apply_pack n index (packed n es) t).1 (received l index es)
  apply_pack-packed es index t l logs pos_l lo hi some_entry room fits =
      rw (apply_pack-finish es index t l logs pos_l lo hi room)
        (finish-Represents t (received l index es) pos_l (omega (arith, len)) (omega (arith, len)))
    where
      len :
          length (received l index es).entries
          ≡ max (length l.entries) (index - l.start + length es)
      len =
          length-spliced (index - l.start) (map (carried n) es) l.entries (omega arith)
          ∙ ap (λ (k : ℕ). max (length l.entries) (index - l.start + k)) (length-map (carried n) es)

  pub receive-Represents :
      (es : List Entry) (index : ℕ) (t : InmemLogStore Entry) (l : RaftLog Entry)
      → Represents t l
      → l.start ≤ index
      → index ≤ next l
      → 0 < length es
      → index + length es < 2 ^ 64
      → Represents (apply_pack n index (packed n es) t).1 (received l index es)
  receive-Represents es index t l v lo hi some_entry room =
      (apply_pack-packed es index t l v.logs_eq v.positive lo hi some_entry room v.fits).1

  -- What one store packs of its log, a range within it of at least one entry and below 2 GiB,
  -- another store applies with no exception, and then stands for its own log with the sender's
  -- entries, as they come off the wire, in the place of the range: these have the terms, the value
  -- types and the payloads of the sender's, and nothing is said of their timestamps and CRCs. The
  -- entries of the receiver start no later than the range and reach it; its start index need not
  -- agree with them.
  pub apply_pack-pack :
      (s t : InmemLogStore Entry) (l r : RaftLog Entry) (index count : ℕ)
      → Represents s l
      → l.start ≤ index
      → index + count ≤ next l
      → 0 < count
      → 4 + packed_size n (slice l index (index + count)) < 2 ^ 31
      → t.logs ≡ (0, r.dummy) ∷ number r.start r.entries
      → 0 < r.start
      → r.start ≤ index
      → index ≤ next r
      → next r < 2 ^ 64
      → (b : Buffer) × (pack n index (pos count) s ≡ ok b)
        × ((apply_pack n index b t).0 ≡ ok tt)
        × Represents (apply_pack n index b t).1 (received r index (slice l index (index + count)))
        × (map (wire_fields n) (map (carried n) (slice l index (index + count)))
            ≡ map (wire_fields n) (slice l index (index + count)))
  apply_pack-pack s t l r index count v lo hi some_entry fits logs pos_r lo_r hi_r fits_r =
      let done =
        apply_pack-packed es index t r logs pos_r lo_r hi_r (omega (arith, len))
          (omega (arith, len, v.fits)) fits_r in
      (
        packed n es,
        pack-Represents n v index count lo hi fits,
        done.0,
        done.1,
        wire_fields-carried n es,
      )
    where
      es : List Entry
      es = slice l index (index + count)

      len : length es ≡ count
      len = omega (arith, length-slice l index (index + count) lo (omega arith) hi)
