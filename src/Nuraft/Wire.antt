-- ===== src/Nuraft/Wire.antt =====
-- Items as numbers, one after the other, for the plain entries of the tests.
use replicated_splinterdb.Base.{
  ℕ, zero, suc, ◌≡◌, refl, ap, List, [], ◌∷◌, ◌++◌, append_assoc, length, take, drop, pos, negsuc,
}
use replicated_splinterdb.Nuraft.{Item, u8, i32, str, raw, Bytes}

abbrev encode_item : Item → Bytes
encode_item (u8 n) = 0 ∷ n ∷ []
encode_item (i32 (pos n)) = 1 ∷ n ∷ []
encode_item (i32 (negsuc n)) = 2 ∷ n ∷ []
encode_item (str s) = 3 ∷ length s ∷ s
encode_item (raw s) = 4 ∷ length s ∷ s

abbrev pub encode_items : List Item → Bytes
encode_items [] = []
encode_items (i ∷ items) = encode_item i ++ encode_items items

-- An item of this kind, with a number or a length.
abbrev item_of : ℕ → ℕ → Bytes → Item × Bytes
item_of zero k bs = (u8 k, bs)
item_of (suc zero) k bs = (i32 (pos k), bs)
item_of (suc (suc zero)) k bs = (i32 (negsuc k), bs)
item_of (suc (suc (suc zero))) k bs = (str (take k bs), drop k bs)
item_of (suc (suc (suc (suc kind)))) k bs = (raw (take k bs), drop k bs)

abbrev decode_item : Bytes → Item × Bytes
decode_item (kind ∷ k ∷ bs) = item_of kind k bs
decode_item _ = (u8 0, [])

abbrev pub decode_items : ℕ → Bytes → List Item × Bytes
decode_items zero bs = ([], bs)
decode_items (suc m) bs =
    let (i, more) = decode_item bs in let (items, last) = decode_items m more in (i ∷ items, last)

take-length_append : (xs ys : Bytes) → take (length xs) (xs ++ ys) ≡ xs
take-length_append [] ys = refl
take-length_append (x ∷ xs) ys = ap (λ r. x ∷ r) (take-length_append xs ys)

drop-length_append : (xs ys : Bytes) → drop (length xs) (xs ++ ys) ≡ ys
drop-length_append [] ys = refl
drop-length_append (x ∷ xs) ys = drop-length_append xs ys

decode_item-encode : (i : Item) (bs : Bytes) → decode_item (encode_item i ++ bs) ≡ (i, bs)
decode_item-encode (u8 n) bs = refl
decode_item-encode (i32 (pos n)) bs = refl
decode_item-encode (i32 (negsuc n)) bs = refl
decode_item-encode (str s) bs = rw (take-length_append s bs, drop-length_append s bs)
decode_item-encode (raw s) bs = rw (take-length_append s bs, drop-length_append s bs)

pub decode_items-encode :
    (items : List Item) (bs : Bytes)
    → decode_items (length items) (encode_items items ++ bs) ≡ (items, bs)
decode_items-encode [] bs = refl
decode_items-encode (i ∷ items) bs =
    rw (append_assoc (encode_item i) (encode_items items) bs)
      (rw (decode_item-encode i (encode_items items ++ bs), decode_items-encode items bs))
