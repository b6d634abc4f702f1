-- ===== src/Block/Wire/RoundTrip.antt =====
-- yrs/src/block.rs and yrs/src/update.rs: blocks come back from the bytes that encode them.
use y_crdt.Common.{
  ℕ, ◌<◌, ◌≡◌, ◌⊎◌, refl, ap, ◌∙◌, true, false, not, Option, none, some, List, ◌∷◌, ◌++◌, ◌==◌,
  arith, ==_iff, Bool-cases, inl, inr, ◌^◌, append_assoc,
}
use Prim.Native.Nat.{bit_and}
use y_crdt.Encoding.{ok}
use y_crdt.Encoding.VarInt.{write_var_u32}
use y_crdt.Encoding.VarInt.RoundTrip.{read_var_u32-write_var_u32}
use y_crdt.Block.Content.{Codecs, content_len, encode_content}
use y_crdt.Block.Content.RoundTrip.{Laws, ContentFits, decode_content-encode_content}
use y_crdt.Block.Wire.{
  unknown, WireItem, WireBlock, item, gc, skip, write_optional_id, write_optional_string, can_copy,
  info, encode_item, encode_block, new_item, decode_item, decode_block,
}
use y_crdt.Block.Wire.Fields.{
  OptionalFits, wire_parent, ParentFits, SubFits, read_optional_id-write_optional_id,
  read_parent-write_parent, read_parent_sub-write, wire_item, info-flags,
}

module _ {A T R : Type 0} (c : Codecs A T R) (laws : Laws c) where
  -- The parent of an item without origins can be told, and the content is not empty.
  abbrev pub ItemFits : WireItem A T R → Type 0
  ItemFits it =
      OptionalFits it.origin
      × OptionalFits it.right_origin
      × ((can_copy it.origin it.right_origin ≡ true)
          ⊎ (ParentFits c it.parent × SubFits c it.parent_sub))
      × ContentFits c laws it.content
      × (0 < content_len c it.content)

  new_item-some :
      (it : WireItem A T R) → 0 < content_len c it.content → new_item c it ≡ some (item it)
  new_item-some it h = elim (Bool-cases (content_len c it.content == 0)) [
    | inl e ↦ let none_left = (==_iff (content_len c it.content) 0).0 e in absurd (omega arith)
    | inr e ↦ rw e refl
  ]

  -- An item with an origin: its parent is not in the bytes.
  copied-item :
      (it : WireItem A T R) (rest : List ℕ)
      → ItemFits it
      → can_copy it.origin it.right_origin ≡ true
      → (bytes : List ℕ) × (encode_item c it ≡ some (info c it ∷ bytes))
        × (decode_item c (info c it) (bytes ++ rest) ≡ ok (some (item (wire_item c it)), rest))
  unfolding encode_item decode_item wire_item
  copied-item it rest (fo, fr, fp, fc, size) copies =
      let (any_origin, left, right, sub, not_skip, not_gc, kind) = info-flags c it in
      let cant : (bit_and (info c it) 192 == 0) ≡ false = any_origin ∙ ap not copies in
      let content = encode_content c it.content in
      let o = write_optional_id it.origin in
      let r = write_optional_id it.right_origin in
      (
        (o ++ r) ++ content,
        rw (encode_item, cant) refl,
        rw
            (
              decode_item,
              cant,
              left,
              right,
              append_assoc (o ++ r) content rest,
              append_assoc o r (content ++ rest),
              read_optional_id-write_optional_id c it.origin (r ++ (content ++ rest)) fo,
              read_optional_id-write_optional_id c it.right_origin (content ++ rest) fr,
              kind (content ++ rest),
              decode_content-encode_content c laws it.content rest fc,
              copies,
            )
            (ap (λ (x : Option (WireBlock A T R)). ok (x, rest))
              (new_item-some (record it { parent = unknown; parent_sub = none }) size)),
      )

  -- An item without an origin: its parent is in the bytes.
  placed-item :
      (it : WireItem A T R) (rest : List ℕ)
      → ItemFits it
      → can_copy it.origin it.right_origin ≡ false
      → (bytes : List ℕ) × (encode_item c it ≡ some (info c it ∷ bytes))
        × (decode_item c (info c it) (bytes ++ rest) ≡ ok (some (item (wire_item c it)), rest))
  unfolding encode_item decode_item wire_item
  placed-item it rest (fo, fr, inl copies, fc, size) placed = absurd (cc)
  placed-item it rest (fo, fr, inr (fp, fs), fc, size) placed =
      let (any_origin, left, right, sub, not_skip, not_gc, kind) = info-flags c it in
      let cant : (bit_and (info c it) 192 == 0) ≡ true = any_origin ∙ ap not placed in
      let content = encode_content c it.content in
      let o = write_optional_id it.origin in
      let r = write_optional_id it.right_origin in
      let s = write_optional_string it.parent_sub in
      let (p, written, read) = read_parent-write_parent c it.parent (s ++ (content ++ rest)) fp in
      (
        (o ++ r) ++ ((p ++ s) ++ content),
        rw (encode_item, cant, written) refl,
        rw
            (
              decode_item,
              cant,
              left,
              right,
              sub,
              append_assoc (o ++ r) ((p ++ s) ++ content) rest,
              append_assoc o r (((p ++ s) ++ content) ++ rest),
              append_assoc (p ++ s) content rest,
              append_assoc p s (content ++ rest),
              read_optional_id-write_optional_id c it.origin (r ++ (p ++ (s ++ (content ++ rest))))
                  fo,
              read_optional_id-write_optional_id c it.right_origin (p ++ (s ++ (content ++ rest)))
                  fr,
              read,
              read_parent_sub-write c it.parent_sub (content ++ rest) fs,
              kind (content ++ rest),
              decode_content-encode_content c laws it.content rest fc,
              placed,
            )
            (ap (λ (x : Option (WireBlock A T R)). ok (x, rest))
              (new_item-some (record it { parent = wire_parent it.parent }) size)),
      )

  abbrev pub BlockFits : WireBlock A T R → Type 0
  BlockFits (item it) = ItemFits it
  BlockFits (gc len) = (0 < len) × (len < 2 ^ 32)
  BlockFits (skip len) = (0 < len) × (len < 2 ^ 32)

  abbrev pub wire_block : WireBlock A T R → WireBlock A T R
  wire_block (item it) = item (wire_item c it)
  wire_block (gc len) = gc len
  wire_block (skip len) = skip len

  not_empty : (len : ℕ) → 0 < len → (len == 0) ≡ false
  not_empty len h = elim (Bool-cases (len == 0)) [
    | inl e ↦ let none_left = (==_iff len 0).0 e in absurd (omega arith)
    | inr e ↦ e
  ]

  -- In the first version of the encoding, where the codecs of nested values read back what they
  -- write: garbage, a skip, or an item, not empty, whose identifiers have clients of 53 bits and
  -- clocks of 32, whose texts and content fit, whose content is no JSON and whose parent is known
  -- if it has no origin, is encoded without a panic, and decoding the bytes gives the block, with
  -- the parent and its key only if it has no origin; the bytes behind are left.
  pub decode_block-encode_block :
      (b : WireBlock A T R) (rest : List ℕ)
      → BlockFits b
      → (bytes : List ℕ) × (encode_block c b ≡ some bytes)
        × (decode_block c (bytes ++ rest) ≡ ok (some (wire_block b), rest))
  unfolding encode_block decode_block
  decode_block-encode_block (item it) rest f =
      let (any_origin, left, right, sub, not_skip, not_gc, kind) = info-flags c it in
      elim (Bool-cases (can_copy it.origin it.right_origin)) [
        | inl e ↦
            let (bytes, written, read) = copied-item it rest f e in
            (info c it ∷ bytes, written, rw (decode_block, not_skip, not_gc) read)
        | inr e ↦
            let (bytes, written, read) = placed-item it rest f e in
            (info c it ∷ bytes, written, rw (decode_block, not_skip, not_gc) read)
      ]
  decode_block-encode_block (gc len) rest f = (
    0 ∷ write_var_u32 len,
    refl,
    rw (read_var_u32-write_var_u32 len rest f.1, not_empty len f.0) refl,
  )
  decode_block-encode_block (skip len) rest f = (
    10 ∷ write_var_u32 len,
    refl,
    rw (read_var_u32-write_var_u32 len rest f.1, not_empty len f.0) refl,
  )
