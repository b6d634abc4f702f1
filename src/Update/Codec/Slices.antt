-- ===== src/Update/Codec/Slices.antt =====
-- yrs/src/slice.rs and yrs/src/block.rs: a slice of a whole item has the bytes of the item.
use y_crdt.Common.{
  take-all, take, ℕ, ◌+◌, ◌-◌, ◌<◌, ◌≡◌, refl, ap, ◌∙◌, Option, none, some, List, [], ◌∷◌, ◌++◌,
  length, ◌==◌, if◌then◌else◌, arith, Bool-cases, inl, inr, ◌^◌, ◌%◌,
}
use Prim.Native.Nat.{bit_and, bit_or}
use y_crdt.Encoding.VarInt.{write_var_u32}
use y_crdt.Awareness.{is_some}
use y_crdt.Block.Content.{
  ItemContent, deleted, json, binary, string, embed, format, type, any, doc, Codecs, content_len,
  encode_content,
}
use y_crdt.Block.Content.RoundTrip.{Laws, ContentFits}
use y_crdt.Block.Wire.{
  WireItem, WireBlock, item, gc, skip, has_origin, has_right_origin, info, write_optional_id,
  write_optional_string, write_parent, then_write, encode_item, encode_block,
}
use y_crdt.Block.Wire.RoundTrip.{BlockFits}
use y_crdt.Block.Wire.Fields.{ref_number}
use y_crdt.Block.Wire.Flags.{origin_flag}
use y_crdt.Update.Codec.{encode_content_slice, encode_slice, encode_with_offset}

module _ {A T R : Type 0} (c : Codecs A T R) (laws : Laws c) (split : List ℕ → ℕ → List ℕ × List ℕ)
    (split-whole : (s : List ℕ) → split s (c.len_utf16 s) ≡ (s, [])) where
  encode_content_slice-whole :
      (x : ItemContent A T R)
      → ContentFits c laws x
      → 0 < content_len c x
      → encode_content_slice c split x 0 (content_len c x - 1) ≡ encode_content c x
  unfolding encode_content_slice encode_content
  encode_content_slice-whole (deleted n) f h = ap write_var_u32 (omega arith)
  encode_content_slice-whole (json s) f h = absurd f
  encode_content_slice-whole (binary b) f h = refl
  encode_content_slice-whole (string s) f h = elim (Bool-cases (c.len_utf16 s - 1 == 0)) [
    | inl e ↦ rw e refl
    | inr e ↦
        let whole : c.len_utf16 s - 1 - 0 + 1 ≡ c.len_utf16 s = omega arith in
        rw (e, whole, split-whole s) refl
  ]
  encode_content_slice-whole (embed v) f h = refl
  encode_content_slice-whole (format k v) f h = refl
  encode_content_slice-whole (type t) f h = refl
  encode_content_slice-whole (any v) f h =
      let whole : length v - 1 - 0 + 1 ≡ length v % 2 ^ 32 = omega (arith, f.0) in
      let all : take (length v - 1 - 0 + 1) v ≡ v = take-all _ v (omega arith) in
      rw (all, whole) refl
  encode_content_slice-whole (doc o) f h = refl

  whole_byte :
      (it : WireItem A T R)
      → (if is_some it.origin then bit_or (info c it) 128 else info c it) ≡ info c it
  unfolding info
  whole_byte it = elim (Bool-cases (is_some it.origin)) [
    | inr e ↦ rw e refl
    | inl e ↦
        let (n, less, number, low) = ref_number c it.content in
        rw (e, number) (origin_flag (is_some it.right_origin) (is_some it.parent_sub) n less)
  ]

  -- An item with a given flag byte and a given encoding of its content.
  abbrev assembled : WireItem A T R → ℕ → List ℕ → Option (List ℕ)
  assembled it byte content =
      let parent =
        if bit_and byte (bit_or has_origin has_right_origin) == 0
        then then_write (write_parent it.parent) (write_optional_string it.parent_sub)
        else some [] in
      let head = byte ∷ (write_optional_id it.origin ++ write_optional_id it.right_origin) in
      elim parent [ none ↦ none | some p ↦ some (head ++ (p ++ content)) ]

  pub encode_slice-whole :
      (client clock : ℕ) (it : WireItem A T R)
      → ContentFits c laws it.content
      → 0 < content_len c it.content
      → encode_slice c split client clock it 0 ≡ encode_item c it
  unfolding encode_slice encode_item
  encode_slice-whole client clock it f h =
      ap
        (λ byte.
          assembled it byte
            (encode_content_slice c split it.content 0 (content_len c it.content - 1)))
        (whole_byte it)
      ∙ ap (λ bytes. assembled it (info c it) bytes) (encode_content_slice-whole it.content f h)

  pub encode_with_offset-whole :
      (client clock : ℕ) (b : WireBlock A T R)
      → BlockFits c laws b
      → encode_with_offset c split client clock b 0 ≡ encode_block c b
  unfolding encode_with_offset encode_block
  encode_with_offset-whole client clock (item it) f = encode_slice-whole client clock it f.3 f.4
  encode_with_offset-whole client clock (gc len) f =
      ap (λ n. some (0 ∷ write_var_u32 n)) (omega arith)
  encode_with_offset-whole client clock (skip len) f =
      ap (λ n. some (10 ∷ write_var_u32 n)) (omega arith)
