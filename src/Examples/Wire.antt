-- ===== src/Examples/Wire.antt =====
-- Blocks and updates as bytes at concrete inputs.
use y_crdt.Update.Codec.{Blocks, Update, encode_diff, decode_update}
use y_crdt.Common.{
  ℕ, ◌≡◌, refl, ap, Bool, true, false, none, some, List, [], ◌∷◌, ◌++◌, length, ◌==◌, arith,
  Bool-cases, inl, inr, take, drop,
}
use y_crdt.Encoding.{Result, ok, read_u8, ◌>>=◌}
use y_crdt.Encoding.Buffers.{write_buf}
use y_crdt.BTree.{get}
use y_crdt.Block.Content.{Options, json, string, Codecs, encode_content, decode_content}
use y_crdt.Block.Content.RoundTrip.{Laws, decode_json-encode_content}
use y_crdt.Block.Wire.{WireBlock, item, gc, skip, named, encode_block, decode_block}
use y_crdt.Block.Wire.RoundTrip.{BlockFits, wire_block, decode_block-encode_block}
use y_crdt.Update.Codec.RoundTrip.{wire_sent, decode_update-encode_diff}
use y_crdt.Update.Codec.Sent.{IsDescending, sent}

abbrev flag : Bool → ℕ
flag true = 1
flag false = 0

abbrev write_flags : Options ℕ → List ℕ
write_flags o = flag o.auto_load ∷ flag o.should_load ∷ o.others ∷ []

abbrev read_flags : List ℕ → Result (Options ℕ × List ℕ)
read_flags bytes = read_u8 bytes >>= (λ (a, b1). read_u8 b1 >>= (λ (s, b2).
    read_u8 b2
    >>= (λ (o, rest). ok (record { auto_load = a == 1; should_load = s == 1; others = o }, rest))))

-- Nested values of one byte, and texts of ASCII.
abbrev bytes_codecs : Codecs ℕ ℕ ℕ
bytes_codecs = record {
  write_any = λ v. v ∷ [];
  read_any = read_u8;
  write_json = λ v. v ∷ [];
  read_json = read_u8;
  write_type_ref = λ v. v ∷ [];
  read_type_ref = read_u8;
  write_options = write_flags;
  read_options = read_flags;
  is_utf8 = λ s. true;
  len_utf16 = length;
}

read_flags-write_flags :
    (o : Options ℕ) (rest : List ℕ) → read_flags (write_flags o ++ rest) ≡ ok (o, rest)
read_flags-write_flags o rest = elim (Bool-cases o.auto_load) [
  | inl a ↦ elim (Bool-cases o.should_load) [ inl s ↦ rw (a, s) refl | inr s ↦ rw (a, s) refl ]
  | inr a ↦ elim (Bool-cases o.should_load) [ inl s ↦ rw (a, s) refl | inr s ↦ rw (a, s) refl ]
]

abbrev bytes_laws : Laws bytes_codecs
bytes_laws = record {
  IsAny = λ v. Unit;
  IsJson = λ v. Unit;
  IsType = λ v. Unit;
  IsOptions = λ v. Unit;
  read_any-write_any = λ v rest h. refl;
  read_json-write_json = λ v rest h. refl;
  read_type_ref-write_type_ref = λ v rest h. refl;
  read_options-write_options = λ o rest h. read_flags-write_flags o rest;
}

-- The text ab under a root.
abbrev text_item : WireBlock ℕ ℕ ℕ
text_item = item (record {
  origin = none;
  right_origin = none;
  parent = named (120 ∷ []);
  parent_sub = none;
  content = string (97 ∷ 98 ∷ []);
})

text_item-BlockFits : BlockFits bytes_codecs bytes_laws text_item
text_item-BlockFits = (tt, tt, inr ((omega arith, refl), tt), (omega arith, refl), omega arith)

decode_block-encode_block_example :
    (bytes : List ℕ) × (encode_block bytes_codecs text_item ≡ some bytes)
    × (decode_block bytes_codecs (bytes ++ 5 ∷ [])
        ≡ ok (some (wire_block bytes_codecs bytes_laws text_item), 5 ∷ []))
decode_block-encode_block_example =
    decode_block-encode_block bytes_codecs bytes_laws text_item (5 ∷ []) text_item-BlockFits

decode_json-encode_content_example :
    decode_content bytes_codecs
      (encode_content bytes_codecs (json ((97 ∷ []) ∷ [])) ++ (write_buf (98 ∷ []) ++ 3 ∷ []))
      2
    ≡ ok (json ((97 ∷ []) ∷ (98 ∷ []) ∷ []), 3 ∷ [])
decode_json-encode_content_example =
    decode_json-encode_content bytes_codecs ((97 ∷ []) ∷ []) (98 ∷ []) (3 ∷ [])
      ((omega arith, refl), tt) (omega arith, refl) (omega arith)

abbrev cut : List ℕ → ℕ → List ℕ × List ℕ
cut s n = (take n s, drop n s)

cut-whole : (s : List ℕ) → cut s (length s) ≡ (s, [])
cut-whole [] = refl
cut-whole (x ∷ s) = ap (λ (p : List ℕ × List ℕ). (x ∷ p.0, p.1)) (cut-whole s)

abbrev two_blocks : Update ℕ ℕ ℕ
two_blocks = record {
  blocks =
      (1, record { clock = 0; block = text_item } ∷ record { clock = 2; block = gc 3 } ∷ [])
      ∷ (4, record { clock = 0; block = skip 2 } ∷ record { clock = 2; block = gc 1 } ∷ [])
      ∷ [];
  delete_set = (1, record { start = 0; end = 2; value = tt } ∷ []) ∷ [];
}

decode_update-encode_diff_example :
    (bytes : List ℕ) × (encode_diff bytes_codecs cut two_blocks [] ≡ some bytes)
    × ((blocks : Blocks ℕ ℕ ℕ) × (decode_update bytes_codecs cut (bytes ++ [])
          ≡ ok (record { blocks = blocks; delete_set = two_blocks.delete_set }, []))
        × IsDescending blocks
        × ((client : ℕ)
            → get client blocks
              ≡ wire_sent bytes_codecs bytes_laws cut cut-whole
                  (sent bytes_codecs bytes_laws cut (get client two_blocks.blocks))))
decode_update-encode_diff_example =
    decode_update-encode_diff bytes_codecs bytes_laws cut cut-whole two_blocks []
      (unfold get in (refl, (refl, tt)))
      (
        omega arith,
        omega arith,
        (
          0,
          (
            refl,
            omega arith,
            omega arith,
            text_item-BlockFits,
            (omega arith, omega arith, omega arith, (omega arith, omega arith), tt),
          ),
        ),
        (
          omega arith,
          omega arith,
          (
            0,
            (
              refl,
              omega arith,
              omega arith,
              (omega arith, omega arith),
              (omega arith, omega arith, omega arith, (omega arith, omega arith), tt),
            ),
          ),
          tt,
        ),
      )
      (omega arith) (omega arith, tt) (omega arith, omega arith, (omega arith, omega arith, tt), tt)
      (omega arith)
