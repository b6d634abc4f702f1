-- ===== src/Update/Codec.antt =====
-- yrs/src/update.rs: `Update::encode_diff` and `Update::decode`, with the first version of the encoding,
-- and yrs/src/slice.rs: `ItemSlice::encode` of a slice that ends with its item.
-- A slice is given by its start; `split` stands for `split_str` at an offset in UTF-16. Running out of
-- memory in `try_reserve` is not modelled.
pub mod Slices
pub mod Sorted
pub mod Sent
pub mod RoundTrip
use y_crdt.Common.{
  ℕ, zero, suc, ◌+◌, ◌-◌, ◌^◌, ◌%◌, ◌==◌, ltb, if◌then◌else◌, Bool, true, false, ◌||◌, ◌&&◌, not,
  Option, none, some, List, [], ◌∷◌, ◌++◌, length, take, drop,
}
use Prim.Native.Nat.{bit_and, bit_or}
use y_crdt.Encoding.{Result, ok, err, panic, ◌>>=◌}
use y_crdt.Encoding.Buffers.{write_buf}
use y_crdt.Encoding.Client.{read_client}
use y_crdt.Encoding.VarInt.{write_var_u32, read_var_u32, write_var_u64, read_var_u64}
use y_crdt.BTree.{get}
use y_crdt.HashMap.{put}
use y_crdt.IdMap.{IdMap}
use y_crdt.IdMap.Codec.{encode_set, decode_set}
use y_crdt.StateVector.{StateVector, clock_of}
use y_crdt.Awareness.{is_some}
use y_crdt.Block.{BlockId}
use y_crdt.Block.Content.{
  ItemContent, deleted, json, binary, string, embed, format, type, any, doc, Codecs, content_len,
  encode_content, write_strings, write_values,
}
use y_crdt.Block.Wire.{
  WireItem, WireBlock, item, gc, skip, has_origin, has_right_origin, info, write_optional_id,
  write_optional_string, write_parent, then_write, decode_block,
}

-- A block of an update at its clock.
pub record Placed (A T R : Type 0) : Type 0 where
  pub clock : ℕ
  pub block : WireBlock A T R

abbrev pub Blocks : Type 0 → Type 0 → Type 0 → Type 0
Blocks A T R = List (ℕ × List (Placed A T R))

pub record Update (A T R : Type 0) : Type 0 where
  pub blocks : Blocks A T R
  pub delete_set : IdMap Unit

module _ {A T R : Type 0} (c : Codecs A T R) (split : List ℕ → ℕ → List ℕ × List ℕ) where
  abbrev pub block_len : WireBlock A T R → ℕ
  block_len (item it) = content_len c it.content
  block_len (gc len) = len
  block_len (skip len) = len

  abbrev pub is_skip_block : WireBlock A T R → Bool
  is_skip_block (item it) = false
  is_skip_block (gc len) = false
  is_skip_block (skip len) = true

  -- `ItemContent::encode_slice` from a start to an end within the content, both inclusive.
  unfoldable pub encode_content_slice : ItemContent A T R → ℕ → ℕ → List ℕ
  encode_content_slice (deleted n) start end = write_var_u32 (end - start + 1)
  encode_content_slice (binary b) start end = write_buf b
  encode_content_slice (string s) start end =
      let right = if start == 0 then s else (split s start).1 in
      write_buf (if end == 0 then right else (split right (end - start + 1)).0)
  encode_content_slice (embed v) start end = c.write_json v
  encode_content_slice (json s) start end =
      write_var_u32 (end - start + 1) ++ write_strings c (take (end - start + 1) (drop start s))
  encode_content_slice (format k v) start end = write_buf k ++ c.write_json v
  encode_content_slice (type t) start end = c.write_type_ref t
  encode_content_slice (any v) start end =
      write_var_u32 (end - start + 1) ++ write_values c (take (end - start + 1) (drop start v))
  encode_content_slice (doc o) start end = c.write_options o

  unfoldable pub encode_slice : ℕ → ℕ → WireItem A T R → ℕ → Option (List ℕ)
  encode_slice client clock it start =
      let origin =
        if start == 0
        then it.origin
        else some (record { client = client; clock = clock + start - 1 }) in
      let byte = if is_some origin then bit_or (info c it) has_origin else info c it in
      let parent =
        if bit_and byte (bit_or has_origin has_right_origin) == 0
        then then_write (write_parent it.parent) (write_optional_string it.parent_sub)
        else some [] in
      let head = byte ∷ (write_optional_id origin ++ write_optional_id it.right_origin) in
      elim parent [
        | none ↦ none
        | some p ↦
            some
              (head ++ (p ++ encode_content_slice it.content start (content_len c it.content - 1)))
      ]

  -- `Block::encode_with_offset`
  unfoldable pub encode_with_offset : ℕ → ℕ → WireBlock A T R → ℕ → Option (List ℕ)
  encode_with_offset client clock (item it) offset = encode_slice client clock it offset
  encode_with_offset client clock (skip len) offset = some (10 ∷ write_var_u32 (len - offset))
  encode_with_offset client clock (gc len) offset = some (0 ∷ write_var_u32 (len - offset))

  -- The blocks of a client from the first one on that is no skip and has a clock that the remote
  -- replica lacks.
  unfoldable pub newer_blocks : ℕ → List (Placed A T R) → List (Placed A T R)
  newer_blocks remote_clock [] = []
  newer_blocks remote_clock (b ∷ bs) =
      let rest = newer_blocks remote_clock bs in
      if is_skip_block b.block
      then rest
      else if ltb remote_clock (b.clock + block_len b.block)
      then b ∷ bs
      else rest

  abbrev pub insert_desc : ℕ → List (Placed A T R) → Blocks A T R → Blocks A T R
  insert_desc client bs [] = (client, bs) ∷ []
  insert_desc client bs ((d, ds) ∷ m) =
      let rest = insert_desc client bs m in
      if ltb client d then (d, ds) ∷ rest else (client, bs) ∷ (d, ds) ∷ m

  -- The clients with blocks to send, the largest first.
  unfoldable pub sorted_diffs : StateVector → Blocks A T R → Blocks A T R
  sorted_diffs sv [] = []
  sorted_diffs sv ((client, bs) ∷ m) =
      let rest = sorted_diffs sv m in
      elim (newer_blocks (clock_of sv client) bs) [
        | [] ↦ rest
        | b ∷ newer ↦ insert_desc client (b ∷ newer) rest
      ]

  -- A panic of one part is a panic of the whole.
  abbrev pub append_bytes : Option (List ℕ) → Option (List ℕ) → Option (List ℕ)
  append_bytes none y = none
  append_bytes (some x) none = none
  append_bytes (some x) (some y) = some (x ++ y)

  unfoldable pub encode_blocks : ℕ → ℕ → List (Placed A T R) → Option (List ℕ)
  encode_blocks client offset [] = some []
  encode_blocks client offset (b ∷ bs) =
      append_bytes (encode_with_offset client b.clock b.block offset) (encode_blocks client 0 bs)

  unfoldable pub encode_clients : StateVector → Blocks A T R → Option (List ℕ)
  encode_clients sv [] = some []
  encode_clients sv ((client, []) ∷ m) = none
  encode_clients sv ((client, b ∷ bs) ∷ m) =
      let offset = clock_of sv client - b.clock in
      let head =
        write_var_u64 (length (b ∷ bs))
        ++ (write_var_u64 client ++ write_var_u32 (b.clock + offset)) in
      append_bytes (some head)
        (append_bytes (encode_blocks client offset (b ∷ bs)) (encode_clients sv m))

  -- The bytes, or none for a panic.
  unfoldable pub encode_diff : Update A T R → StateVector → Option (List ℕ)
  encode_diff u sv =
      let diffs = sorted_diffs sv u.blocks in
      append_bytes (some (write_var_u64 (length diffs)))
        (append_bytes (encode_clients sv diffs) (some (encode_set u.delete_set)))

  -- `for _ in 0..blocks_len`, with the blocks pushed so far; the sum of clocks is checked.
  unfoldable pub decode_blocks :
      ℕ → ℕ → List (Placed A T R) → List ℕ → Result (List (Placed A T R) × List ℕ)
  decode_blocks zero clock blocks bytes = ok (blocks, bytes)
  decode_blocks (suc n) clock blocks bytes = decode_block c bytes >>= (λ (decoded, rest).
      elim decoded [
        | none ↦ decode_blocks n clock blocks rest
        | some b ↦
            let more =
              decode_blocks n (clock + block_len b)
                (blocks ++ record { clock = clock; block = b } ∷ []) rest in
            if ltb (clock + block_len b) (2 ^ 32) then more else panic
      ])

  abbrev pub or_no_blocks : Option (List (Placed A T R)) → List (Placed A T R)
  or_no_blocks none = []
  or_no_blocks (some bs) = bs

  -- `for _ in 0..clients_len`
  unfoldable pub decode_clients : ℕ → Blocks A T R → List ℕ → Result (Blocks A T R × List ℕ)
  decode_clients zero clients bytes = ok (clients, bytes)
  decode_clients (suc n) clients bytes = read_var_u32 bytes >>= (λ (blocks_len, b1).
      read_client b1 >>= (λ (client, b2). read_var_u32 b2 >>= (λ (clock, b3).
        decode_blocks blocks_len clock (or_no_blocks (get client clients)) b3
        >>= (λ (blocks, rest). decode_clients n (put client blocks clients) rest))))

  unfoldable pub decode_update : List ℕ → Result (Update A T R × List ℕ)
  decode_update bytes = read_var_u32 bytes >>= (λ (clients_len, more).
      decode_clients clients_len [] more >>= (λ (blocks, tail).
        decode_set tail
        >>= (λ (set, rest). ok (record { blocks = blocks; delete_set = set }, rest))))
