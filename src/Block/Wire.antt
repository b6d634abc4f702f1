-- ===== src/Block/Wire.antt =====
-- yrs/src/block.rs and yrs/src/update.rs: blocks in an update, `Item::encode`, `Block::encode` and
-- `Update::decode_block`, with the first version of the encoding (yrs/src/updates).
pub mod Flags
pub mod Fields
pub mod RoundTrip
use y_crdt.Common.{
  ℕ, zero, suc, ◌+◌, ◌^◌, ◌%◌, ◌==◌, ltb, if◌then◌else◌, Bool, true, false, ◌||◌, ◌&&◌, not, Option,
  none, some, List, [], ◌∷◌, ◌++◌, length,
}
use Prim.Native.Nat.{bit_and, bit_or}
use y_crdt.Encoding.{Result, ok, err, panic, Error, empty_block, read_u8, ◌>>=◌}
use y_crdt.Encoding.Buffers.{write_buf, read_buf}
use y_crdt.Encoding.Client.{read_client, read_client-write_var_u64}
use y_crdt.Encoding.VarInt.{write_var_u32, read_var_u32, write_var_u64, read_var_u64}
use y_crdt.Awareness.{is_some}
use y_crdt.Awareness.Codec.{read_string}
use y_crdt.Block.{BlockId}
use y_crdt.Block.Content.{
  ItemContent, Codecs, get_ref_number, content_len, encode_content, decode_content,
}

-- `TypePtr`: a branch is given by its item, if it has one, or by its name.
pub data Parent : Type 0 where
  unknown : Parent
  branch : Option BlockId → Option (List ℕ) → Parent
  named : List ℕ → Parent
  by_id : BlockId → Parent

-- What an update says of an item, besides its identifier.
pub record WireItem (A T R : Type 0) : Type 0 where
  pub origin : Option BlockId
  pub right_origin : Option BlockId
  pub parent : Parent
  pub parent_sub : Option (List ℕ)
  pub content : ItemContent A T R

pub data WireBlock (A T R : Type 0) : Type 0 where
  item : WireItem A T R → WireBlock A T R
  gc : ℕ → WireBlock A T R
  skip : ℕ → WireBlock A T R

abbrev pub has_origin : ℕ
has_origin = 128

abbrev pub has_right_origin : ℕ
has_right_origin = 64

abbrev pub has_parent_sub : ℕ
has_parent_sub = 32

abbrev pub info_bits : Bool → Bool → Bool → ℕ → ℕ
info_bits o r s number =
    bit_or
      (bit_or (bit_or (if o then has_origin else 0) (if r then has_right_origin else 0))
        (if s then has_parent_sub else 0))
      (bit_and number 15)

unfoldable pub write_id : BlockId → List ℕ
write_id id = write_var_u64 id.client ++ write_var_u32 id.clock

unfoldable pub read_id : List ℕ → Result (BlockId × List ℕ)
read_id bytes = read_client bytes >>= (λ (client, more).
    read_var_u32 more >>= (λ (clock, rest). ok (record { client = client; clock = clock }, rest)))

abbrev pub write_optional_id : Option BlockId → List ℕ
write_optional_id none = []
write_optional_id (some id) = write_id id

abbrev pub write_optional_string : Option (List ℕ) → List ℕ
write_optional_string none = []
write_optional_string (some s) = write_buf s

-- `write_parent_info` and what names the parent; none is a panic.
abbrev pub write_parent : Parent → Option (List ℕ)
write_parent unknown = none
write_parent (branch none none) = none
write_parent (branch none (some name)) = some (write_var_u32 1 ++ write_buf name)
write_parent (branch (some id) name) = some (write_var_u32 0 ++ write_id id)
write_parent (named name) = some (write_var_u32 1 ++ write_buf name)
write_parent (by_id id) = some (write_var_u32 0 ++ write_id id)

abbrev pub then_write : Option (List ℕ) → List ℕ → Option (List ℕ)
then_write none bytes = none
then_write (some w) bytes = some (w ++ bytes)

-- The flag byte says when the parent is in the bytes.
abbrev pub can_copy : Option BlockId → Option BlockId → Bool
can_copy origin right_origin = is_some origin || is_some right_origin

module _ {A T R : Type 0} (c : Codecs A T R) where
  unfoldable pub info : WireItem A T R → ℕ
  info it =
      info_bits (is_some it.origin) (is_some it.right_origin) (is_some it.parent_sub)
        (get_ref_number c it.content)

  unfoldable pub encode_item : WireItem A T R → Option (List ℕ)
  encode_item it =
      let parent =
        if bit_and (info it) (bit_or has_origin has_right_origin) == 0
        then then_write (write_parent it.parent) (write_optional_string it.parent_sub)
        else some [] in
      let head = info it ∷ (write_optional_id it.origin ++ write_optional_id it.right_origin) in
      elim parent [ none ↦ none | some p ↦ some (head ++ (p ++ encode_content c it.content)) ]

  -- `Block::encode`
  unfoldable pub encode_block : WireBlock A T R → Option (List ℕ)
  encode_block (item it) = encode_item it
  encode_block (gc len) = some (0 ∷ write_var_u32 len)
  encode_block (skip len) = some (10 ∷ write_var_u32 len)

  abbrev pub read_optional_id : Bool → List ℕ → Result (Option BlockId × List ℕ)
  read_optional_id false bytes = ok (none, bytes)
  read_optional_id true bytes = read_id bytes >>= (λ (id, rest). ok (some id, rest))

  abbrev pub read_parent : Bool → List ℕ → Result (Parent × List ℕ)
  read_parent false bytes = ok (unknown, bytes)
  read_parent true bytes = read_var_u32 bytes >>= (λ (is_name, more).
      if is_name == 1
      then read_string c.is_utf8 more >>= (λ (name, rest). ok (named name, rest))
      else read_id more >>= (λ (id, rest). ok (by_id id, rest)))

  abbrev pub read_parent_sub : Bool → List ℕ → Result (Option (List ℕ) × List ℕ)
  read_parent_sub false bytes = ok (none, bytes)
  read_parent_sub true bytes = read_string c.is_utf8 bytes >>= (λ (s, rest). ok (some s, rest))

  abbrev pub has_flag : ℕ → ℕ → Bool
  has_flag byte flag = not (bit_and byte flag == 0)

  -- `Item::new` makes no item of an empty content.
  abbrev pub new_item : WireItem A T R → Option (WireBlock A T R)
  new_item it = if content_len c it.content == 0 then none else some (item it)

  unfoldable pub decode_item : ℕ → List ℕ → Result (Option (WireBlock A T R) × List ℕ)
  decode_item byte bytes =
      let cant_copy = bit_and byte (bit_or has_origin has_right_origin) == 0 in
      read_optional_id (has_flag byte has_origin) bytes >>= (λ (origin, b1).
        read_optional_id (has_flag byte has_right_origin) b1 >>= (λ (right_origin, b2).
          read_parent cant_copy b2 >>= (λ (parent, b3).
            read_parent_sub (cant_copy && has_flag byte has_parent_sub) b3 >>= (λ (parent_sub, b4).
              decode_content c b4 byte >>= (λ (content, rest). ok (
                new_item (record {
                  origin = origin;
                  right_origin = right_origin;
                  parent = parent;
                  parent_sub = parent_sub;
                  content = content;
                }),
                rest,
              ))))))

  unfoldable pub decode_block : List ℕ → Result (Option (WireBlock A T R) × List ℕ)
  decode_block bytes = read_u8 bytes >>= (λ (byte, more).
      if byte == 10
      then read_var_u32 more
        >>= (λ (len, rest). if len == 0 then err empty_block else ok (some (skip len), rest))
      else if byte == 0
      then read_var_u32 more
        >>= (λ (len, rest). if len == 0 then err empty_block else ok (some (gc len), rest))
      else decode_item byte more)
