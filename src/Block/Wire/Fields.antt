-- ===== src/Block/Wire/Fields.antt =====
-- yrs/src/block.rs and yrs/src/update.rs: the fields of an item come back from their bytes.
use y_crdt.Common.{
  ℕ, suc, ◌<◌, ◌≡◌, refl, sym, ap, ◌∙◌, Bool, true, false, not, Option, none, some, List, ◌++◌,
  ◌==◌, if◌then◌else◌, arith, ◌^◌, append_assoc,
}
use Prim.Native.Nat.{bit_and}
use y_crdt.Encoding.{ok}
use y_crdt.Encoding.Buffers.{write_buf}
use y_crdt.Encoding.Client.{read_client-write_var_u64}
use y_crdt.Encoding.VarInt.{write_var_u32, write_var_u64}
use y_crdt.Encoding.VarInt.RoundTrip.{read_var_u32-write_var_u32}
use y_crdt.Awareness.{is_some}
use y_crdt.Awareness.Codec.{read_string-write_buf}
use y_crdt.Block.{BlockId}
use y_crdt.Block.Content.{
  ItemContent, Codecs, deleted, json, binary, string, embed, format, type, any, doc, get_ref_number,
  decode_content,
}
use y_crdt.Block.Content.RoundTrip.{IsText}
use y_crdt.Block.Wire.{
  Parent, unknown, branch, named, by_id, WireItem, info_bits, write_id, read_id, write_optional_id,
  write_optional_string, write_parent, can_copy, info, read_optional_id, read_parent,
  read_parent_sub, has_flag,
}
use y_crdt.Block.Wire.Flags.{flags}

-- Clients of 53 bits and clocks of 32.
abbrev pub IdFits : BlockId → Type 0
IdFits id = (id.client < 2 ^ 53) × (id.clock < 2 ^ 32)

pub read_id-write_id :
    (id : BlockId) (rest : List ℕ) → IdFits id → read_id (write_id id ++ rest) ≡ ok (id, rest)
unfolding read_id write_id
read_id-write_id id rest f =
    rw
      (
        append_assoc (write_var_u64 id.client) (write_var_u32 id.clock) rest,
        read_client-write_var_u64 id.client (write_var_u32 id.clock ++ rest) f.0,
        read_var_u32-write_var_u32 id.clock rest f.1,
      )
      refl

abbrev pub OptionalFits : Option BlockId → Type 0
OptionalFits none = Unit
OptionalFits (some id) = IdFits id

-- What the bytes keep of a parent.
abbrev pub wire_parent : Parent → Parent
wire_parent unknown = unknown
wire_parent (branch none none) = unknown
wire_parent (branch none (some name)) = named name
wire_parent (branch (some id) name) = by_id id
wire_parent (named name) = named name
wire_parent (by_id id) = by_id id

module _ {A T R : Type 0} (c : Codecs A T R) where
  pub read_optional_id-write_optional_id :
      (o : Option BlockId) (rest : List ℕ)
      → OptionalFits o
      → read_optional_id c (is_some o) (write_optional_id o ++ rest) ≡ ok (o, rest)
  read_optional_id-write_optional_id none rest f = refl
  read_optional_id-write_optional_id (some id) rest f = rw (read_id-write_id id rest f) refl

  abbrev pub ParentFits : Parent → Type 0
  ParentFits unknown = ⊥
  ParentFits (branch none none) = ⊥
  ParentFits (branch none (some name)) = IsText c name
  ParentFits (branch (some id) name) = IdFits id
  ParentFits (named name) = IsText c name
  ParentFits (by_id id) = IdFits id

  abbrev pub SubFits : Option (List ℕ) → Type 0
  SubFits none = Unit
  SubFits (some s) = IsText c s

  read_named :
      (name rest : List ℕ)
      → IsText c name
      → read_parent c true ((write_var_u32 1 ++ write_buf name) ++ rest) ≡ ok (named name, rest)
  read_named name rest f =
      rw
        (
          append_assoc (write_var_u32 1) (write_buf name) rest,
          read_var_u32-write_var_u32 1 (write_buf name ++ rest) (omega arith),
          read_string-write_buf c.is_utf8 name rest f.0 f.1,
        )
        refl

  read_by_id :
      (id : BlockId) (rest : List ℕ)
      → IdFits id
      → read_parent c true ((write_var_u32 0 ++ write_id id) ++ rest) ≡ ok (by_id id, rest)
  read_by_id id rest f =
      rw
        (
          append_assoc (write_var_u32 0) (write_id id) rest,
          read_var_u32-write_var_u32 0 (write_id id ++ rest) (omega arith),
          read_id-write_id id rest f,
        )
        refl

  pub read_parent-write_parent :
      (p : Parent) (rest : List ℕ)
      → ParentFits p
      → (bytes : List ℕ) × (write_parent p ≡ some bytes)
        × (read_parent c true (bytes ++ rest) ≡ ok (wire_parent p, rest))
  read_parent-write_parent unknown rest f = absurd f
  read_parent-write_parent (branch none none) rest f = absurd f
  read_parent-write_parent (branch none (some name)) rest f = (_, refl, read_named name rest f)
  read_parent-write_parent (branch (some id) name) rest f = (_, refl, read_by_id id rest f)
  read_parent-write_parent (named name) rest f = (_, refl, read_named name rest f)
  read_parent-write_parent (by_id id) rest f = (_, refl, read_by_id id rest f)

  pub read_parent_sub-write :
      (s : Option (List ℕ)) (rest : List ℕ)
      → SubFits s
      → read_parent_sub c (is_some s) (write_optional_string s ++ rest) ≡ ok (s, rest)
  read_parent_sub-write none rest f = refl
  read_parent_sub-write (some s) rest f = rw (read_string-write_buf c.is_utf8 s rest f.0 f.1) refl

  -- Kinds of content have numbers from 1 to 9.
  pub ref_number :
      (x : ItemContent A T R)
      → (n : ℕ) × (n < 9) × (get_ref_number c x ≡ suc n) × (bit_and (get_ref_number c x) 15 ≡ suc n)
  ref_number (deleted n) = (0, omega arith, refl, refl)
  ref_number (json s) = (1, omega arith, refl, refl)
  ref_number (binary b) = (2, omega arith, refl, refl)
  ref_number (string s) = (3, omega arith, refl, refl)
  ref_number (embed v) = (4, omega arith, refl, refl)
  ref_number (format k v) = (5, omega arith, refl, refl)
  ref_number (type t) = (6, omega arith, refl, refl)
  ref_number (any v) = (7, omega arith, refl, refl)
  ref_number (doc o) = (8, omega arith, refl, refl)

  -- What the bytes keep of an item: the parent only if no origin tells it.
  unfoldable pub wire_item : WireItem A T R → WireItem A T R
  wire_item it =
      if can_copy it.origin it.right_origin
      then record it { parent = unknown; parent_sub = none }
      else record it { parent = wire_parent it.parent }

  decode_content-number :
      (bytes : List ℕ) (i j : ℕ)
      → bit_and i 15 ≡ bit_and j 15
      → decode_content c bytes i ≡ decode_content c bytes j
  unfolding decode_content
  decode_content-number bytes i j e = rw (decode_content, e) refl

  -- What the decoder finds in the flag byte of an item.
  pub info-flags :
      (it : WireItem A T R)
      → (bit_and (info c it) 192 == 0 ≡ not (can_copy it.origin it.right_origin))
        × (has_flag c (info c it) 128 ≡ is_some it.origin)
        × (has_flag c (info c it) 64 ≡ is_some it.right_origin)
        × (has_flag c (info c it) 32 ≡ is_some it.parent_sub)
        × ((info c it == 10) ≡ false)
        × ((info c it == 0) ≡ false)
        × ((bytes : List ℕ)
            → decode_content c bytes (info c it)
              ≡ decode_content c bytes (get_ref_number c it.content))
  unfolding info
  info-flags it =
      let o = is_some it.origin in
      let r = is_some it.right_origin in
      let s = is_some it.parent_sub in
      let (n, less, number, low) = ref_number it.content in
      let byte : info c it ≡ info_bits o r s (suc n) = ap (info_bits o r s) number in
      let (any_origin, left, right, sub, not_skip, not_gc, kind) = flags o r s n less in
      rw byte (
        any_origin,
        rw left (not_not o),
        rw right (not_not r),
        rw sub (not_not s),
        not_skip,
        not_gc,
        λ bytes. decode_content-number bytes _ _ (kind ∙ sym low),
      )
    where
      not_not : (b : Bool) → not (not b) ≡ b
      not_not true = refl
      not_not false = refl
