-- ===== src/Block/Content.antt =====
-- yrs/src/block.rs: the contents of items and their encoding, `ItemContent::encode` and
-- `ItemContent::decode`. The values of `Any`, `TypeRef` and the options of documents come with their own
-- codecs, which are an interface here; a text is the list of its bytes.
pub mod RoundTrip
use y_crdt.Common.{
  ℕ, zero, suc, ◌+◌, ◌^◌, ◌%◌, ◌==◌, ltb, if◌then◌else◌, Bool, true, false, ◌||◌, not, Option, none,
  some, List, [], ◌∷◌, ◌++◌, length,
}
use Prim.Native.Nat.{bit_and}
use y_crdt.Encoding.{
  Result, ok, err, panic, Error, unexpected_value, malformed_utf8, not_enough_memory, ◌>>=◌,
}
use y_crdt.Encoding.Buffers.{write_buf, read_buf}
use y_crdt.Encoding.VarInt.{write_var_u32, read_var_u32}
use y_crdt.Awareness.Codec.{read_string}

-- The options of a document that the decoding touches, and the rest of them.
pub record Options (R : Type 0) : Type 0 where
  pub auto_load : Bool
  pub should_load : Bool
  pub others : R

pub data ItemContent (A T R : Type 0) : Type 0 where
  deleted : ℕ → ItemContent A T R
  json : List (List ℕ) → ItemContent A T R
  binary : List ℕ → ItemContent A T R
  string : List ℕ → ItemContent A T R
  embed : A → ItemContent A T R
  format : List ℕ → A → ItemContent A T R
  type : T → ItemContent A T R
  any : List A → ItemContent A T R
  doc : Options R → ItemContent A T R

-- What the encoder and the decoder do for nested values, and two operations on texts of the
-- standard library.
pub record Codecs (A T R : Type 0) : Type 0 where
  pub write_any : A → List ℕ
  pub read_any : List ℕ → Result (A × List ℕ)
  pub write_json : A → List ℕ
  pub read_json : List ℕ → Result (A × List ℕ)
  pub write_type_ref : T → List ℕ
  pub read_type_ref : List ℕ → Result (T × List ℕ)
  pub write_options : Options R → List ℕ
  pub read_options : List ℕ → Result (Options R × List ℕ)
  pub is_utf8 : List ℕ → Bool
  pub len_utf16 : List ℕ → ℕ

module _ {A T R : Type 0} (c : Codecs A T R) where
  abbrev pub get_ref_number : ItemContent A T R → ℕ
  get_ref_number (deleted n) = 1
  get_ref_number (json s) = 2
  get_ref_number (binary b) = 3
  get_ref_number (string s) = 4
  get_ref_number (embed v) = 5
  get_ref_number (format k v) = 6
  get_ref_number (type t) = 7
  get_ref_number (any v) = 8
  get_ref_number (doc o) = 9

  abbrev pub content_len : ItemContent A T R → ℕ
  content_len (deleted n) = n
  content_len (json s) = length s
  content_len (binary b) = 1
  content_len (string s) = c.len_utf16 s
  content_len (embed v) = 1
  content_len (format k v) = 1
  content_len (type t) = 1
  content_len (any v) = length v
  content_len (doc o) = 1

  abbrev pub write_strings : List (List ℕ) → List ℕ
  write_strings [] = []
  write_strings (s ∷ ss) = write_buf s ++ write_strings ss

  abbrev pub write_values : List A → List ℕ
  write_values [] = []
  write_values (v ∷ vs) = c.write_any v ++ write_values vs

  unfoldable pub encode_content : ItemContent A T R → List ℕ
  encode_content (deleted n) = write_var_u32 n
  encode_content (json s) = write_var_u32 (length s % 2 ^ 32) ++ write_strings s
  encode_content (binary b) = write_buf b
  encode_content (string s) = write_buf s
  encode_content (embed v) = c.write_json v
  encode_content (format k v) = write_buf k ++ c.write_json v
  encode_content (type t) = c.write_type_ref t
  encode_content (any v) = write_var_u32 (length v % 2 ^ 32) ++ write_values v
  encode_content (doc o) = c.write_options o

  -- The loops of `decode`, on the number of rounds that are left.
  unfoldable pub read_strings : ℕ → List (List ℕ) → List ℕ → Result (List (List ℕ) × List ℕ)
  read_strings zero buf bytes = ok (buf, bytes)
  read_strings (suc n) buf bytes =
      read_string c.is_utf8 bytes >>= (λ (s, rest). read_strings n (buf ++ s ∷ []) rest)

  unfoldable pub read_values : ℕ → List A → List ℕ → Result (List A × List ℕ)
  read_values zero values bytes = ok (values, bytes)
  read_values (suc n) values bytes =
      c.read_any bytes >>= (λ (v, rest). read_values n (values ++ v ∷ []) rest)

  -- A document is loaded when it loads itself.
  abbrev pub loaded : Options R → Options R
  loaded o = record o { should_load = o.should_load || o.auto_load }

  -- `while remaining >= 0` takes a round more than the number that was read, which is an `i32`; a
  -- negative one is no capacity.
  unfoldable pub decode_json : List ℕ → Result (ItemContent A T R × List ℕ)
  decode_json bytes = read_var_u32 bytes >>= (λ (remaining, rest).
      if ltb remaining (2 ^ 31)
      then read_strings (suc remaining) [] rest >>= (λ (buf, left). ok (json buf, left))
      else err not_enough_memory)

  unfoldable pub decode_content : List ℕ → ℕ → Result (ItemContent A T R × List ℕ)
  decode_content bytes ref_num =
      let number = bit_and ref_num 15 in
      if number == 1
      then read_var_u32 bytes >>= (λ (n, rest). ok (deleted n, rest))
      else if number == 2
      then decode_json bytes
      else if number == 3
      then read_buf bytes >>= (λ (b, rest). ok (binary b, rest))
      else if number == 4
      then read_string c.is_utf8 bytes >>= (λ (s, rest). ok (string s, rest))
      else if number == 5
      then c.read_json bytes >>= (λ (v, rest). ok (embed v, rest))
      else if number == 6
      then read_string c.is_utf8 bytes
        >>= (λ (k, more). c.read_json more >>= (λ (v, rest). ok (format k v, rest)))
      else if number == 7
      then c.read_type_ref bytes >>= (λ (t, rest). ok (type t, rest))
      else if number == 8
      then read_var_u32 bytes
        >>= (λ (n, more). read_values n [] more >>= (λ (values, rest). ok (any values, rest)))
      else if number == 9
      then c.read_options bytes >>= (λ (o, rest). ok (doc (loaded o), rest))
      else err unexpected_value
