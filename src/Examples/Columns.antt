-- ===== src/Examples/Columns.antt =====
-- Columns of numbers, bytes and strings at concrete inputs.
use y_crdt.Common.{ℕ, ◌≡◌, refl, some, List, [], ◌∷◌, ◌++◌, length, arith}
use y_crdt.Encoding.{ok, ◌>>=◌, read_exact}
use y_crdt.Encoding.VarInt.{write_var_u64}
use y_crdt.Encoding.Buffers.{read_buf}
use y_crdt.Columns.Runs.{Reader}
use y_crdt.Columns.UIntOpt.{encode_u64s, read_u64s, new_u64_decoder, read_u64s-encode_u64s}
use y_crdt.Columns.IntDiff.{DiffDecoder, encode_u32s, read_u32s, new_diff_encoder, new_diff_decoder}
use y_crdt.Columns.IntDiff.Correct.{read_u32s-encode_u32s}
use y_crdt.Columns.Rle.{
  RleDecoder, encode_bytes, read_bytes, new_rle_encoder, new_rle_decoder, read_bytes-encode_bytes,
}
use y_crdt.Columns.Frame.{
  Columns, opened, to_vec, open_frame, open_frame-to_vec, write_buf_v2, read_buf-write_buf_v2,
}
use y_crdt.Columns.Strings.{
  StringDecoder, write_strs, new_string_encoder, string_to_vec, open_strings, read_strs,
  read_strs-write_strs,
}

abbrev three_numbers : List ℕ
three_numbers = 5 ∷ 5 ∷ 300 ∷ []

read_u64s-encode_u64s_example :
    (bytes : List ℕ) × (encode_u64s three_numbers ≡ ok bytes)
    × ((d : Reader ℕ) × (read_u64s (length three_numbers) (new_u64_decoder bytes)
          ≡ ok (three_numbers, d))
        × (d.bytes ≡ []))
read_u64s-encode_u64s_example =
    read_u64s-encode_u64s three_numbers (omega arith, (omega arith, (omega arith, tt)))
      (omega arith)

read_u32s-encode_u32s_example :
    (bytes : List ℕ) × (encode_u32s new_diff_encoder three_numbers ≡ ok bytes)
    × ((d : DiffDecoder) × (read_u32s (length three_numbers) (new_diff_decoder bytes)
          ≡ ok (three_numbers, d))
        × (d.runs.bytes ≡ []))
read_u32s-encode_u32s_example =
    read_u32s-encode_u32s three_numbers (omega arith, (omega arith, (omega arith, tt)))
      (omega arith)

abbrev some_bytes : List ℕ
some_bytes = 7 ∷ 7 ∷ 7 ∷ 9 ∷ []

read_bytes-encode_bytes_example :
    (bytes : List ℕ) × (encode_bytes new_rle_encoder some_bytes ≡ ok bytes)
    × ((d : RleDecoder) × (read_bytes (length some_bytes) (new_rle_decoder bytes)
          ≡ ok (some_bytes, d)))
read_bytes-encode_bytes_example = read_bytes-encode_bytes some_bytes (omega arith)

abbrev some_columns : Columns
some_columns = record {
  key_clock = [];
  client = 3 ∷ [];
  left_clock = 1 ∷ 2 ∷ [];
  right_clock = [];
  info = 8 ∷ [];
  string = 2 ∷ 104 ∷ 105 ∷ 2 ∷ [];
  parent_info = 1 ∷ [];
  type_ref = [];
  len = 4 ∷ [];
  rest = 1 ∷ 6 ∷ [];
}

read_buf-write_buf_v2_example :
    read_buf (write_buf_v2 some_bytes ++ (2 ∷ []))
    ≡ read_exact (length some_bytes) (write_var_u64 (length some_bytes) ++ (some_bytes ++ (2 ∷ [])))
read_buf-write_buf_v2_example = read_buf-write_buf_v2 some_bytes (2 ∷ []) (omega arith)

-- Strings of ASCII characters, which stand for themselves.
abbrev two_strings : List (List ℕ)
two_strings = (104 ∷ 105 ∷ []) ∷ (33 ∷ []) ∷ []

abbrev same_bytes : List ℕ → List ℕ
same_bytes s = s

read_strs-write_strs_example :
    (bytes : List ℕ) × ((write_strs new_string_encoder two_strings
        >>= string_to_vec same_bytes some)
      ≡ ok bytes)
    × ((d : StringDecoder) × ((open_strings same_bytes some bytes
            >>= read_strs (length two_strings))
          ≡ ok (two_strings, d)))
read_strs-write_strs_example =
    read_strs-write_strs same_bytes some (λ s. refl) two_strings (omega arith, (omega arith, tt))
      (omega arith) (omega arith)

open_frame-to_vec_example : open_frame same_bytes some (to_vec some_columns) ≡ (
    open_strings same_bytes some some_columns.string
    >>= (λ strings. ok (opened some_columns strings)))
open_frame-to_vec_example = open_frame-to_vec same_bytes some some_columns (
  omega arith,
  omega arith,
  omega arith,
  omega arith,
  omega arith,
  omega arith,
  omega arith,
  omega arith,
  omega arith,
)
