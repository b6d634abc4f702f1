-- ===== src/Columns/Frame.antt =====
-- `EncoderV2::to_vec` and `DecoderV2::new`: the feature flag, the nine columns, each with its length,
-- and the rest; and `write_buf` and `read_buf` of the second version.
use y_crdt.Common.{Option, ℕ, ◌^◌, ◌<◌, ◌≡◌, refl, List, [], ◌∷◌, ◌++◌, append_assoc, length}
use y_crdt.Encoding.{Result, ok, read_exact, ◌>>=◌}
use y_crdt.Encoding.Buffers.{write_buf, read_buf, read_var_u32-write_var_u64}
use y_crdt.Columns.Usize.{read_column, read_column-write_buf}
use y_crdt.Columns.Strings.{StringDecoder, open_strings}
use y_crdt.Encoding.VarInt.{write_var_u64}

-- The columns of `EncoderV2` when they are flushed, and what was written outside of them.
pub record Columns : Type 0 where
  pub key_clock : List ℕ
  pub client : List ℕ
  pub left_clock : List ℕ
  pub right_clock : List ℕ
  pub info : List ℕ
  pub string : List ℕ
  pub parent_info : List ℕ
  pub type_ref : List ℕ
  pub len : List ℕ
  pub rest : List ℕ

unfoldable pub to_vec : Columns → List ℕ
to_vec c =
    0
    ∷ (write_buf c.key_clock
        ++ (write_buf c.client
            ++ (write_buf c.left_clock
                ++ (write_buf c.right_clock
                    ++ (write_buf c.info
                        ++ (write_buf c.string
                            ++ (write_buf c.parent_info
                                ++ (write_buf c.type_ref ++ (write_buf c.len ++ c.rest)))))))))

-- The feature flag, if there is content.
abbrev pub read_flag : List ℕ → List ℕ
read_flag [] = []
read_flag (flag ∷ bytes) = bytes

-- What `DecoderV2::new` makes of the bytes: the strings are decoded at once, the other columns as their
-- values are read.
pub record Opened : Type 0 where
  pub key_clock : List ℕ
  pub client : List ℕ
  pub left_clock : List ℕ
  pub right_clock : List ℕ
  pub info : List ℕ
  pub strings : StringDecoder
  pub parent_info : List ℕ
  pub type_ref : List ℕ
  pub len : List ℕ
  pub rest : List ℕ

module _ (utf8 : List ℕ → List ℕ) (from_utf8 : List ℕ → Option (List ℕ)) where
  unfoldable pub open_frame : List ℕ → Result Opened
  open_frame bytes = do
    (key_clock, b1) ← read_column (read_flag bytes)
    (client, b2) ← read_column b1
    (left_clock, b3) ← read_column b2
    (right_clock, b4) ← read_column b3
    (info, b5) ← read_column b4
    (string, b6) ← read_column b5
    (parent_info, b7) ← read_column b6
    (type_ref, b8) ← read_column b7
    (len, b9) ← read_column b8
    strings ← open_strings utf8 from_utf8 string
    ok (record {
      key_clock = key_clock;
      client = client;
      left_clock = left_clock;
      right_clock = right_clock;
      info = info;
      strings = strings;
      parent_info = parent_info;
      type_ref = type_ref;
      len = len;
      rest = b9;
    })

-- `Write::write_buf` on an `EncoderV2`: the length through `write_u8`, then `write_all`, which writes
-- a length of its own.
unfoldable pub write_buf_v2 : List ℕ → List ℕ
write_buf_v2 buf = write_var_u64 (length buf) ++ write_buf buf

-- Every column has a length of 64 bits.
abbrev pub ColumnsFit : Columns → Type 0
ColumnsFit c =
    (length c.key_clock < 2 ^ 64)
    × (length c.client < 2 ^ 64)
    × (length c.left_clock < 2 ^ 64)
    × (length c.right_clock < 2 ^ 64)
    × (length c.info < 2 ^ 64)
    × (length c.string < 2 ^ 64)
    × (length c.parent_info < 2 ^ 64)
    × (length c.type_ref < 2 ^ 64)
    × (length c.len < 2 ^ 64)

-- The columns as they were written, with what the column of strings opens to.
abbrev pub opened : Columns → StringDecoder → Opened
opened c strings = record {
  key_clock = c.key_clock;
  client = c.client;
  left_clock = c.left_clock;
  right_clock = c.right_clock;
  info = c.info;
  strings = strings;
  parent_info = c.parent_info;
  type_ref = c.type_ref;
  len = c.len;
  rest = c.rest;
}

module _ (utf8 : List ℕ → List ℕ) (from_utf8 : List ℕ → Option (List ℕ)) where
  -- Opening the columns of an update that to_vec wrote, each shorter than 2 ^ 64 bytes, gives the
  -- columns and what follows them as they were, with the column of strings opened by
  -- StringDecoder, and fails if and as that does.
  pub open_frame-to_vec :
      (c : Columns)
      → ColumnsFit c
      → open_frame utf8 from_utf8 (to_vec c)
        ≡ (open_strings utf8 from_utf8 c.string >>= (λ strings. ok (opened c strings)))
  unfolding open_frame to_vec
  open_frame-to_vec c h =
      rw
        (
          read_column-write_buf c.key_clock _ h.0,
          read_column-write_buf c.client _ h.1,
          read_column-write_buf c.left_clock _ h.2,
          read_column-write_buf c.right_clock _ h.3,
          read_column-write_buf c.info _ h.4,
          read_column-write_buf c.string _ h.5,
          read_column-write_buf c.parent_info _ h.6,
          read_column-write_buf c.type_ref _ h.7,
          read_column-write_buf c.len _ h.8,
        )
        refl

-- A buffer of fewer than 2 ^ 32 bytes that the encoder of the second version wrote has its length
-- twice, so that reading it gives as many bytes as it has, from its length on.
pub read_buf-write_buf_v2 :
    (buf rest : List ℕ)
    → length buf < 2 ^ 32
    → read_buf (write_buf_v2 buf ++ rest)
      ≡ read_exact (length buf) (write_var_u64 (length buf) ++ (buf ++ rest))
unfolding read_buf write_buf_v2 write_buf
read_buf-write_buf_v2 buf rest h =
    rw
      (
        append_assoc (write_var_u64 (length buf)) (write_var_u64 (length buf) ++ buf) rest,
        append_assoc (write_var_u64 (length buf)) buf rest,
        read_var_u32-write_var_u64 (length buf) (write_var_u64 (length buf) ++ (buf ++ rest)) h,
      )
      refl
