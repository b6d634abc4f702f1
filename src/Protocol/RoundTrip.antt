-- ===== src/Protocol/RoundTrip.antt =====
-- yrs/src/sync/protocol.rs: messages come back from the bytes that encode them.
use y_crdt.Common.{
  ℕ, ◌<◌, ◌≡◌, refl, sym, ap, ◌∙◌, Bool, true, false, none, some, List, [], ◌∷◌, ◌++◌, length, ltb,
  ◌==◌, arith, tests, ==_iff, Bool-cases, inl, inr, ◌^◌, append-nil,
}
use y_crdt.Encoding.{ok}
use y_crdt.Encoding.Buffers.{write_buf, read_buf-write_buf}
use y_crdt.Encoding.VarInt.{write_var_u32, read_u8_var, read_var_u32}
use y_crdt.Encoding.VarInt.RoundTrip.{read_var_u32-write_var_u32, write_last}
use y_crdt.StateVector.Codec.{AllFit as ClocksFit, encode, decode, decode-encode_exact}
use y_crdt.HashMap.{IsUnique}
use y_crdt.Awareness.Codec.{
  AllFit as StatesFit, encode_update, decode_update, read_string-write_buf,
  decode_update-encode_update_exact,
}
use y_crdt.Protocol.{
  SyncMessage, sync_step_1, sync_step_2, sync_update, Message, sync, auth, awareness_query,
  awareness, custom, encode_sync, encode_message, decode_sync, decode_message,
}

-- A small number is its byte, and the byte is read back.
pub write_var_u32-small : (x : ℕ) → x < 128 → write_var_u32 x ≡ x ∷ []
unfolding write_var_u32
write_var_u32-small x h = write_last 4 x h

pub read_u8_var-small : (x : ℕ) (rest : List ℕ) → x < 128 → read_u8_var (x ∷ rest) ≡ ok (x, rest)
unfolding read_u8_var
read_u8_var-small x rest h =
    let whole : read_var_u32 (x ∷ rest) ≡ ok (x, rest) =
      sym (ap (λ w. read_var_u32 (w ++ rest)) (write_var_u32-small x h))
      ∙ read_var_u32-write_var_u32 x rest (omega arith) in
    let fits : ltb x (2 ^ 8) ≡ true = omega (tests) in rw (whole, fits) refl

larger_key : {x y : ℕ} → y < x → (x == y) ≡ false
larger_key {x} {y} h = elim (Bool-cases (x == y)) [
  | inl q ↦ let same = (==_iff x y).0 q in absurd (omega arith)
  | inr q ↦ q
]

-- Buffers have lengths of 32 bits, and maps list every client once.
abbrev pub SyncFits : SyncMessage → Type 0
SyncFits (sync_step_1 sv) =
    IsUnique sv × ClocksFit sv × (length sv < 2 ^ 32) × (length (encode sv) < 2 ^ 32)
SyncFits (sync_step_2 u) = length u < 2 ^ 32
SyncFits (sync_update u) = length u < 2 ^ 32

decode_sync-encode_sync :
    (m : SyncMessage) (rest : List ℕ)
    → SyncFits m
    → decode_sync (encode_sync m ++ rest) ≡ ok (m, rest)
unfolding decode_sync encode_sync
decode_sync-encode_sync (sync_step_1 sv) rest (u, f, h, l) =
    let whole : decode (encode sv) ≡ ok (sv, []) =
      ap decode (sym (append-nil (encode sv))) ∙ decode-encode_exact sv [] u f h in
    rw
      (
        write_var_u32-small 0 (omega arith),
        read_u8_var-small 0 (write_buf (encode sv) ++ rest) (omega arith),
        read_buf-write_buf (encode sv) rest l,
        whole,
      )
      refl
decode_sync-encode_sync (sync_step_2 u) rest l =
    rw
      (
        write_var_u32-small 1 (omega arith),
        read_u8_var-small 1 (write_buf u ++ rest) (omega arith),
        read_buf-write_buf u rest l,
      )
      refl
decode_sync-encode_sync (sync_update u) rest l =
    rw
      (
        write_var_u32-small 2 (omega arith),
        read_u8_var-small 2 (write_buf u ++ rest) (omega arith),
        read_buf-write_buf u rest l,
      )
      refl

module _ (is_utf8 : List ℕ → Bool) where
  -- A custom tag is not one of the other tags, and fits into seven bits.
  abbrev pub Fits : Message → Type 0
  Fits (sync m) = SyncFits m
  Fits (auth none) = Unit
  Fits (auth (some reason)) = (length reason < 2 ^ 32) × (is_utf8 reason ≡ true)
  Fits awareness_query = Unit
  Fits (awareness u) =
      IsUnique u × StatesFit is_utf8 u × (length u < 2 ^ 64) × (length (encode_update u) < 2 ^ 32)
  Fits (custom tag bytes) = (3 < tag) × (tag < 128) × (length bytes < 2 ^ 32)

  -- A message whose maps list every client once, whose clients have 53 bits, whose other numbers
  -- and lengths fit, and which has a tag between 4 and 127 if it is a custom one, is decoded from
  -- what encode wrote, and the bytes behind it are left.
  pub decode_message-encode_message :
      (m : Message) (rest : List ℕ)
      → Fits m
      → decode_message is_utf8 (encode_message m ++ rest) ≡ ok (m, rest)
  unfolding decode_message encode_message
  decode_message-encode_message (sync m) rest f =
      rw
        (
          write_var_u32-small 0 (omega arith),
          read_u8_var-small 0 (encode_sync m ++ rest) (omega arith),
          decode_sync-encode_sync m rest f,
        )
        refl
  decode_message-encode_message (auth none) rest f =
      rw
        (
          write_var_u32-small 2 (omega arith),
          write_var_u32-small 1 (omega arith),
          read_u8_var-small 2 (1 ∷ rest) (omega arith),
          read_u8_var-small 1 rest (omega arith),
        )
        refl
  decode_message-encode_message (auth (some reason)) rest (l, valid) =
      rw
        (
          write_var_u32-small 2 (omega arith),
          write_var_u32-small 0 (omega arith),
          read_u8_var-small 2 (0 ∷ write_buf reason ++ rest) (omega arith),
          read_u8_var-small 0 (write_buf reason ++ rest) (omega arith),
          read_string-write_buf is_utf8 reason rest l valid,
        )
        refl
  decode_message-encode_message awareness_query rest f =
      rw (write_var_u32-small 3 (omega arith), read_u8_var-small 3 rest (omega arith)) refl
  decode_message-encode_message (awareness u) rest (unique, f, h, l) =
      let whole : decode_update is_utf8 (encode_update u) ≡ ok (u, []) =
        ap (decode_update is_utf8) (sym (append-nil (encode_update u)))
        ∙ decode_update-encode_update_exact is_utf8 u [] unique f h in
      rw
        (
          write_var_u32-small 1 (omega arith),
          read_u8_var-small 1 (write_buf (encode_update u) ++ rest) (omega arith),
          read_buf-write_buf (encode_update u) rest l,
          whole,
        )
        refl
  decode_message-encode_message (custom tag bytes) rest (low, high, l) =
      let not_sync : (tag == 0) ≡ false = larger_key (omega arith) in
      let not_awareness : (tag == 1) ≡ false = larger_key (omega arith) in
      let not_auth : (tag == 2) ≡ false = larger_key (omega arith) in
      let not_query : (tag == 3) ≡ false = larger_key (omega arith) in
      rw
        (
          read_u8_var-small tag (write_buf bytes ++ rest) high,
          not_sync,
          not_awareness,
          not_auth,
          not_query,
          read_buf-write_buf bytes rest l,
        )
        refl
