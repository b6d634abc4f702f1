-- ===== src/Protocol.antt =====
-- yrs/src/sync/protocol.rs: the messages that replicas exchange, how a stream of bytes is read as
-- messages, and how a replica answers each of them. The document is an interface: what the
-- handlers call of a transaction and of `Update::decode_v1`. The time of each message is an argument.

pub mod RoundTrip
pub mod Handle
pub mod Stream
pub mod Handshake
pub mod Consume
pub mod Progress
use y_crdt.Common.{
  ℕ, zero, suc, ◌+◌, ◌==◌, if◌then◌else◌, Bool, true, false, Option, none, some, List, [], ◌∷◌,
  ◌++◌,
}
use y_crdt.Encoding.{
  Result, ok, err, panic, Error, end_of_buffer, unexpected_value, invalid_var_int, malformed_utf8,
  empty_block, not_enough_memory, ◌>>=◌,
}
use y_crdt.Encoding.Buffers.{write_buf, read_buf}
use y_crdt.Encoding.VarInt.{write_var_u32, read_u8_var}
use y_crdt.StateVector.{StateVector}
use y_crdt.StateVector.Codec.{encode, decode}
use y_crdt.Awareness.{Awareness, AwarenessUpdate}
use y_crdt.Awareness.Codec.{encode_update, decode_update, read_string}
use y_crdt.Awareness.Apply.{apply_update}

abbrev pub msg_sync : ℕ
msg_sync = 0

abbrev pub msg_awareness : ℕ
msg_awareness = 1

abbrev pub msg_auth : ℕ
msg_auth = 2

abbrev pub msg_query_awareness : ℕ
msg_query_awareness = 3

abbrev pub permission_denied_tag : ℕ
permission_denied_tag = 0

abbrev pub permission_granted_tag : ℕ
permission_granted_tag = 1

abbrev pub msg_sync_step_1 : ℕ
msg_sync_step_1 = 0

abbrev pub msg_sync_step_2 : ℕ
msg_sync_step_2 = 1

abbrev pub msg_sync_update : ℕ
msg_sync_update = 2

-- Updates are kept as the bytes that encode them.
pub data SyncMessage : Type 0 where
  sync_step_1 : StateVector → SyncMessage
  sync_step_2 : List ℕ → SyncMessage
  sync_update : List ℕ → SyncMessage

pub data Message : Type 0 where
  sync : SyncMessage → Message
  auth : Option (List ℕ) → Message
  awareness_query : Message
  awareness : AwarenessUpdate → Message
  custom : ℕ → List ℕ → Message

unfoldable pub encode_sync : SyncMessage → List ℕ
encode_sync (sync_step_1 sv) = write_var_u32 msg_sync_step_1 ++ write_buf (encode sv)
encode_sync (sync_step_2 u) = write_var_u32 msg_sync_step_2 ++ write_buf u
encode_sync (sync_update u) = write_var_u32 msg_sync_update ++ write_buf u

-- The tag of a custom message is written as one byte.
unfoldable pub encode_message : Message → List ℕ
encode_message (sync msg) = write_var_u32 msg_sync ++ encode_sync msg
encode_message (auth none) = write_var_u32 msg_auth ++ write_var_u32 permission_granted_tag
encode_message (auth (some reason)) =
    write_var_u32 msg_auth ++ (write_var_u32 permission_denied_tag ++ write_buf reason)
encode_message awareness_query = write_var_u32 msg_query_awareness
encode_message (awareness update) = write_var_u32 msg_awareness ++ write_buf (encode_update update)
encode_message (custom tag bytes) = tag ∷ write_buf bytes

unfoldable pub decode_sync : List ℕ → Result (SyncMessage × List ℕ)
decode_sync bytes = read_u8_var bytes >>= (λ (tag, rest).
    if tag == msg_sync_step_1
    then read_buf rest >>= (λ (buf, left). decode buf >>= (λ sv. ok (sync_step_1 sv.0, left)))
    else if tag == msg_sync_step_2
    then read_buf rest >>= (λ (buf, left). ok (sync_step_2 buf, left))
    else if tag == msg_sync_update
    then read_buf rest >>= (λ (buf, left). ok (sync_update buf, left))
    else err unexpected_value)

module _ (is_utf8 : List ℕ → Bool) where
  unfoldable pub decode_message : List ℕ → Result (Message × List ℕ)
  decode_message bytes = read_u8_var bytes >>= (λ (tag, rest).
      if tag == msg_sync
      then decode_sync rest >>= (λ (msg, left). ok (sync msg, left))
      else if tag == msg_awareness
      then read_buf rest
        >>= (λ (buf, left). decode_update is_utf8 buf >>= (λ u. ok (awareness u.0, left)))
      else if tag == msg_auth
      then read_u8_var rest >>= (λ (permission, more).
        if permission == permission_denied_tag
        then read_string is_utf8 more >>= (λ (reason, left). ok (auth (some reason), left))
        else ok (auth none, more))
      else if tag == msg_query_awareness
      then ok (awareness_query, rest)
      else read_buf rest >>= (λ (buf, left). ok (custom tag buf, left)))

  -- `MessageReader::next`: the end of the bytes ends the messages, also inside a message.
  unfoldable pub next_message : List ℕ → Option (Result (Message × List ℕ))
  next_message bytes = elim (decode_message bytes) [
    | ok m ↦ some (ok m)
    | err e ↦ elim e [
      | end_of_buffer n ↦ none
      | invalid_var_int ↦ some (err invalid_var_int)
      | unexpected_value ↦ some (err unexpected_value)
      | malformed_utf8 ↦ some (err malformed_utf8)
      | empty_block ↦ some (err empty_block)
      | not_enough_memory ↦ some (err not_enough_memory)
    ]
    | panic ↦ some panic
  ]
