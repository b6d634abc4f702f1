-- ===== src/Protocol/Handle.antt =====
-- yrs/src/sync/protocol.rs: the default methods of `Protocol`, which answer the messages of a peer.
-- A replica has its document and its awareness states; a document is used by the operations of `Store`.
use y_crdt.Common.{
  ℕ, zero, suc, Bool, Option, none, some, List, [], ◌∷◌, ◌++◌, length, if◌then◌else◌,
}
use y_crdt.Encoding.{Result, ok, err, panic, Error}
use y_crdt.StateVector.{StateVector}
use y_crdt.Awareness.{update, Awareness, AwarenessUpdate}
use y_crdt.Awareness.Apply.{apply_update}
use y_crdt.Protocol.{
  sync_step_1, sync_step_2, sync_update, Message, sync, auth, awareness_query, awareness, custom,
  encode_message, next_message,
}

-- What the handlers call of a document: reads of a transaction, `Update::decode_v1`, and
-- `TransactionMut::apply_update`, which may change the document and then fail.
pub record Store (D U : Type 0) : Type 0 where
  pub state_vector : D → StateVector
  pub encode_state_as_update_v1 : D → StateVector → List ℕ
  pub decode_v1 : List ℕ → Result U
  pub apply : D → U → D × Bool

-- The errors of `sync::Error` that the default methods give.
pub data ProtocolError : Type 0 where
  decoding_error : Error → ProtocolError
  client_not_found : ProtocolError
  permission_denied : List ℕ → ProtocolError
  unsupported : ℕ → ProtocolError
  update_error : ProtocolError

-- What a handler returns; `trapped` is a panic, and `unfinished` a loop without fuel.
pub data Answer (A : Type 0) : Type 0 where
  done : A → Answer A
  failed : ProtocolError → Answer A
  trapped : Answer A
  unfinished : Answer A

pub record Replica (D : Type 0) : Type 0 where
  pub doc : D
  pub states : Awareness

-- `?` on the answer to a message: a failure ends the loop, and the replica stays as it was left.
abbrev pub proceed :
    {D A B : Type 0}
    → Replica D × Answer A
    → (Replica D → A → Replica D × Answer B)
    → Replica D × Answer B
proceed (r, done x) f = f r x
proceed (r, failed e) f = (r, failed e)
proceed (r, trapped) f = (r, trapped)
proceed (r, unfinished) f = (r, unfinished)

abbrev pub push_response : List Message → Option Message → List Message
push_response responses none = responses
push_response responses (some response) = responses ++ response ∷ []

module _ {D U : Type 0} (store : Store D U) where
  unfoldable pub handle_sync_step1 : Replica D → StateVector → Replica D × Answer (Option Message)
  handle_sync_step1 r sv =
      (r, done (some (sync (sync_step_2 (store.encode_state_as_update_v1 r.doc sv)))))

  unfoldable pub handle_sync_step2 : Replica D → U → Replica D × Answer (Option Message)
  handle_sync_step2 r u =
      let (doc, applied) = store.apply r.doc u in
      (record r { doc = doc }, if applied then done none else failed update_error)

  unfoldable pub handle_update : Replica D → U → Replica D × Answer (Option Message)
  handle_update r u = handle_sync_step2 r u

  unfoldable pub handle_auth : Replica D → Option (List ℕ) → Replica D × Answer (Option Message)
  handle_auth r none = (r, done none)
  handle_auth r (some reason) = (r, failed (permission_denied reason))

  unfoldable pub handle_awareness_query : Replica D → Replica D × Answer (Option Message)
  handle_awareness_query r = elim (update r.states) [
    | none ↦ (r, failed client_not_found)
    | some u ↦ (r, done (some (awareness u)))
  ]

  unfoldable pub handle_awareness_update :
      Replica D → ℕ → AwarenessUpdate → Replica D × Answer (Option Message)
  handle_awareness_update r now u =
      (record r { states = (apply_update r.states now u).after }, done none)

  unfoldable pub missing_handle : Replica D → ℕ → List ℕ → Replica D × Answer (Option Message)
  missing_handle r tag bytes = (r, failed (unsupported tag))

  -- The update of a message is decoded first.
  abbrev pub decoded :
      Replica D
      → (U → Replica D × Answer (Option Message))
      → Result U
      → Replica D × Answer (Option Message)
  decoded r f (ok u) = f u
  decoded r f (err e) = (r, failed (decoding_error e))
  decoded r f panic = (r, trapped)

  unfoldable pub handle_message : Replica D → ℕ → Message → Replica D × Answer (Option Message)
  handle_message r now (sync (sync_step_1 sv)) = handle_sync_step1 r sv
  handle_message r now (sync (sync_step_2 bytes)) =
      decoded r (handle_sync_step2 r) (store.decode_v1 bytes)
  handle_message r now (sync (sync_update bytes)) =
      decoded r (handle_update r) (store.decode_v1 bytes)
  handle_message r now (auth deny_reason) = handle_auth r deny_reason
  handle_message r now awareness_query = handle_awareness_query r
  handle_message r now (awareness u) = handle_awareness_update r now u
  handle_message r now (custom tag bytes) = missing_handle r tag bytes

  -- `start`, which writes its messages one after the other.
  unfoldable pub start : Replica D → Answer (List ℕ)
  start r = elim (update r.states) [
    | none ↦ failed client_not_found
    | some u ↦ done (
        encode_message (sync (sync_step_1 (store.state_vector r.doc)))
        ++ encode_message (awareness u))
  ]

  module _ (is_utf8 : List ℕ → Bool) where
    -- The loop of `handle`; `clock` gives the time of each round, by the number of bytes left.
    unfoldable pub handle_loop :
        ℕ → (ℕ → ℕ) → Replica D → List Message → List ℕ → Replica D × Answer (List Message)
    handle_loop zero clock r responses bytes = (r, unfinished)
    handle_loop (suc fuel) clock r responses bytes = elim (next_message is_utf8 bytes) [
      | none ↦ (r, done responses)
      | some read ↦ elim read [
        | err e ↦ (r, failed (decoding_error e))
        | panic ↦ (r, trapped)
        | ok read_message ↦
            let (message, rest) = read_message in
            let handled = handle_message r (clock (length bytes)) message in
            proceed handled
              (λ r' response. handle_loop fuel clock r' (push_response responses response) rest)
      ]
    ]

    -- Every message has a byte.
    unfoldable pub handle : (ℕ → ℕ) → Replica D → List ℕ → Replica D × Answer (List Message)
    handle clock r bytes = handle_loop (suc (length bytes)) clock r [] bytes
