-- ===== src/Examples/Messages.antt =====
-- Messages at concrete inputs.
use y_crdt.Awareness.Codec.{encode_update, encode_all_entries}
use y_crdt.Common.{ℕ, ◌≡◌, ◌≢◌, refl, Bool, true, false, List, [], ◌∷◌, ◌++◌, length, arith}
use y_crdt.Encoding.{ok}
use y_crdt.BTree.{get}
use y_crdt.Awareness.{update, update_with_clients, collect_entries}
use y_crdt.StateVector.Codec.{encode, encode_entries}
use y_crdt.Encoding.VarInt.{write_var_u32, write_var_u64, write_loop}
use y_crdt.Protocol.{sync, custom, sync_step_1, sync_step_2, encode_message, decode_message}
use y_crdt.Protocol.RoundTrip.{decode_message-encode_message}
use y_crdt.Protocol.Handle.{Store, Replica, done, unfinished, handle, start}
use y_crdt.Protocol.Stream.{encode_messages, answer_all, handle-encode_messages}
use y_crdt.Protocol.Progress.{handle-ends}
use y_crdt.Protocol.Handshake.{handshake}

abbrev all_texts : List ℕ → Bool
all_texts text = true

-- A document that is the bytes it was given.
abbrev bytes_store : Store (List ℕ) (List ℕ)
bytes_store = record {
  state_vector = λ d. (4, length d) ∷ [];
  encode_state_as_update_v1 = λ d sv. d;
  decode_v1 = λ bytes. ok bytes;
  apply = λ d u. (d ++ u, true);
}

abbrev no_time : ℕ → ℕ
no_time left = 0

abbrev replica : List ℕ → Replica (List ℕ)
replica d = record {
  doc = d;
  states = record { client_id = 4; states = []; on_update = false; on_change = false };
}

decode_message-encode_message_example :
    decode_message all_texts (encode_message (sync (sync_step_1 ((4, 300) ∷ []))) ++ 9 ∷ [])
    ≡ ok (sync (sync_step_1 ((4, 300) ∷ [])), 9 ∷ [])
decode_message-encode_message_example =
    decode_message-encode_message all_texts (sync (sync_step_1 ((4, 300) ∷ []))) (9 ∷ []) (
      (unfold get in refl, tt),
      (omega arith, omega arith, tt),
      omega arith,
      unfold encode encode_entries write_var_u64 write_var_u32 write_loop in omega arith,
    )

handle-encode_messages_example :
    handle bytes_store all_texts no_time
      (replica [])
      (encode_messages (sync (sync_step_2 (5 ∷ [])) ∷ custom 9 [] ∷ []))
    ≡ answer_all bytes_store all_texts no_time
        (replica [])
        []
        (sync (sync_step_2 (5 ∷ [])) ∷ custom 9 [] ∷ [])
handle-encode_messages_example =
    handle-encode_messages bytes_store all_texts no_time (replica [])
      (sync (sync_step_2 (5 ∷ [])) ∷ custom 9 [] ∷ [])
      (omega arith, ((omega arith, omega arith, omega arith), tt))

handle-ends_example :
    (handle bytes_store all_texts no_time (replica []) (0 ∷ 1 ∷ 1 ∷ 7 ∷ 4 ∷ [])).1 ≢ unfinished
handle-ends_example =
    handle-ends bytes_store all_texts no_time (replica []) (0 ∷ 1 ∷ 1 ∷ 7 ∷ 4 ∷ [])

handshake_example :
    (hello : List ℕ) × (start bytes_store (replica (1 ∷ [])) ≡ done hello)
    × ((handle bytes_store all_texts no_time (replica (2 ∷ [])) hello).1
        ≡ done (sync (sync_step_2 (2 ∷ [])) ∷ []))
    × (handle bytes_store all_texts no_time
          (replica (1 ∷ []))
          (encode_messages (sync (sync_step_2 (2 ∷ [])) ∷ []))
        ≡ (replica (1 ∷ 2 ∷ []), done []))
handshake_example =
    handshake bytes_store all_texts no_time (replica (1 ∷ [])) (replica (2 ∷ [])) [] (2 ∷ [])
      (1 ∷ 2 ∷ []) (unfold update update_with_clients collect_entries in refl)
      (
        (unfold get in refl, tt),
        (omega arith, omega arith, tt),
        omega arith,
        unfold encode encode_entries write_var_u64 write_var_u32 write_loop in omega arith,
      )
      (
        tt,
        tt,
        omega arith,
        unfold encode_update encode_all_entries write_var_u64 write_loop in omega arith,
      )
      (omega arith) refl refl
