-- ===== src/Protocol/Stream.antt =====
-- yrs/src/sync/protocol.rs: what `handle` makes of the bytes of several messages.
use y_crdt.Common.{
  ℕ, zero, suc, ◌≤◌, ◌<◌, ◌≡◌, refl, Bool, none, some, List, [], ◌∷◌, ◌++◌, length, arith,
  length-append,
}
use y_crdt.Encoding.{ok}
use y_crdt.Encoding.VarInt.{read_u8_var, read_var_u32, read_loop}
use y_crdt.Protocol.{
  Message, sync, auth, awareness_query, awareness, custom, encode_message, decode_message,
  next_message,
}
use y_crdt.Protocol.RoundTrip.{write_var_u32-small, Fits, decode_message-encode_message}
use y_crdt.Protocol.Handle.{
  Store, Replica, Answer, done, failed, trapped, unfinished, handle_message, handle_loop, handle,
  push_response, proceed,
}

abbrev pub encode_messages : List Message → List ℕ
encode_messages [] = []
encode_messages (m ∷ ms) = encode_message m ++ encode_messages ms

proceed_cong :
    {D A B : Type 0} {f g : Replica D → A → Replica D × Answer B} (a : Replica D × Answer A)
    → ((r : Replica D) (x : A) → f r x ≡ g r x)
    → proceed a f ≡ proceed a g
proceed_cong (r, done x) h = h r x
proceed_cong (r, failed e) h = refl
proceed_cong (r, trapped) h = refl
proceed_cong (r, unfinished) h = refl

next_message-nil : (is_utf8 : List ℕ → Bool) → next_message is_utf8 [] ≡ none
unfolding next_message decode_message read_u8_var read_var_u32 read_loop
next_message-nil is_utf8 = refl

encode_message-pos : (m : Message) → 0 < length (encode_message m)
unfolding encode_message
encode_message-pos (sync m) = rw (write_var_u32-small 0 (omega arith)) (omega arith)
encode_message-pos (auth none) = rw (write_var_u32-small 2 (omega arith)) (omega arith)
encode_message-pos (auth (some reason)) = rw (write_var_u32-small 2 (omega arith)) (omega arith)
encode_message-pos awareness_query = rw (write_var_u32-small 3 (omega arith)) (omega arith)
encode_message-pos (awareness u) = rw (write_var_u32-small 1 (omega arith)) (omega arith)
encode_message-pos (custom tag bytes) = omega arith

module _ {D U : Type 0} (store : Store D U) (is_utf8 : List ℕ → Bool) (clock : ℕ → ℕ) where
  -- What a replica does with a list of messages: it answers them in order, up to the first failure.
  unfoldable pub answer_all :
      Replica D → List Message → List Message → Replica D × Answer (List Message)
  answer_all r responses [] = (r, done responses)
  answer_all r responses (m ∷ ms) =
      proceed (handle_message store r (clock (length (encode_messages (m ∷ ms)))) m)
        (λ r' response. answer_all r' (push_response responses response) ms)

  abbrev pub AllFit : List Message → Type 0
  AllFit [] = Unit
  AllFit (m ∷ ms) = Fits is_utf8 m × AllFit ms

  next_message-encode_message :
      (m : Message) (rest : List ℕ)
      → Fits is_utf8 m
      → next_message is_utf8 (encode_message m ++ rest) ≡ some (ok (m, rest))
  unfolding next_message
  next_message-encode_message m rest f =
      rw (next_message, decode_message-encode_message is_utf8 m rest f) refl

  handle_loop-encode_messages :
      (fuel : ℕ) (r : Replica D) (responses : List Message) (ms : List Message)
      → AllFit ms
      → length ms < fuel
      → handle_loop store is_utf8 fuel clock r responses (encode_messages ms)
        ≡ answer_all r responses ms
  unfolding handle_loop answer_all
  handle_loop-encode_messages zero r responses ms f h = absurd (omega arith)
  handle_loop-encode_messages (suc fuel) r responses [] f h =
      rw (handle_loop, next_message-nil is_utf8) refl
  handle_loop-encode_messages (suc fuel) r responses (m ∷ ms) f h =
      rw (handle_loop, next_message-encode_message m (encode_messages ms) f.0)
        (proceed_cong (handle_message store r (clock (length (encode_messages (m ∷ ms)))) m)
          (λ r' response.
            handle_loop-encode_messages fuel r' (push_response responses response) ms f.1
              (omega arith)))

  length-encode_messages : (ms : List Message) → length ms ≤ length (encode_messages ms)
  length-encode_messages [] = omega arith
  length-encode_messages (m ∷ ms) = omega (
    arith,
    length-append (encode_message m) (encode_messages ms),
    length-encode_messages ms,
    encode_message-pos m,
  )

  -- For messages that can be encoded, handling the bytes of all of them does to a replica what
  -- answering them one by one does, up to the first failure, and gives the same responses; the
  -- fuel of the loop is enough.
  pub handle-encode_messages :
      (r : Replica D) (ms : List Message)
      → AllFit ms
      → handle store is_utf8 clock r (encode_messages ms) ≡ answer_all r [] ms
  unfolding handle
  handle-encode_messages r ms f =
      handle_loop-encode_messages (suc (length (encode_messages ms))) r [] ms f
        (omega (arith, length-encode_messages ms))
