-- ===== src/Protocol/Progress.antt =====
-- yrs/src/sync/protocol.rs: the loop of `handle` ends, since every message takes a byte.
use y_crdt.Common.{
  ℕ, zero, suc, ◌<◌, ◌≡◌, ◌≢◌, ◌⊎◌, refl, Bool, Option, none, some, List, [], length, ◌==◌,
  if◌then◌else◌, arith, Bool-cases, Option-cases, inl, inr,
}
use y_crdt.Encoding.{
  Result, ok, err, panic, Error, ◌>>=◌, end_of_buffer, invalid_var_int, unexpected_value,
  malformed_utf8, empty_block, not_enough_memory,
}
use y_crdt.Encoding.Buffers.{read_buf}
use y_crdt.Encoding.VarInt.{read_u8_var}
use y_crdt.Awareness.Codec.{decode_update, read_string}
use y_crdt.Protocol.{
  sync_step_1, sync_step_2, sync_update, Message, sync, auth, awareness_query, awareness, custom,
  decode_sync, decode_message, next_message,
}
use y_crdt.Awareness.{update}
use y_crdt.Protocol.Handle.{
  decoded, handle_sync_step1, handle_awareness_update, missing_handle, Store, Replica, Answer, done,
  failed, trapped, unfinished, handle_message, handle_sync_step2, handle_update, handle_auth,
  handle_awareness_query, handle_loop, handle, push_response, proceed,
}
use y_crdt.Protocol.Consume.{
  Keeps, Shrinks, then-Keeps, then-Shrinks, value-Keeps, if-Keeps, Keeps-Shrinks,
  read_u8_var-Shrinks, read_buf-Keeps, decode_sync-Keeps,
}

module _ (is_utf8 : List ℕ → Bool) where
  read_string-Keeps : (bytes : List ℕ) → Keeps bytes (read_string is_utf8 bytes)
  unfolding read_string
  read_string-Keeps bytes = then-Keeps bytes (read_buf bytes) _ (read_buf-Keeps bytes) (λ buf left.
      if-Keeps left (is_utf8 buf) (ok (buf, left)) (err malformed_utf8) (omega arith) tt)

  auth-Keeps :
      (rest : List ℕ)
      → Keeps rest (
          read_u8_var rest >>= (λ (permission, more).
            if permission == 0
            then read_string is_utf8 more >>= (λ (reason, left). ok (auth (some reason), left))
            else ok (auth none, more)))
  auth-Keeps rest =
      then-Keeps rest (read_u8_var rest) _
        (Keeps-Shrinks rest (read_u8_var rest) (read_u8_var-Shrinks rest))
        (λ permission more.
          if-Keeps more (permission == 0) _ (ok (auth none, more))
            (then-Keeps more (read_string is_utf8 more) _ (read_string-Keeps more)
              (λ reason left. omega arith))
            (omega arith))

  -- A message that is read takes a byte at least.
  decode_message-Shrinks : (bytes : List ℕ) → Shrinks bytes (decode_message is_utf8 bytes)
  unfolding decode_message
  decode_message-Shrinks bytes =
      then-Shrinks bytes (read_u8_var bytes) _ (read_u8_var-Shrinks bytes) (λ tag rest.
        if-Keeps rest (tag == 0) _ _
          (then-Keeps rest (decode_sync rest) _ (decode_sync-Keeps rest) (λ msg left. omega arith))
          (if-Keeps rest (tag == 1) _ _
            (then-Keeps rest (read_buf rest) _ (read_buf-Keeps rest)
              (λ buf left. value-Keeps left (decode_update is_utf8 buf) (λ u. awareness u.0)))
            (if-Keeps rest (tag == 2) _ _ (auth-Keeps rest) (
              if-Keeps rest (tag == 3) (ok (awareness_query, rest)) _ (omega arith) (
                then-Keeps rest (read_buf rest) _ (read_buf-Keeps rest)
                  (λ buf left. omega arith))))))

  -- What the reader may give for some bytes: the end, an error, a panic, or a message.
  abbrev NextView : List ℕ → Type 0
  NextView bytes =
      (next_message is_utf8 bytes ≡ none)
      ⊎ (((e : Error) × (next_message is_utf8 bytes ≡ some (err e)))
          ⊎ ((next_message is_utf8 bytes ≡ some panic)
              ⊎ ((m : Message) × (rest : List ℕ) × (next_message is_utf8 bytes
                    ≡ some (ok (m, rest)))
                  × (length rest < length bytes))))

  Next-cases : (bytes : List ℕ) → NextView bytes
  unfolding next_message
  Next-cases bytes = sort (decode_message is_utf8 bytes) refl (decode_message-Shrinks bytes)
    where
      sort :
          (m : Result (Message × List ℕ))
          → decode_message is_utf8 bytes ≡ m
          → Shrinks bytes m
          → NextView bytes
      sort (ok (m, rest)) q h = inr (inr (inr (m, rest, rw (next_message, q) refl, h)))
      sort (err (end_of_buffer n)) q h = inl (rw (next_message, q) refl)
      sort (err invalid_var_int) q h = inr (inl (invalid_var_int, rw (next_message, q) refl))
      sort (err unexpected_value) q h = inr (inl (unexpected_value, rw (next_message, q) refl))
      sort (err malformed_utf8) q h = inr (inl (malformed_utf8, rw (next_message, q) refl))
      sort (err empty_block) q h = inr (inl (empty_block, rw (next_message, q) refl))
      sort (err not_enough_memory) q h = inr (inl (not_enough_memory, rw (next_message, q) refl))
      sort panic q h = inr (inr (inl (rw (next_message, q) refl)))

abbrev IsFinished : {A : Type 0} → Answer A → Type 0
IsFinished (done x) = Unit
IsFinished (failed e) = Unit
IsFinished trapped = Unit
IsFinished unfinished = ⊥

proceed-IsFinished :
    {D A B : Type 0} (a : Replica D × Answer A) (f : Replica D → A → Replica D × Answer B)
    → IsFinished a.1
    → ((r : Replica D) (x : A) → IsFinished (f r x).1)
    → IsFinished (proceed a f).1
proceed-IsFinished (r, done x) f h k = k r x
proceed-IsFinished (r, failed e) f h k = tt
proceed-IsFinished (r, trapped) f h k = tt
proceed-IsFinished (r, unfinished) f h k = absurd h

module _ {D U : Type 0} (store : Store D U) (is_utf8 : List ℕ → Bool) (clock : ℕ → ℕ) where
  handle_sync_step2-IsFinished :
      (r : Replica D) (u : U) → IsFinished (handle_sync_step2 store r u).1
  unfolding handle_sync_step2
  handle_sync_step2-IsFinished r u = elim (Bool-cases (store.apply r.doc u).1) [
    | inl e ↦ rw (handle_sync_step2, e) tt
    | inr e ↦ rw (handle_sync_step2, e) tt
  ]

  decoded-IsFinished :
      (r : Replica D) (f : U → Replica D × Answer (Option Message)) (m : Result U)
      → ((u : U) → IsFinished (f u).1)
      → IsFinished (decoded store r f m).1
  decoded-IsFinished r f (ok u) h = h u
  decoded-IsFinished r f (err e) h = tt
  decoded-IsFinished r f panic h = tt

  handle_message-IsFinished :
      (r : Replica D) (now : ℕ) (m : Message) → IsFinished (handle_message store r now m).1
  unfolding handle_message handle_sync_step1 handle_update handle_auth handle_awareness_query
      handle_awareness_update missing_handle
  handle_message-IsFinished r now (sync (sync_step_1 sv)) = tt
  handle_message-IsFinished r now (sync (sync_step_2 bytes)) =
      decoded-IsFinished r (handle_sync_step2 store r) (store.decode_v1 bytes)
        (handle_sync_step2-IsFinished r)
  handle_message-IsFinished r now (sync (sync_update bytes)) =
      decoded-IsFinished r (handle_sync_step2 store r) (store.decode_v1 bytes)
        (handle_sync_step2-IsFinished r)
  handle_message-IsFinished r now (auth none) = tt
  handle_message-IsFinished r now (auth (some reason)) = tt
  handle_message-IsFinished r now awareness_query = elim (Option-cases (update r.states)) [
    | inl e ↦ rw (handle_awareness_query, e) tt
    | inr (u, e) ↦ rw (handle_awareness_query, e) tt
  ]
  handle_message-IsFinished r now (awareness u) = tt
  handle_message-IsFinished r now (custom tag bytes) = tt

  handle_loop-IsFinished :
      (fuel : ℕ) (r : Replica D) (responses : List Message) (bytes : List ℕ)
      → length bytes < fuel
      → IsFinished (handle_loop store is_utf8 fuel clock r responses bytes).1
  unfolding handle_loop
  handle_loop-IsFinished zero r responses bytes h = absurd (omega arith)
  handle_loop-IsFinished (suc fuel) r responses bytes h = elim (Next-cases is_utf8 bytes) [
    | inl e ↦ rw (handle_loop, e) tt
    | inr (inl (x, e)) ↦ rw (handle_loop, e) tt
    | inr (inr (inl e)) ↦ rw (handle_loop, e) tt
    | inr (inr (inr (m, rest, e, less))) ↦
        rw (handle_loop, e)
          (proceed-IsFinished (handle_message store r (clock (length bytes)) m) _
            (handle_message-IsFinished r (clock (length bytes)) m)
            (λ r' response.
              handle_loop-IsFinished fuel r' (push_response responses response) rest (omega arith)))
  ]

  IsFinished-some : {A : Type 0} (a : Answer A) → IsFinished a → a ≢ unfinished
  IsFinished-some (done x) h = λ q. absurd (cc)
  IsFinished-some (failed e) h = λ q. absurd (cc)
  IsFinished-some trapped h = λ q. absurd (cc)
  IsFinished-some unfinished h = λ q. absurd h

  -- Whatever bytes a replica is given, its loop over the messages ends with the fuel that handle
  -- gives it.
  pub handle-ends :
      (r : Replica D) (bytes : List ℕ) → (handle store is_utf8 clock r bytes).1 ≢ unfinished
  unfolding handle
  handle-ends r bytes =
      IsFinished-some (handle store is_utf8 clock r bytes).1
        (handle_loop-IsFinished (suc (length bytes)) r [] bytes (omega arith))
