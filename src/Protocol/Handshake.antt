-- ===== src/Protocol/Handshake.antt =====
-- yrs/src/sync/protocol.rs: how a replica that connects gets the changes that it lacks.
use y_crdt.Common.{
  ℕ, ◌<◌, ◌≡◌, refl, ap, ◌∙◌, Bool, true, none, some, List, [], ◌∷◌, length, if◌then◌else◌, ◌^◌,
  append-nil,
}
use y_crdt.Encoding.{ok}
use y_crdt.Awareness.{AwarenessUpdate, update}
use y_crdt.Protocol.{Message, sync, awareness, sync_step_1, sync_step_2}
use y_crdt.Protocol.RoundTrip.{Fits}
use y_crdt.Protocol.Stream.{encode_messages, handle-encode_messages, answer_all}
use y_crdt.Protocol.Handle.{
  Store, Replica, done, failed, update_error, start, handle, handle_message, handle_sync_step1,
  handle_sync_step2, handle_awareness_update,
}

module _ {D U : Type 0} (store : Store D U) (is_utf8 : List ℕ → Bool) (clock : ℕ → ℕ) where
  -- The messages that `start` sends.
  abbrev pub greeting : Replica D → AwarenessUpdate → List Message
  greeting a u = sync (sync_step_1 (store.state_vector a.doc)) ∷ awareness u ∷ []

  start-greeting :
      (a : Replica D) (u : AwarenessUpdate)
      → update a.states ≡ some u
      → start store a ≡ done (encode_messages (greeting a u))
  unfolding start
  start-greeting a u e = rw (start, e, append-nil) refl

  handle_sync_step2-applied :
      (a : Replica D) (v : U) (doc : D)
      → store.apply a.doc v ≡ (doc, true)
      → handle_sync_step2 store a v ≡ (record a { doc = doc }, done none)
  unfolding handle_sync_step2
  handle_sync_step2-applied a v doc p =
      ap
        (λ (x : D × Bool). (record a { doc = x.0 }, if x.1 then done none else failed update_error))
        p

  reply-applied :
      (a : Replica D) (diff : List ℕ) (v : U) (doc : D)
      → store.decode_v1 diff ≡ ok v
      → store.apply a.doc v ≡ (doc, true)
      → answer_all store is_utf8 clock a [] (sync (sync_step_2 diff) ∷ [])
        ≡ (record a { doc = doc }, done [])
  unfolding answer_all handle_message
  reply-applied a diff v doc d p = rw (d, handle_sync_step2-applied a v doc p) refl

  -- When a replica that can publish its states greets another one, and the messages can be
  -- encoded, the other one answers with one message, which has the changes that it encodes for the
  -- clocks of the first; if the first can decode and apply them, it does so when it handles the
  -- answer, and has nothing to respond.
  pub handshake :
      (a b : Replica D) (u : AwarenessUpdate) (v : U) (doc : D)
      → update a.states ≡ some u
      → Fits is_utf8 (sync (sync_step_1 (store.state_vector a.doc)))
      → Fits is_utf8 (awareness u)
      → let diff = store.encode_state_as_update_v1 b.doc (store.state_vector a.doc) in
        length diff < 2 ^ 32
        → store.decode_v1 diff ≡ ok v
        → store.apply a.doc v ≡ (doc, true)
        → (hello : List ℕ) × (start store a ≡ done hello)
          × ((handle store is_utf8 clock b hello).1 ≡ done (sync (sync_step_2 diff) ∷ []))
          × (handle store is_utf8 clock a (encode_messages (sync (sync_step_2 diff) ∷ []))
              ≡ (record a { doc = doc }, done []))
  unfolding answer_all handle_message handle_sync_step1 handle_awareness_update
  handshake a b u v doc e f g l d p =
      let diff = store.encode_state_as_update_v1 b.doc (store.state_vector a.doc) in
      (
        encode_messages (greeting a u),
        start-greeting a u e,
        ap (λ x. x.1) (handle-encode_messages store is_utf8 clock b (greeting a u) (f, (g, tt))),
        handle-encode_messages store is_utf8 clock a (sync (sync_step_2 diff) ∷ []) (l, tt)
            ∙ reply-applied a diff v doc d p,
      )
