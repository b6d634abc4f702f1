-- ===== src/Examples/Awareness.antt =====
-- Awareness at concrete inputs.
use y_crdt.Awareness.States.{clock_at, EntryFits, local_state-apply_update}
use y_crdt.Awareness.{
  set_local_state_raw, update_with_clients, Awareness, AwarenessUpdate, ClientState, null_str,
  is_some, local_state_raw,
}
use y_crdt.Awareness.Rank.{IsNewest, apply_update-IsNewest}
use y_crdt.Awareness.Spread.{set_local_state_raw-spreads}
use y_crdt.Common.{
  suc, Bool-cases, inl, inr, ℕ, ◌≡◌, refl, Bool, true, false, none, some, List, [], ◌∷◌, ◌++◌, ◌==◌,
  arith,
}
use y_crdt.Encoding.{ok}
use y_crdt.BTree.{get}
use y_crdt.Awareness.Apply.{apply_update_internal}
use y_crdt.Awareness.Converge.{view, apply_update-twice, apply_update-swap}
use y_crdt.Awareness.Codec.{encode_update, decode_update, decode_update-encode_update}

abbrev own_state : ClientState
own_state = record { clock = 4; last_updated = 10; json = some (49 ∷ []) }

abbrev two_clients : Awareness
two_clients = record {
  client_id = 1;
  states =
      (1, own_state) ∷ (2, record { clock = 7; last_updated = 11; json = some (50 ∷ []) }) ∷ [];
  on_update = true;
  on_change = false;
}

abbrev nobody : Awareness
nobody = record { client_id = 9; states = []; on_update = false; on_change = false }

-- A removal of the local state, a new text, and a new client.
abbrev three_entries : AwarenessUpdate
three_entries =
    (1, record { clock = 5; json = null_str })
    ∷ (2, record { clock = 8; json = 51 ∷ [] })
    ∷ (3, record { clock = 1; json = 52 ∷ [] })
    ∷ []

abbrev one_entry : AwarenessUpdate
one_entry = (2, record { clock = 8; json = null_str }) ∷ []

apply_update-IsNewest_example :
    IsNewest 20
      (get 2 three_entries)
      (get 2 two_clients.states)
      (get 2 (apply_update_internal two_clients 20 true three_entries).after.states)
unfolding get
apply_update-IsNewest_example =
    apply_update-IsNewest two_clients 20 true three_entries 2 (refl, (refl, (refl, tt)))
      (λ e. omega (arith, e))

local_state-apply_update_example :
    is_some (local_state_raw (apply_update_internal two_clients 20 true three_entries).after) ≡ true
unfolding get
local_state-apply_update_example =
    local_state-apply_update two_clients 20 true three_entries (refl, (refl, (refl, tt))) refl

apply_update-twice_example :
    let b = (apply_update_internal two_clients 20 true one_entry).after in
    apply_update_internal b 30 true one_entry
    ≡ record { after = b; change = none; update = none; summary = none }
unfolding get
apply_update-twice_example = apply_update-twice two_clients 20 30 true one_entry (refl, tt) fits
  where
    fits : (j : ℕ) → EntryFits (get j one_entry)
    fits j = elim (Bool-cases (2 == j)) [ inl e ↦ rw e (omega arith) | inr e ↦ rw e tt ]

apply_update-swap_example :
    view (
      get 2
        (apply_update_internal
          (apply_update_internal two_clients 20 true three_entries).after
          30
          true
          one_entry).after.states)
    ≡ view (
        get 2
          (apply_update_internal
            (apply_update_internal two_clients 20 true one_entry).after
            30
            true
            three_entries).after.states)
unfolding get
apply_update-swap_example =
    apply_update-swap two_clients 20 30 true three_entries one_entry 2 (refl, (refl, (refl, tt)))
      (refl, tt) refl (λ e. tt)

abbrev any_text : List ℕ → Bool
any_text s = true

decode_update-encode_update_example :
    (decoded : AwarenessUpdate) × (decode_update any_text (encode_update one_entry ++ (6 ∷ []))
      ≡ ok (decoded, 6 ∷ []))
    × ((client : ℕ) → get client decoded ≡ get client one_entry)
unfolding get
decode_update-encode_update_example =
    decode_update-encode_update any_text one_entry (6 ∷ []) (refl, tt)
      (omega arith, omega arith, omega arith, refl, tt) (omega arith)

set_local_state_raw-spreads_example :
    (u : AwarenessUpdate) × (update_with_clients
        (set_local_state_raw two_clients 20 (55 ∷ [])).after
        (1 ∷ [])
      ≡ some u)
    × (view (get 1 (apply_update_internal nobody 30 true u).after.states)
        ≡ some (suc (clock_at (get 1 two_clients.states)), some (55 ∷ [])))
unfolding get
set_local_state_raw-spreads_example =
    set_local_state_raw-spreads two_clients nobody 20 30 true (55 ∷ []) (omega arith) refl refl
      (omega arith)
