-- ===== src/Awareness/States.antt =====
-- yrs/src/sync/awareness.rs: what applying an update does to the state of each client.
use y_crdt.Awareness.{
  json_at, local_state_raw, not, is_some, ClientState, States, Awareness, AwarenessUpdateEntry,
  AwarenessUpdate, next_clock,
}
use y_crdt.Common.{
  suc, ℕ, ◌^◌, ◌<◌, ◌≤◌, ◌≡◌, refl, Bool, true, ◌&&◌, Option, none, some, List, [], ◌∷◌, ◌==◌,
  if◌then◌else◌, arith, Bool-cases, Option-cases, inl, inr, ==_iff,
}
use y_crdt.BTree.{get}
use y_crdt.HashMap.{IsUnique, get-put}
use y_crdt.Awareness.Apply.{
  Lists, new_data, is_newer, overwrite, apply_entry, apply_entries, apply_update_internal, no_lists,
}

-- What an entry of an update, as its clock and its data, makes of the state that the instance has
-- of the client.
abbrev pub next_state : Bool → ℕ → ℕ → Option (List ℕ) → Option ClientState → ClientState
next_state is_own now clock new none = record { clock = clock; last_updated = now; json = new }
next_state is_own now clock new (some s) =
    if is_newer clock new s
    then if is_own && (is_some s.json && not (is_some new))
      then record { clock = next_clock clock; last_updated = now; json = s.json }
      else record { clock = clock; last_updated = now; json = new }
    else s

-- The state of a client after the update, which may have an entry for it.
abbrev pub expected :
    Bool → ℕ → Option AwarenessUpdateEntry → Option ClientState → Option ClientState
expected is_own now none s = s
expected is_own now (some entry) s = some (next_state is_own now entry.clock (new_data entry) s)

overwrite_lem :
    (own now : ℕ) (gen : Bool) (client clock : ℕ) (new : Option (List ℕ)) (s : ClientState)
    (l : Lists)
    → is_newer clock new s ≡ true
    → (overwrite own now gen client clock new s l).0
      ≡ next_state (client == own) now clock new (some s)
unfolding overwrite
overwrite_lem own now gen client clock none s l h = rw h (ground arith)
overwrite_lem own now gen client clock (some x) s l h = rw h (ground arith)

pub get-apply_entry :
    (own now : ℕ) (gen : Bool) (client clock : ℕ) (new : Option (List ℕ)) (states : States)
    (l : Lists) (j : ℕ)
    → get j (apply_entry own now gen client clock new (states, l)).0 ≡ (
        if client == j
        then some (next_state (client == own) now clock new (get client states))
        else get j states)
unfolding apply_entry get
get-apply_entry own now gen client clock new states l j = elim (Option-cases (get client states)) [
  | inl e ↦ rw (apply_entry, e) (get-put states client j _)
  | inr (s, e) ↦ elim (Bool-cases (is_newer clock new s)) [
    | inl t ↦
        let lem = overwrite_lem own now gen client clock new s l t in
        rw (apply_entry, e, t) (rw (rw t at lem) (get-put states client j _))
    | inr t ↦ elim (Bool-cases (client == j)) [
      | inl k ↦ rw (apply_entry, e, t, k) (rw ((==_iff client j).0 k) at e)
      | inr k ↦ rw (apply_entry, e, t, k) refl
    ]
  ]
]

-- After applying an update that lists every client once, a client without an entry in it has the
-- state it had, and one with an entry has the state that the entry makes of the one it had.
pub get-apply_entries :
    (own now : ℕ) (gen : Bool) (u : AwarenessUpdate) (states : States) (l : Lists) (j : ℕ)
    → IsUnique u
    → get j (apply_entries own now gen u (states, l)).0
      ≡ expected (j == own) now (get j u) (get j states)
unfolding apply_entries get
get-apply_entries own now gen [] states l j h = refl
get-apply_entries own now gen ((client, entry) ∷ u) states l j h =
    let next = apply_entry own now gen client entry.clock (new_data entry) (states, l) in
    let ih = get-apply_entries own now gen u next.0 next.1 j h.1 in
    let step : get j next.0 ≡ (
        if client == j
        then some (next_state (client == own) now entry.clock (new_data entry) (get client states))
        else get j states) =
      get-apply_entry own now gen client entry.clock (new_data entry) states l j in
    elim (Bool-cases (client == j)) [
      | inl k ↦
          let same = (==_iff client j).0 k in
          let gone : get j u ≡ none = rw same at h.0 in
          rw (apply_entries, ih, step, k, gone) (rw same refl)
      | inr k ↦ rw (apply_entries, ih, step, k) refl
    ]

-- Applying an update that lists every client once leaves a client without an entry in it the state
-- it had, and gives one with an entry the state that next_state makes of the one it had.
pub get-apply_update :
    (a : Awareness) (now : ℕ) (gen : Bool) (u : AwarenessUpdate) (j : ℕ)
    → IsUnique u
    → get j (apply_update_internal a now gen u).after.states
      ≡ expected (j == a.client_id) now (get j u) (get j a.states)
unfolding apply_update_internal
get-apply_update a now gen u j h = get-apply_entries a.client_id now gen u a.states no_lists j h

-- The clock of a client's state, 0 without a state.
abbrev pub clock_at : Option ClientState → ℕ
clock_at none = 0
clock_at (some s) = s.clock

-- The clock of an entry is one of 32 bits, and not the last of them.
abbrev pub EntryFits : Option AwarenessUpdateEntry → Type 0
EntryFits none = Unit
EntryFits (some entry) = suc entry.clock < 2 ^ 32

newer_le :
    (clock : ℕ) (new : Option (List ℕ)) (s : ClientState)
    → is_newer clock new s ≡ true
    → s.clock ≤ clock
newer_le clock new s h = ground arith

pub wraps_not : (clock : ℕ) → suc clock < 2 ^ 32 → next_clock clock ≡ suc clock
wraps_not clock h = omega arith

expected_grows :
    (is_own : Bool) (now : ℕ) (entry : Option AwarenessUpdateEntry) (s : Option ClientState)
    → EntryFits entry
    → clock_at s ≤ clock_at (expected is_own now entry s)
expected_grows is_own now none s h = omega arith
expected_grows is_own now (some entry) none h = omega arith
expected_grows is_own now (some entry) (some s) h =
    let own_kept = is_own && (is_some s.json && not (is_some (new_data entry))) in
    elim (Bool-cases (is_newer entry.clock (new_data entry) s)) [
      | inl t ↦
          let le = newer_le entry.clock (new_data entry) s t in
          elim (Bool-cases own_kept) [
            | inl k ↦ rw (t, k, wraps_not entry.clock h) (omega (arith, le))
            | inr k ↦ rw (t, k) le
          ]
      | inr t ↦ rw t (omega arith)
    ]

expected_keeps :
    (now : ℕ) (entry : Option AwarenessUpdateEntry) (s : Option ClientState)
    → is_some (json_at s) ≡ true
    → is_some (json_at (expected true now entry s)) ≡ true
expected_keeps now none s h = h
expected_keeps now (some entry) none h = ground arith
expected_keeps now (some entry) (some s) h =
    elim (Bool-cases (is_newer entry.clock (new_data entry) s)) [
      | inl t ↦ elim (Option-cases (new_data entry)) [
        | inl e ↦ rw (t, e, h) h
        | inr (x, e) ↦ rw (t, e, h) refl
      ]
      | inr t ↦ rw t h
    ]

-- Where the update lists every client once and the entry of the client, if any, has a clock below
-- 2 ^ 32 - 1, applying the update never lowers the clock of that client's state.
pub clock_at-apply_update :
    (a : Awareness) (now : ℕ) (gen : Bool) (u : AwarenessUpdate) (j : ℕ)
    → IsUnique u
    → EntryFits (get j u)
    → clock_at (get j a.states) ≤ clock_at (get j (apply_update_internal a now gen u).after.states)
clock_at-apply_update a now gen u j h fits =
    rw (get-apply_update a now gen u j h)
      (expected_grows (j == a.client_id) now (get j u) (get j a.states) fits)

-- An update that lists every client once may replace the local state, and never removes it.
pub local_state-apply_update :
    (a : Awareness) (now : ℕ) (gen : Bool) (u : AwarenessUpdate)
    → IsUnique u
    → is_some (local_state_raw a) ≡ true
    → is_some (local_state_raw (apply_update_internal a now gen u).after) ≡ true
unfolding apply_update_internal
local_state-apply_update a now gen u h there =
    let self : (a.client_id == a.client_id) ≡ true = (==_iff a.client_id a.client_id).1 refl in
    let step = get-apply_update a now gen u a.client_id h in
    rw (step, self) (expected_keeps now (get a.client_id u) (get a.client_id a.states) there)
