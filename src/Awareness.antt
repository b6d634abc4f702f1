-- ===== src/Awareness.antt =====
-- yrs/src/sync/awareness.rs: the states that clients publish, with a clock for each of them.
-- A JSON text is the list of its bytes. `DashMap` and `HashMap` are the list of their entries in the
-- order in which they iterate. The observers are two flags that say whether each of them has
-- subscribers, and a call returns the events that it fires; the time is an argument.
pub mod Apply
pub mod States
pub mod Rank
pub mod Converge
pub mod Publish
pub mod Summary
pub mod Codec
pub mod Spread
use y_crdt.Common.{
  ℕ, ◌+◌, ◌%◌, ◌^◌, Bool, true, false, not, ◌&&◌, ◌||◌, Option, none, some, List, [], ◌∷◌, ◌++◌,
  map, ltb, ◌==◌, if◌then◌else◌,
}
use y_crdt.BTree.{get}
use y_crdt.HashMap.{put}

abbrev pub same_text : List ℕ → List ℕ → Bool
same_text [] [] = true
same_text [] (y ∷ ys) = false
same_text (x ∷ xs) [] = false
same_text (x ∷ xs) (y ∷ ys) = (x == y) && same_text xs ys

abbrev pub is_some {ℓ} : {A : Type ℓ} → Option A → Bool
is_some none = false
is_some (some a) = true

abbrev pub is_none {ℓ} : {A : Type ℓ} → Option A → Bool
is_none o = not (is_some o)

abbrev pub is_empty {ℓ} : {A : Type ℓ} → List A → Bool
is_empty [] = true
is_empty (x ∷ xs) = false

abbrev pub same_data : Option (List ℕ) → Option (List ℕ) → Bool
same_data none none = true
same_data none (some y) = false
same_data (some x) none = false
same_data (some x) (some y) = same_text x y

-- The text `null`.
abbrev pub null_str : List ℕ
null_str = 110 ∷ 117 ∷ 108 ∷ 108 ∷ []

-- The sum is that of `u32`, and wraps as in a build without overflow checks.
abbrev pub next_clock : ℕ → ℕ
next_clock clock = (clock + 1) % 2 ^ 32

pub record ClientState : Type 0 where
  pub clock : ℕ
  pub last_updated : ℕ
  pub json : Option (List ℕ)

abbrev pub States : Type 0
States = List (ℕ × ClientState)

pub record Awareness : Type 0 where
  pub client_id : ℕ
  pub states : States
  pub on_update : Bool
  pub on_change : Bool

pub record AwarenessUpdateEntry : Type 0 where
  pub clock : ℕ
  pub json : List ℕ

abbrev pub AwarenessUpdate : Type 0
AwarenessUpdate = List (ℕ × AwarenessUpdateEntry)

pub record AwarenessUpdateSummary : Type 0 where
  pub added : List ℕ
  pub updated : List ℕ
  pub removed : List ℕ

-- What a call did: the states it leaves, the event for each observer, and the summary it returns.
pub record Applied : Type 0 where
  pub after : Awareness
  pub change : Option AwarenessUpdateSummary
  pub update : Option AwarenessUpdateSummary
  pub summary : Option AwarenessUpdateSummary

abbrev pub set_states : Awareness → States → Awareness
set_states a states = record {
  client_id = a.client_id;
  states = states;
  on_update = a.on_update;
  on_change = a.on_change;
}

abbrev pub json_at : Option ClientState → Option (List ℕ)
json_at none = none
json_at (some s) = s.json

abbrev pub local_state_raw : Awareness → Option (List ℕ)
local_state_raw a = json_at (get a.client_id a.states)

abbrev pub meta : Awareness → ℕ → Option (ℕ × ℕ)
meta a client = elim (get client a.states) [ none ↦ none | some s ↦ some (s.clock, s.last_updated) ]

unfoldable pub remove_state : Awareness → ℕ → ℕ → Applied
remove_state a now client = elim (get client a.states) [
  | none ↦ fire false (put client (record { clock = 1; last_updated = now; json = none }) a.states)
  | some s ↦ fire true (
      put client (record { clock = next_clock s.clock; last_updated = s.last_updated; json = none })
        a.states)
]
  where
    fire : Bool → States → Applied
    fire is_removed states =
        let e : Option AwarenessUpdateSummary =
          if (is_removed && a.on_update) || a.on_change
          then some (record { added = []; updated = []; removed = client ∷ [] })
          else none in
        record { after = set_states a states; change = e; update = e; summary = none }

abbrev pub clean_local_state : Awareness → ℕ → Applied
clean_local_state a now = remove_state a now a.client_id

-- An event is fired only if some list of it is not empty.
abbrev pub fired : AwarenessUpdateSummary → Option AwarenessUpdateSummary
fired s = if is_empty s.added && (is_empty s.updated && is_empty s.removed) then none else some s

unfoldable pub set_local_state_raw : Awareness → ℕ → List ℕ → Applied
set_local_state_raw a now json = elim (get a.client_id a.states) [
  | none ↦ notify none (record { clock = 1; last_updated = now; json = some json })
  | some s ↦
      notify s.json (record { clock = next_clock s.clock; last_updated = now; json = some json })
]
  where
    notify : Option (List ℕ) → ClientState → Applied
    notify prev state =
        let added : List ℕ = elim prev [ none ↦ a.client_id ∷ [] | some p ↦ [] ] in
        let updated : List ℕ = elim prev [ none ↦ [] | some p ↦ a.client_id ∷ [] ] in
        let changed : List ℕ = elim prev [
          | none ↦ []
          | some p ↦ if same_text p json then [] else a.client_id ∷ []
        ] in
        let listening : Bool = a.on_update || a.on_change in
        record {
          after = set_states a (put a.client_id state a.states);
          change =
              if listening
              then fired (record { added = added; updated = changed; removed = [] })
              else none;
          update =
              if listening
              then fired (record { added = added; updated = updated; removed = [] })
              else none;
          summary = none;
        }

abbrev pub text_or_null : Option (List ℕ) → List ℕ
text_or_null none = null_str
text_or_null (some json) = json

abbrev pub entry_of : ClientState → AwarenessUpdateEntry
entry_of s = record { clock = s.clock; json = text_or_null s.json }

-- The loop of `update_with_clients`; `None` is `Error::ClientNotFound`.
unfoldable pub collect_entries : States → AwarenessUpdate → List ℕ → Option AwarenessUpdate
collect_entries states res [] = some res
collect_entries states res (client ∷ clients) = elim (get client states) [
  | none ↦ none
  | some s ↦ collect_entries states (put client (entry_of s) res) clients
]

unfoldable pub update_with_clients : Awareness → List ℕ → Option AwarenessUpdate
update_with_clients a clients = collect_entries a.states [] clients

-- The clients with data.
abbrev pub online : States → List ℕ
online [] = []
online ((client, s) ∷ states) = if is_some s.json then client ∷ online states else online states

unfoldable pub update : Awareness → Option AwarenessUpdate
update a = update_with_clients a (online a.states)
