-- ===== src/Awareness/Apply.antt =====
-- yrs/src/sync/awareness.rs: `apply_update_internal`.
use y_crdt.Common.{
  ℕ, Bool, true, ◌&&◌, ◌||◌, Option, none, some, List, [], ◌∷◌, ◌++◌, ltb, ◌==◌, not, if◌then◌else◌,
}
use y_crdt.BTree.{get}
use y_crdt.HashMap.{put}
use y_crdt.Awareness.{
  same_text, is_some, is_none, is_empty, same_data, null_str, next_clock, ClientState, States,
  Awareness, AwarenessUpdateEntry, AwarenessUpdate, AwarenessUpdateSummary, Applied, set_states,
  fired,
}

-- The vectors that the loop fills.
pub record Lists : Type 0 where
  pub added : List ℕ
  pub updated : List ℕ
  pub changed : List ℕ
  pub removed : List ℕ

abbrev pub no_lists : Lists
no_lists = record { added = []; updated = []; changed = []; removed = [] }

-- `push` under a condition.
abbrev pub push_if : Bool → ℕ → List ℕ → List ℕ
push_if b x xs = if b then xs ++ (x ∷ []) else xs

abbrev pub new_data : AwarenessUpdateEntry → Option (List ℕ)
new_data entry = if same_text entry.json null_str then none else some entry.json

-- The entry is applied to the state that is there.
abbrev pub is_newer : ℕ → Option (List ℕ) → ClientState → Bool
is_newer clock new state =
    ltb state.clock clock || ((state.clock == clock) && (is_none new && is_some state.json))

module _ (own now : ℕ) (generate_summary : Bool) where
  -- The state that is there takes a newer entry.
  unfoldable pub overwrite : ℕ → ℕ → Option (List ℕ) → ClientState → Lists → ClientState × Lists
  overwrite client clock none state l =
      if (client == own) && is_some state.json
      then (record { clock = next_clock clock; last_updated = now; json = state.json }, l)
      else (
        record { clock = clock; last_updated = now; json = none },
        record {
          added = l.added;
          updated = l.updated;
          changed = l.changed;
          removed = push_if generate_summary client l.removed;
        },
      )
  overwrite client clock (some json) state l = (
    record { clock = clock; last_updated = now; json = some json },
    record {
      added = l.added;
      updated = push_if generate_summary client l.updated;
      changed =
          push_if
            (generate_summary && (is_some state.json && not (same_data state.json (some json))))
            client l.changed;
      removed = l.removed;
    },
  )

  unfoldable pub apply_entry : ℕ → ℕ → Option (List ℕ) → States × Lists → States × Lists
  apply_entry client clock new (states, l) = elim (get client states) [
    | none ↦ (
      put client (record { clock = clock; last_updated = now; json = new }) states,
      record {
        added = push_if (is_some new && generate_summary) client l.added;
        updated = l.updated;
        changed = l.changed;
        removed = l.removed;
      },
    )
    | some state ↦
        if is_newer clock new state
        then (
          put client (overwrite client clock new state l).0 states,
          (overwrite client clock new state l).1,
        )
        else (states, l)
  ]

  unfoldable pub apply_entries : AwarenessUpdate → States × Lists → States × Lists
  apply_entries [] acc = acc
  apply_entries ((client, entry) ∷ u) acc =
      apply_entries u (apply_entry client entry.clock (new_data entry) acc)

-- `apply_update_internal`, without the origin that is only passed on to the observers.
unfoldable pub apply_update_internal : Awareness → ℕ → Bool → AwarenessUpdate → Applied
apply_update_internal a now generate_summary u =
    report (apply_entries a.client_id now generate_summary u (a.states, no_lists))
  where
    report : States × Lists → Applied
    report (states, l) =
        let e : AwarenessUpdateSummary = record {
          added = l.added;
          updated = l.updated;
          removed = l.removed;
        } in
        let some_list : Bool =
          not (is_empty l.added) || (not (is_empty l.updated) || not (is_empty l.removed)) in
        let listening : Bool = a.on_update || a.on_change in
        record {
          after = set_states a states;
          change =
              if some_list && listening
              then fired (record { added = l.added; updated = l.changed; removed = l.removed })
              else none;
          update = if some_list && listening then some e else none;
          summary = if some_list then some e else none;
        }

unfoldable pub apply_update : Awareness → ℕ → AwarenessUpdate → Applied
apply_update a now u = apply_update_internal a now (a.on_update || a.on_change) u

unfoldable pub apply_update_summary : Awareness → ℕ → AwarenessUpdate → Applied
apply_update_summary a now u = apply_update_internal a now true u
