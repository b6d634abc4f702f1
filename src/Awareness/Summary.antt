-- ===== src/Awareness/Summary.antt =====
-- yrs/src/sync/awareness.rs: the lists of clients that applying an update reports.
use y_crdt.Awareness.States.{next_state, get-apply_entry}
use y_crdt.Awareness.{
  AwarenessUpdateSummary, is_empty, is_some, is_none, same_data, ClientState, States, Awareness,
  AwarenessUpdateEntry, AwarenessUpdate,
}
use y_crdt.Common.{
  is_among, sym, ℕ, ◌≡◌, refl, ◌∙◌, ap, Bool, true, false, ◌&&◌, ◌||◌, not, Option, none, some,
  List, [], ◌∷◌, ◌==◌, if◌then◌else◌, arith, Bool-cases, Option-cases, inl, inr, ==_iff,
}
use y_crdt.Awareness.Apply.{
  apply_update_summary, Lists, no_lists, push_if, apply_entry, apply_entries, overwrite, new_data,
  is_newer, apply_update_internal,
}
use y_crdt.BTree.{get}
use y_crdt.HashMap.{IsUnique}

-- What a report says of a client, from the entry that the update has for it and its old state.
abbrev pub is_added : Option AwarenessUpdateEntry → Option ClientState → Bool
is_added none s = false
is_added (some e) none = is_some (new_data e)
is_added (some e) (some s) = false

abbrev pub is_updated : Option AwarenessUpdateEntry → Option ClientState → Bool
is_updated none s = false
is_updated (some e) none = false
is_updated (some e) (some s) = is_newer e.clock (new_data e) s && is_some (new_data e)

abbrev pub is_changed : Option AwarenessUpdateEntry → Option ClientState → Bool
is_changed none s = false
is_changed (some e) none = false
is_changed (some e) (some s) =
    is_newer e.clock (new_data e) s
    && (is_some (new_data e) && (is_some s.json && not (same_data s.json (new_data e))))

abbrev pub is_removed : Bool → Option AwarenessUpdateEntry → Option ClientState → Bool
is_removed is_own none s = false
is_removed is_own (some e) none = false
is_removed is_own (some e) (some s) =
    is_newer e.clock (new_data e) s && (is_none (new_data e) && not (is_own && is_some s.json))

or_false : (b : Bool) → b || false ≡ b
or_false true = refl
or_false false = refl

is_among-push_if :
    (b : Bool) (j x : ℕ) (xs : List ℕ)
    → is_among j (push_if b x xs) ≡ is_among j xs || (b && (x == j))
is_among-push_if false j x xs = sym (or_false (is_among j xs))
is_among-push_if true j x [] = or_false (x == j)
is_among-push_if true j x (y ∷ xs) = ground (arith, is_among-push_if true j x xs)

module _ (own now j : ℕ) (pick : Lists → List ℕ)
    (report : Option AwarenessUpdateEntry → Option ClientState → Bool)
    (quiet : (s : Option ClientState) → report none s ≡ false)
    (one : (client : ℕ) (entry : AwarenessUpdateEntry) (states : States) (l : Lists)
      → is_among j
          (pick (apply_entry own now true client entry.clock (new_data entry) (states, l)).1)
        ≡ is_among j (pick l) || ((client == j) && report (some entry) (get client states))) where
  reports_all :
      (u : AwarenessUpdate) (states : States) (l : Lists)
      → IsUnique u
      → is_among j (pick (apply_entries own now true u (states, l)).1)
        ≡ is_among j (pick l) || report (get j u) (get j states)
  unfolding apply_entries get
  reports_all [] states l h = rw (quiet (get j states), or_false (is_among j (pick l))) refl
  reports_all ((client, entry) ∷ u) states l h =
      let next = apply_entry own now true client entry.clock (new_data entry) (states, l) in
      let ih : is_among j (pick (apply_entries own now true u (next.0, next.1)).1)
          ≡ is_among j (pick next.1) || report (get j u) (get j next.0) =
        reports_all u next.0 next.1 h.1 in
      let step : is_among j (pick next.1)
          ≡ is_among j (pick l) || ((client == j) && report (some entry) (get client states)) =
        one client entry states l in
      let state : get j next.0 ≡ (
          if client == j
          then some
              (next_state (client == own) now entry.clock (new_data entry) (get client states))
          else get j states) =
        get-apply_entry own now true client entry.clock (new_data entry) states l j in
      elim (Bool-cases (client == j)) [
        | inl k ↦
            let gone : get j u ≡ none = rw ((==_iff client j).0 k) at h.0 in
            rw (apply_entries, ih, step, gone, quiet (get j next.0), k, (==_iff client j).0 k)
              (or_false (is_among j (pick l) || report (some entry) (get j states)))
        | inr k ↦ rw (apply_entries, ih, step, state, k, or_false (is_among j (pick l))) refl
      ]

-- One entry adds its client to the lists that report it.
apply_entry-lists :
    (own now client : ℕ) (entry : AwarenessUpdateEntry) (states : States) (l : Lists)
    → let old = get client states in
      (apply_entry own now true client entry.clock (new_data entry) (states, l)).1 ≡ record {
        added = push_if (is_added (some entry) old) client l.added;
        updated = push_if (is_updated (some entry) old) client l.updated;
        changed = push_if (is_changed (some entry) old) client l.changed;
        removed = push_if (is_removed (client == own) (some entry) old) client l.removed;
      }
unfolding apply_entry overwrite
apply_entry-lists own now client entry states l = elim (Option-cases (get client states)) [
  | inl e ↦ elim (Bool-cases (is_some (new_data entry))) [
    | inl n ↦ rw (apply_entry, e, n) refl
    | inr n ↦ rw (apply_entry, e, n) refl
  ]
  | inr (s, e) ↦ elim (Bool-cases (is_newer entry.clock (new_data entry) s)) [
    | inl t ↦ elim (Option-cases (new_data entry)) [
      | inl n ↦ elim (Bool-cases ((client == own) && is_some s.json)) [
        | inl k ↦ rw (apply_entry, e, t, n) (rw k refl)
        | inr k ↦ rw (apply_entry, e, t, n) (rw k refl)
      ]
      | inr (x, n) ↦ rw (apply_entry, e, t, n) refl
    ]
    | inr t ↦ rw (apply_entry, e, t) refl
  ]
]

one_list :
    (j client : ℕ) (b : Bool) (xs : List ℕ)
    → is_among j (push_if b client xs) ≡ is_among j xs || ((client == j) && b)
one_list j client true xs =
    is_among-push_if true j client xs ∙ ap (λ c. is_among j xs || c) (ground arith)
one_list j client false xs =
    sym (or_false (is_among j xs)) ∙ ap (λ c. is_among j xs || c) (ground arith)

one_own :
    (j client own : ℕ) (entry : AwarenessUpdateEntry) (s : Option ClientState)
    → (client == j) && is_removed (client == own) (some entry) s
      ≡ (client == j) && is_removed (j == own) (some entry) s
one_own j client own entry s = elim (Bool-cases (client == j)) [
  | inl k ↦ rw ((==_iff client j).0 k) refl
  | inr k ↦ rw k refl
]

-- The lists of one pass over an update that lists every client once, for each client.
reports :
    (own now j : ℕ) (u : AwarenessUpdate) (states : States)
    → IsUnique u
    → let l = (apply_entries own now true u (states, no_lists)).1 in
      let e = get j u in
      let s = get j states in
      (is_among j l.added ≡ is_added e s)
      × (is_among j l.updated ≡ is_updated e s)
      × (is_among j l.changed ≡ is_changed e s)
      × (is_among j l.removed ≡ is_removed (j == own) e s)
reports own now j u states h = (
  reports_all own now j (λ l. l.added) is_added (λ s. refl)
      (λ c e st l.
        rw (apply_entry-lists own now c e st l)
          (one_list j c (is_added (some e) (get c st)) l.added))
      u states no_lists h,
  reports_all own now j (λ l. l.updated) is_updated (λ s. refl)
      (λ c e st l.
        rw (apply_entry-lists own now c e st l)
          (one_list j c (is_updated (some e) (get c st)) l.updated))
      u states no_lists h,
  reports_all own now j (λ l. l.changed) is_changed (λ s. refl)
      (λ c e st l.
        rw (apply_entry-lists own now c e st l)
          (one_list j c (is_changed (some e) (get c st)) l.changed))
      u states no_lists h,
  reports_all own now j (λ l. l.removed) (is_removed (j == own)) (λ s. refl)
      (λ c e st l. rw (apply_entry-lists own now c e st l) (
        one_list j c (is_removed (c == own) (some e) (get c st)) l.removed
        ∙ ap (λ b. is_among j l.removed || b) (one_own j c own e (get c st))))
      u states no_lists h,
)

-- No clients without a summary.
abbrev pub clients_of : (AwarenessUpdateSummary → List ℕ) → Option AwarenessUpdateSummary → List ℕ
clients_of pick none = []
clients_of pick (some s) = pick s

none_listed : (j : ℕ) (xs : List ℕ) → is_empty xs ≡ true → is_among j xs ≡ false
none_listed j [] h = refl
none_listed j (x ∷ xs) h = ground arith

empties : (x y z : Bool) → not x || (not y || not z) ≡ false → (x ≡ true) × (y ≡ true) × (z ≡ true)
empties x y z h = ground arith

-- The summary of an update that lists every client once has, for each client: in `added`, whether
-- it had no state and the entry has data; in `updated`, whether its state took a newer entry with
-- data; in `removed`, whether its state took a newer entry without data, which the local state
-- does not while it has data.
pub apply_update_summary-lists :
    (a : Awareness) (now j : ℕ) (u : AwarenessUpdate)
    → IsUnique u
    → let r = (apply_update_summary a now u).summary in
      let e = get j u in
      let s = get j a.states in
      (is_among j (clients_of (λ l. l.added) r) ≡ is_added e s)
      × (is_among j (clients_of (λ l. l.updated) r) ≡ is_updated e s)
      × (is_among j (clients_of (λ l. l.removed) r) ≡ is_removed (j == a.client_id) e s)
unfolding apply_update_summary apply_update_internal
apply_update_summary-lists a now j u h =
    let l = (apply_entries a.client_id now true u (a.states, no_lists)).1 in
    let all = reports a.client_id now j u a.states h in
    let any = not (is_empty l.added) || (not (is_empty l.updated) || not (is_empty l.removed)) in
    elim (Bool-cases any) [
      | inl t ↦ rw t (all.0, all.1, all.3)
      | inr t ↦
          let e = empties (is_empty l.added) (is_empty l.updated) (is_empty l.removed) t in
          rw t (
            sym (none_listed j l.added e.0) ∙ all.0,
            sym (none_listed j l.updated e.1) ∙ all.1,
            sym (none_listed j l.removed e.2) ∙ all.3,
          )
    ]
