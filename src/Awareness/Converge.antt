-- ===== src/Awareness/Converge.antt =====
-- yrs/src/sync/awareness.rs: updates that are applied twice, or in either order.
use y_crdt.Common.{
  suc, ℕ, ◌^◌, ◌<◌, ◌≡◌, refl, ◌∙◌, ap, Bool, true, false, ◌&&◌, Option, none, some, List, [], ◌∷◌,
  ◌==◌, arith, Bool-cases, Option-cases, inl, inr, ==_iff,
}
use y_crdt.BTree.{get}
use y_crdt.HashMap.{IsUnique}
use y_crdt.Awareness.{
  is_some, ClientState, States, Awareness, AwarenessUpdateEntry, AwarenessUpdate,
}
use y_crdt.Awareness.Apply.{
  Lists, new_data, is_newer, apply_entry, apply_entries, apply_update_internal, no_lists,
}
use y_crdt.Awareness.States.{
  wraps_not, next_state, expected, EntryFits, get-apply_update, get-apply_entries,
}

-- The entry changes nothing in the state that is there.
abbrev IsStale : Option AwarenessUpdateEntry → Option ClientState → Type 0
IsStale none s = Unit
IsStale (some entry) none = ⊥
IsStale (some entry) (some s) = is_newer entry.clock (new_data entry) s ≡ false

no_and : (b : Bool) → (b && false) ≡ false
no_and true = refl
no_and false = refl

stale_again :
    (is_own : Bool) (now clock : ℕ) (new : Option (List ℕ)) (s : Option ClientState)
    → suc clock < 2 ^ 32
    → is_newer clock new (next_state is_own now clock new s) ≡ false
stale_again is_own now clock none none h = ground arith
stale_again is_own now clock (some x) none h = ground arith
stale_again is_own now clock none (some s) h = elim (Bool-cases (is_newer clock none s)) [
  | inl t ↦ elim (Bool-cases (is_own && (is_some s.json && true))) [
    | inl k ↦ rw (t, k, wraps_not clock h) (ground arith)
    | inr k ↦ rw (t, k) (ground arith)
  ]
  | inr t ↦ rw t t
]
stale_again is_own now clock (some x) (some s) h = elim (Bool-cases (is_newer clock (some x) s)) [
  | inl t ↦ rw (t, no_and (is_some s.json), no_and is_own) (ground arith)
  | inr t ↦ rw t t
]

expected-IsStale :
    (is_own : Bool) (now : ℕ) (entry : Option AwarenessUpdateEntry) (s : Option ClientState)
    → EntryFits entry
    → IsStale entry (expected is_own now entry s)
expected-IsStale is_own now none s h = tt
expected-IsStale is_own now (some entry) s h =
    stale_again is_own now entry.clock (new_data entry) s h

apply_entry-IsStale :
    (own now : ℕ) (gen : Bool) (client : ℕ) (entry : AwarenessUpdateEntry) (states : States)
    (l : Lists)
    → IsStale (some entry) (get client states)
    → apply_entry own now gen client entry.clock (new_data entry) (states, l) ≡ (states, l)
unfolding apply_entry
apply_entry-IsStale own now gen client entry states l h = elim (Option-cases (get client states)) [
  | inl e ↦ absurd (rw e at h)
  | inr (s, e) ↦
      let same : is_newer entry.clock (new_data entry) s ≡ false = rw e at h in
      rw (apply_entry, e, same) refl
]

-- Entries that change nothing.
apply_entries-IsStale :
    (own now : ℕ) (gen : Bool) (u : AwarenessUpdate) (states : States) (l : Lists)
    → IsUnique u
    → ((j : ℕ) → IsStale (get j u) (get j states))
    → apply_entries own now gen u (states, l) ≡ (states, l)
unfolding apply_entries get
apply_entries-IsStale own now gen [] states l h stale = refl
apply_entries-IsStale own now gen ((client, entry) ∷ u) states l h stale =
    let self : (client == client) ≡ true = (==_iff client client).1 refl in
    let here : IsStale (some entry) (get client states) = rw self at (stale client) in
    rw (apply_entries, apply_entry-IsStale own now gen client entry states l here)
      (apply_entries-IsStale own now gen u states l h.1 (λ j. elim (Bool-cases (client == j)) [
        | inl k ↦ rw (rw ((==_iff client j).0 k) at h.0) tt
        | inr k ↦ rw k at (stale j)
      ]))

-- Where an update lists every client once and its clocks are below 2 ^ 32 - 1, applying it a
-- second time, at any time, changes no state, fires no event and returns no summary.
pub apply_update-twice :
    (a : Awareness) (now later : ℕ) (gen : Bool) (u : AwarenessUpdate)
    → IsUnique u
    → ((j : ℕ) → EntryFits (get j u))
    → let b = (apply_update_internal a now gen u).after in
      apply_update_internal b later gen u
      ≡ record { after = b; change = none; update = none; summary = none }
unfolding apply_update_internal
apply_update-twice a now later gen u h fits =
    let done = (apply_entries a.client_id now gen u (a.states, no_lists)).0 in
    let again : apply_entries a.client_id later gen u (done, no_lists) ≡ (done, no_lists) =
      apply_entries-IsStale a.client_id later gen u done no_lists h (λ j.
        rw (get-apply_entries a.client_id now gen u a.states no_lists j h)
          (expected-IsStale (j == a.client_id) now (get j u) (get j a.states) (fits j))) in
    rw (apply_update_internal, again) refl

-- What other clients see of a state: its clock and its data.
abbrev pub view : Option ClientState → Option (ℕ × Option (List ℕ))
view none = none
view (some s) = some (s.clock, s.json)

-- Two texts are the same; one of them may be a removal.
abbrev SameText : Option (List ℕ) → Option (List ℕ) → Type 0
SameText (some x) (some y) = x ≡ y
SameText (some x) none = Unit
SameText none y = Unit

-- Two entries with the same clock do not have different data; one of them may be a removal.
abbrev pub Agree : Option AwarenessUpdateEntry → Option AwarenessUpdateEntry → Type 0
Agree none f = Unit
Agree (some e) none = Unit
Agree (some e) (some f) = e.clock ≡ f.clock → SameText (new_data e) (new_data f)

two_entries :
    (now later : ℕ) (c d : ℕ) (x y : Option (List ℕ)) (s : Option ClientState)
    → (c ≡ d → SameText x y)
    → view (some (next_state false later d y (some (next_state false now c x s))))
      ≡ view (some (next_state false later c x (some (next_state false now d y s))))
two_entries now later c d none none none h = ground arith
two_entries now later c d none (some y) none h = ground arith
two_entries now later c d (some x) none none h = ground arith
two_entries now later c d (some x) (some y) none h = elim (Bool-cases (c == d)) [
  | inl e ↦ let same = (==_iff c d).0 e in rw (same, h same) (ground arith)
  | inr e ↦ ground arith
]
two_entries now later c d none none (some s) h = ground arith
two_entries now later c d none (some y) (some s) h = ground arith
two_entries now later c d (some x) none (some s) h = ground arith
two_entries now later c d (some x) (some y) (some s) h = elim (Bool-cases (c == d)) [
  | inl e ↦ let same = (==_iff c d).0 e in rw (same, h same) (ground arith)
  | inr e ↦ ground arith
]

two_expected :
    (now later : ℕ) (e f : Option AwarenessUpdateEntry) (s : Option ClientState)
    → Agree e f
    → view (expected false later f (expected false now e s))
      ≡ view (expected false later e (expected false now f s))
two_expected now later none none s h = refl
two_expected now later none (some f) none h = refl
two_expected now later none (some f) (some s) h = ground arith
two_expected now later (some e) none none h = refl
two_expected now later (some e) none (some s) h = ground arith
two_expected now later (some e) (some f) s h =
    two_entries now later e.clock f.clock (new_data e) (new_data f) s h

after_two :
    (a : Awareness) (now later : ℕ) (gen : Bool) (u v : AwarenessUpdate) (j : ℕ)
    → IsUnique u
    → IsUnique v
    → get j
        (apply_update_internal (apply_update_internal a now gen u).after later gen v).after.states
      ≡ expected
          (j == a.client_id)
          later
          (get j v)
          (expected (j == a.client_id) now (get j u) (get j a.states))
unfolding apply_update_internal
after_two a now later gen u v j hu hv =
    get-apply_update (apply_update_internal a now gen u).after later gen v j hv
    ∙ ap (λ s. expected (j == a.client_id) later (get j v) s) (get-apply_update a now gen u j hu)

-- For a client that is not the local one, two updates that list every client once, and whose
-- entries for it do not have the same clock with different data, leave the same clock and data for
-- it in either order.
pub apply_update-swap :
    (a : Awareness) (now later : ℕ) (gen : Bool) (u v : AwarenessUpdate) (j : ℕ)
    → IsUnique u
    → IsUnique v
    → (j == a.client_id) ≡ false
    → Agree (get j u) (get j v)
    → view (
        get j
          (apply_update_internal
            (apply_update_internal a now gen u).after
            later
            gen
            v).after.states)
      ≡ view (
          get j
            (apply_update_internal
              (apply_update_internal a now gen v).after
              later
              gen
              u).after.states)
apply_update-swap a now later gen u v j hu hv remote agree =
    rw (after_two a now later gen u v j hu hv, after_two a now later gen v u j hv hu, remote)
      (two_expected now later (get j u) (get j v) (get j a.states) agree)
