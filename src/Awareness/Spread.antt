-- ===== src/Awareness/Spread.antt =====
-- yrs/src/sync/awareness.rs: a local state that is set, published and applied elsewhere.
use y_crdt.Common.{
  suc, ℕ, ◌^◌, ◌<◌, ◌≤◌, ◌≡◌, refl, ◌∙◌, Bool, true, false, Option, none, some, List, [], ◌∷◌, ◌==◌,
  ltb, tests, Option-cases, inl, inr, ==_iff,
}
use y_crdt.BTree.{get}
use y_crdt.HashMap.{put, get-put}
use y_crdt.Awareness.{
  ClientState, Awareness, AwarenessUpdate, AwarenessUpdateEntry, same_text, null_str,
  set_local_state_raw, update_with_clients, collect_entries,
}
use y_crdt.Awareness.Apply.{apply_update_internal}
use y_crdt.Awareness.States.{expected, clock_at, wraps_not, get-apply_update}
use y_crdt.Awareness.Converge.{view}

-- The state of the local client after it is set.
abbrev state_set : Awareness → ℕ → List ℕ → ClientState
state_set a now json = record {
  clock = suc (clock_at (get a.client_id a.states));
  last_updated = now;
  json = some json;
}

get-set_local_state_raw :
    (a : Awareness) (now : ℕ) (json : List ℕ)
    → suc (clock_at (get a.client_id a.states)) < 2 ^ 32
    → get a.client_id (set_local_state_raw a now json).after.states ≡ some (state_set a now json)
unfolding set_local_state_raw
get-set_local_state_raw a now json h =
    let self = (==_iff a.client_id a.client_id).1 refl in
    elim (Option-cases (get a.client_id a.states)) [
      | inl e ↦
          rw (set_local_state_raw, e) (get-put a.states a.client_id a.client_id _ ∙ rw self refl)
      | inr (s, e) ↦
          let fits : suc s.clock < 2 ^ 32 = rw e at h in
          rw (set_local_state_raw, e, wraps_not s.clock fits)
            (get-put a.states a.client_id a.client_id _ ∙ rw self refl)
    ]

takes :
    (later clock : ℕ) (json : List ℕ) (s : Option ClientState)
    → clock_at s ≤ clock
    → same_text json null_str ≡ false
    → view (expected false later (some (record { clock = suc clock; json = json })) s)
      ≡ some (suc clock, some json)
takes later clock json none h n = rw n refl
takes later clock json (some s) h n =
    let newer : ltb s.clock (suc clock) ≡ true = omega tests in rw (n, newer) refl

-- When an instance sets its local state to a text other than null, and its clock does not reach
-- the last one, it can publish the state, and another instance that knows no later clock of this
-- client has the new text, and the clock after the old one, once it has applied what was
-- published.
pub set_local_state_raw-spreads :
    (a b : Awareness) (now later : ℕ) (gen : Bool) (json : List ℕ)
    → suc (clock_at (get a.client_id a.states)) < 2 ^ 32
    → same_text json null_str ≡ false
    → (a.client_id == b.client_id) ≡ false
    → clock_at (get a.client_id b.states) ≤ clock_at (get a.client_id a.states)
    → (u : AwarenessUpdate) × (update_with_clients
          (set_local_state_raw a now json).after
          (a.client_id ∷ [])
        ≡ some u)
      × (view (get a.client_id (apply_update_internal b later gen u).after.states)
          ≡ some (suc (clock_at (get a.client_id a.states)), some json))
unfolding update_with_clients collect_entries put get
set_local_state_raw-spreads a b now later gen json fits text other older =
    let self = (==_iff a.client_id a.client_id).1 refl in
    let clock = clock_at (get a.client_id a.states) in
    let entry : AwarenessUpdateEntry = record { clock = suc clock; json = json } in
    let u : AwarenessUpdate = (a.client_id, entry) ∷ [] in
    let mine : get a.client_id u ≡ some entry = rw self refl in
    (
      u,
      rw (update_with_clients, collect_entries, get-set_local_state_raw a now json fits) refl,
      rw (get-apply_update b later gen u a.client_id (refl, tt), mine, other)
          (takes later clock json (get a.client_id b.states) older text),
    )
