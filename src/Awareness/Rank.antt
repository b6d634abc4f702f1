-- ===== src/Awareness/Rank.antt =====
-- yrs/src/sync/awareness.rs: of the state of a remote client and the entry of an update, the newer one
-- stays, where a removal is newer than data of the same clock.
use y_crdt.Common.{
  ℕ, ◌+◌, ◌*◌, ◌≤◌, ◌<◌, ◌≡◌, ◌≢◌, ◌⊎◌, refl, ◌∙◌, Bool, true, false, Option, none, some, List, [],
  ◌∷◌, ltb, ◌==◌, arith, tests, Bool-cases, Option-cases, inl, inr,
}
use mathlib.Core.Path.{subst}
use y_crdt.BTree.{get}
use y_crdt.HashMap.{IsUnique}
use y_crdt.Awareness.{
  Awareness, AwarenessUpdate, AwarenessUpdateEntry, ClientState, null_str, same_text,
}
use y_crdt.Awareness.Apply.{new_data, is_newer, apply_update_internal}
use y_crdt.Awareness.States.{expected, get-apply_update}

-- How new data are: by their clock, and at one clock a removal after a text.
abbrev pub rank : ℕ → Option (List ℕ) → ℕ
rank clock none = 2 * clock + 1
rank clock (some text) = 2 * clock

-- The data that the text of an entry stands for.
abbrev pub Means : List ℕ → Option (List ℕ) → Type 0
Means json none = json ≡ null_str
Means json (some text) = (json ≢ null_str) × (text ≡ json)

-- What becomes of the state of a client by an entry that an update may have for it.
abbrev pub IsNewest :
    ℕ → Option AwarenessUpdateEntry → Option ClientState → Option ClientState → Type 0
IsNewest now none old new = new ≡ old
IsNewest now (some entry) none new =
    (json : Option (List ℕ)) × Means entry.json json
    × (new ≡ some (record { clock = entry.clock; last_updated = now; json = json }))
IsNewest now (some entry) (some s) new =
    (json : Option (List ℕ)) × Means entry.json json
    × (((rank s.clock s.json < rank entry.clock json)
          × (new ≡ some (record { clock = entry.clock; last_updated = now; json = json })))
        ⊎ ((rank entry.clock json ≤ rank s.clock s.json) × (new ≡ some s)))

same_text_iff_true : (x y : List ℕ) → same_text x y ≡ true → x ≡ y
same_text_iff_true [] [] h = refl
same_text_iff_true [] (b ∷ y) h = absurd (cc)
same_text_iff_true (a ∷ x) [] h = absurd (cc)
same_text_iff_true (a ∷ x) (b ∷ y) h = ground (arith, same_text_iff_true x y)

same_text_refl : (x : List ℕ) → same_text x x ≡ true
same_text_refl [] = refl
same_text_refl (a ∷ x) = ground (arith, same_text_refl x)

new_data-Means : (entry : AwarenessUpdateEntry) → Means entry.json (new_data entry)
new_data-Means entry = elim (Bool-cases (same_text entry.json null_str)) [
  | inl e ↦ rw e (same_text_iff_true entry.json null_str e)
  | inr e ↦ rw e (
    λ same. absurd (
        let yes : same_text entry.json null_str ≡ true =
          subst (λ x. same_text entry.json x ≡ true) same (same_text_refl entry.json) in
        cc),
    refl,
  )
]

is_newer-rank :
    (clock : ℕ) (json : Option (List ℕ)) (s : ClientState)
    → is_newer clock json s ≡ ltb (rank s.clock s.json) (rank clock json)
is_newer-rank clock none s = elim (Option-cases s.json) [
  | inl e ↦ rw e (ground arith)
  | inr (x, e) ↦ rw e (ground arith)
]
is_newer-rank clock (some y) s = elim (Option-cases s.json) [
  | inl e ↦ rw e (ground arith)
  | inr (x, e) ↦ rw e (ground arith)
]

expected-IsNewest :
    (now : ℕ) (entry : Option AwarenessUpdateEntry) (s : Option ClientState)
    → IsNewest now entry s (expected false now entry s)
expected-IsNewest now none s = refl
expected-IsNewest now (some entry) none = (new_data entry, new_data-Means entry, refl)
expected-IsNewest now (some entry) (some s) = (new_data entry, new_data-Means entry, decide)
  where
    decide :
        ((rank s.clock s.json < rank entry.clock (new_data entry))
          × (expected false now (some entry) (some s)
              ≡ some (record { clock = entry.clock; last_updated = now; json = new_data entry })))
        ⊎ ((rank entry.clock (new_data entry) ≤ rank s.clock s.json)
            × (expected false now (some entry) (some s) ≡ some s))
    decide =
        let same = is_newer-rank entry.clock (new_data entry) s in
        elim (Bool-cases (ltb (rank s.clock s.json) (rank entry.clock (new_data entry)))) [
          | inl e ↦ inl (omega tests, let newer = same ∙ e in rw newer refl)
          | inr e ↦ inr (omega tests, let newer = same ∙ e in rw newer refl)
        ]

-- Of the state of a client other than the local one, after applying an update that lists every
-- client once: without an entry it is what it was; with one, it is the state that was there or the
-- one that the entry tells, whichever is newer by its clock, and at one clock a removal is newer
-- than a text; where no state was there, it is the one that the entry tells. An entry tells a
-- removal if and only if its text is null.
pub apply_update-IsNewest :
    (a : Awareness) (now : ℕ) (gen : Bool) (u : AwarenessUpdate) (j : ℕ)
    → IsUnique u
    → j ≢ a.client_id
    → IsNewest now
        (get j u)
        (get j a.states)
        (get j (apply_update_internal a now gen u).after.states)
apply_update-IsNewest a now gen u j unique remote =
    let other : (j == a.client_id) ≡ false = ground arith in
    let step = get-apply_update a now gen u j unique in
    rw step (rw other (expected-IsNewest now (get j u) (get j a.states)))
