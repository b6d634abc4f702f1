-- ===== src/Awareness/Publish.antt =====
-- yrs/src/sync/awareness.rs: the updates that an instance makes, and what they bring to another.
use y_crdt.Awareness.{
  null_str, same_text, json_at, is_some, ClientState, States, Awareness, AwarenessUpdateEntry,
  AwarenessUpdate, entry_of, collect_entries, update_with_clients, online, update,
}
use y_crdt.Common.{
  is_among, sym, ℕ, ◌≡◌, refl, ◌∙◌, Bool, true, false, ◌&&◌, Option, none, some, List, [], ◌∷◌,
  ◌==◌, if◌then◌else◌, arith, Bool-cases, Option-cases, inl, inr, ==_iff,
}
use y_crdt.BTree.{get}
use y_crdt.HashMap.{put, IsUnique, get-put, put-IsUnique}
use y_crdt.Awareness.Apply.{apply_update_internal}
use y_crdt.Awareness.States.{expected, get-apply_update}
use y_crdt.Awareness.Converge.{view}

abbrev pub all_known : States → List ℕ → Bool
all_known states [] = true
all_known states (client ∷ clients) = is_some (get client states) && all_known states clients

is_some-collect_entries :
    (states : States) (res : AwarenessUpdate) (clients : List ℕ)
    → is_some (collect_entries states res clients) ≡ all_known states clients
unfolding collect_entries
is_some-collect_entries states res [] = refl
is_some-collect_entries states res (client ∷ clients) = elim (Option-cases (get client states)) [
  | inl e ↦ rw (collect_entries, e) refl
  | inr (s, e) ↦
      rw (collect_entries, e) (is_some-collect_entries states (put client (entry_of s) res) clients)
]

-- update_with_clients makes an update if the instance has a state for every client it is asked for,
-- and fails otherwise.
pub is_some-update_with_clients :
    (a : Awareness) (clients : List ℕ)
    → is_some (update_with_clients a clients) ≡ all_known a.states clients
unfolding update_with_clients
is_some-update_with_clients a clients = is_some-collect_entries a.states [] clients

-- The entry that an update has for a client with the given state.
abbrev pub published : Option ClientState → Option AwarenessUpdateEntry
published none = none
published (some s) = some (entry_of s)

get-collect_entries :
    (states : States) (res u : AwarenessUpdate) (clients : List ℕ) (j : ℕ)
    → collect_entries states res clients ≡ some u
    → get j u ≡ (if is_among j clients then published (get j states) else get j res)
unfolding collect_entries
get-collect_entries states res u [] j h = let same : res ≡ u = cc in rw same refl
get-collect_entries states res u (client ∷ clients) j h = elim (Option-cases (get client states)) [
  | inl e ↦ let never : none ≡ some u = rw (collect_entries, e) at h in absurd (cc)
  | inr (s, e) ↦
      let ih =
        get-collect_entries states (put client (entry_of s) res) u clients j
          (rw (collect_entries, e) at h) in
      elim (Bool-cases (client == j)) [
        | inl k ↦
            let here : get j states ≡ some s = rw ((==_iff client j).0 k) at e in
            rw (ih, get-put res client j (entry_of s), k, here) (ground arith)
        | inr k ↦ rw (ih, get-put res client j (entry_of s), k) refl
      ]
]

collect_entries-IsUnique :
    (states : States) (res u : AwarenessUpdate) (clients : List ℕ)
    → IsUnique res
    → collect_entries states res clients ≡ some u
    → IsUnique u
unfolding collect_entries
collect_entries-IsUnique states res u [] i h = let same : res ≡ u = cc in rw (sym same) i
collect_entries-IsUnique states res u (client ∷ clients) i h =
    elim (Option-cases (get client states)) [
      | inl e ↦ let never : none ≡ some u = rw (collect_entries, e) at h in absurd (cc)
      | inr (s, e) ↦
          collect_entries-IsUnique states (put client (entry_of s) res) u clients
            (put-IsUnique res client (entry_of s) i) (rw (collect_entries, e) at h)
    ]

-- What update_with_clients makes lists every client once, has an entry with the clock and the data
-- of the state for each of the given clients, and no other entry.
pub get-update_with_clients :
    (a : Awareness) (clients : List ℕ) (u : AwarenessUpdate)
    → update_with_clients a clients ≡ some u
    → IsUnique u
      × ((j : ℕ) → get j u ≡ (if is_among j clients then published (get j a.states) else none))
unfolding update_with_clients get
get-update_with_clients a clients u h = (
  collect_entries-IsUnique a.states [] u clients tt h,
  λ j. get-collect_entries a.states [] u clients j h,
)

is_among-online :
    (states : States) (j : ℕ)
    → IsUnique states
    → is_among j (online states) ≡ is_some (json_at (get j states))
unfolding get
is_among-online [] j h = refl
is_among-online ((client, s) ∷ states) j h =
    let ih = is_among-online states j h.1 in
    elim (Bool-cases (client == j)) [
      | inl k ↦
          let gone : get j states ≡ none = rw ((==_iff client j).0 k) at h.0 in
          let off : is_among j (online states) ≡ false = rw gone at ih in
          elim (Bool-cases (is_some s.json)) [
            | inl d ↦ rw (d, k) (sym d)
            | inr d ↦ rw (d, k, off) (sym d)
          ]
      | inr k ↦ elim (Bool-cases (is_some s.json)) [ inl d ↦ rw (d, k) ih | inr d ↦ rw (d, k) ih ]
    ]

all_known-put_first :
    (client : ℕ) (s : ClientState) (states : States) (clients : List ℕ)
    → all_known states clients ≡ true
    → all_known ((client, s) ∷ states) clients ≡ true
unfolding get
all_known-put_first client s states [] h = refl
all_known-put_first client s states (c ∷ clients) h = elim (Bool-cases (is_some (get c states))) [
  | inl k ↦ let ih = all_known-put_first client s states clients (rw k at h) in ground (arith, ih)
  | inr k ↦ absurd (let no : false ≡ true = rw k at h in cc)
]

all_known-online : (states : States) → all_known states (online states) ≡ true
unfolding get
all_known-online [] = refl
all_known-online ((client, s) ∷ states) =
    let ih = all_known-put_first client s states (online states) (all_known-online states) in
    elim (Bool-cases (is_some s.json)) [
      | inl d ↦ rw (d, (==_iff client client).1 refl) ih
      | inr d ↦ rw d ih
    ]

-- The data is the text `null`.
abbrev pub says_null : Option (List ℕ) → Bool
says_null none = false
says_null (some json) = same_text json null_str

one_entry :
    (now : ℕ) (is_own : Bool) (s : Option ClientState)
    → says_null (json_at s) ≡ false
    → view (expected is_own now (if is_some (json_at s) then published s else none) none)
      ≡ (if is_some (json_at s) then view s else none)
one_entry now is_own none h = refl
one_entry now is_own (some s) h = elim (Option-cases s.json) [
  | inl e ↦ rw e refl
  | inr (x, e) ↦ let no : same_text x null_str ≡ false = rw e at h in rw (e, no) refl
]

-- For an instance that has every client once and no state with the text null as its data, update
-- succeeds, and an instance without states that applies what it returns gets the clock and the
-- data of every client that has data, and no other client.
pub apply_update-update :
    (a b : Awareness) (now : ℕ) (gen : Bool)
    → IsUnique a.states
    → b.states ≡ []
    → ((j : ℕ) → says_null (json_at (get j a.states)) ≡ false)
    → (u : AwarenessUpdate) × (update a ≡ some u)
      × ((j : ℕ)
          → view (get j (apply_update_internal b now gen u).after.states)
            ≡ (if is_some (json_at (get j a.states)) then view (get j a.states) else none))
unfolding update get
apply_update-update a b now gen h fresh texts =
    let known = is_some-update_with_clients a (online a.states) ∙ all_known-online a.states in
    elim (Option-cases (update_with_clients a (online a.states))) [
      | inl e ↦ absurd (let no : false ≡ true = rw e at known in cc)
      | inr (u, e) ↦
          let made = get-update_with_clients a (online a.states) u e in
          (
            u,
            e,
            λ j.
                rw
                  (
                    get-apply_update b now gen u j made.0,
                    made.1 j,
                    fresh,
                    is_among-online a.states j h,
                  )
                  (one_entry now (j == b.client_id) (get j a.states) (texts j)),
          )
    ]
