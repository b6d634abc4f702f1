-- ===== src/Update/Drain.antt =====
-- yrs/src/update.rs: the blocks that `BlockPicker::switch` gives up go to `unapplicable`.
use y_crdt.Common.{
  ℕ, ◌+◌, ◌≡◌, refl, sym, ap, ◌∙◌, Bool, true, false, ◌||◌, Option, none, some, List, [], ◌∷◌, ◌++◌,
  ◌==◌, if◌then◌else◌, arith, ==_iff, Bool-cases, Option-cases, inl, inr,
}
use mathlib.Core.Path.{subst}
use mathlib.Core.List.{append_assoc, append-nil}
use y_crdt.BTree.{get, remove}
use y_crdt.HashMap.{put, get-put, get-remove, remove-IsUnique}
use y_crdt.Update.Counts.{count, count_all, count_all-put}
use y_crdt.Update.Steps.{waiting, give_up-waiting, pool}
use y_crdt.Update.Sound.{IsSound, AllOf, IsDistinct, other_key, get-remove-some}
use y_crdt.Update.{
  UpdateBlock, BlockPicker, latest_blocks, take_latest, give_up, drain_stack, has_client,
}

has_client-append :
    (k : ℕ) (xs ys : List UpdateBlock)
    → has_client k (xs ++ ys) ≡ (has_client k xs || has_client k ys)
has_client-append k [] ys = refl
has_client-append k (x ∷ xs) ys = elim (Bool-cases (x.client == k)) [
  | inl e ↦ rw e refl
  | inr e ↦ rw e (has_client-append k xs ys)
]

-- The last of some distinct blocks has a client that the others do not have.
IsDistinct-last :
    (xs : List UpdateBlock) (b : UpdateBlock)
    → IsDistinct (xs ++ b ∷ [])
    → IsDistinct xs × (has_client b.client xs ≡ false)
IsDistinct-last [] b d = (tt, refl)
IsDistinct-last (x ∷ xs) b d =
    let ih = IsDistinct-last xs b d.1 in
    let part = has_client-append x.client xs (b ∷ []) in
    let none : has_client x.client xs || has_client x.client (b ∷ []) ≡ false = sym part ∙ d.0 in
    ground (arith, ih)

latest_blocks-take_latest :
    (c k : ℕ) (l : Option (ℕ × List UpdateBlock))
    → latest_blocks k (take_latest c l) ≡ (if c == k then [] else latest_blocks k l)
latest_blocks-take_latest c k none = ground arith
latest_blocks-take_latest c k (some (d, bs)) = ground arith

has_client-last :
    (b : UpdateBlock) (xs : List UpdateBlock) → has_client b.client (xs ++ b ∷ []) ≡ true
has_client-last b [] = ground arith
has_client-last b (x ∷ xs) = ground (arith, has_client-last b xs)

has_client-others :
    (k : ℕ) (xs ys : List UpdateBlock) → has_client k (xs ++ ys) ≡ false → has_client k xs ≡ false
has_client-others k [] ys h = refl
has_client-others k (x ∷ xs) ys h = ground (arith, has_client-others k xs ys)

-- `take_latest` keeps the client.
take_latest-some :
    (c d : ℕ) (l : Option (ℕ × List UpdateBlock)) (bs : List UpdateBlock)
    → take_latest c l ≡ some (d, bs)
    → (xs : List UpdateBlock) × (l ≡ some (d, xs)) × (AllOf d xs → AllOf d bs)
take_latest-some c d none bs e = absurd (cc)
take_latest-some c d (some (k, xs)) bs e =
    let client : k ≡ d = cc in
    let blocks : (if k == c then [] else xs) ≡ bs = cc in
    (
      xs,
      rw client refl,
      elim (Bool-cases (k == c)) [
        | inl q ↦ λ a. subst (λ ys. AllOf d ys) (rw q at blocks) tt
        | inr q ↦ λ a. subst (λ ys. AllOf d ys) (rw q at blocks) a
      ],
    )

-- Nothing is left of the latest client if the store has blocks of it.
latest_blocks-none :
    (p : BlockPicker) (held : List UpdateBlock) (k : ℕ) {v : List UpdateBlock}
    → IsSound p held
    → get k p.store ≡ some v
    → latest_blocks k p.latest ≡ []
latest_blocks-none p held k s e = elim (Option-cases p.latest) [
  | inl l ↦ rw l refl
  | inr ((c, bs), l) ↦ elim (Bool-cases (c == k)) [
    | inl q ↦ let same = (==_iff c k).0 q in let taken = s.latest_taken c bs l in absurd (cc)
    | inr q ↦ rw (l, q) refl
  ]
]

pub get-put_other :
    {V : Type 0} (m : List (ℕ × V)) (c k : ℕ) (v : V)
    → (c == k) ≡ false
    → get k m ≡ none
    → get k (put c v m) ≡ none
get-put_other m c k v q n = rw (get-put m c k v, q) n

give_up_latest-IsSound :
    (b : UpdateBlock) (held new : List UpdateBlock) (p : BlockPicker)
    → IsSound p (held ++ b ∷ [])
    → get b.client p.store ≡ none
    → IsSound
        (record p {
          latest = take_latest b.client p.latest;
          unapplicable = put b.client new p.unapplicable;
        })
        held
give_up_latest-IsSound b held new p s e =
    let last = IsDistinct-last held b s.distinct in
    record {
      unique = s.unique;
      known = s.known;
      keyed = s.keyed;
      latest_keyed = λ c bs l.
          let (xs, old, keep) = take_latest-some b.client c p.latest bs l in
          keep (s.latest_keyed c xs old);
      latest_taken = λ c bs l.
          let (xs, old, keep) = take_latest-some b.client c p.latest bs l in
          s.latest_taken c xs old;
      apart = λ k.
          let left = latest_blocks-take_latest b.client k p.latest in
          elim (Bool-cases (b.client == k)) [
            | inl q ↦
                let same = (==_iff b.client k).0 q in
                inr (
                  subst (λ j. get j p.store ≡ none) same e,
                  left ∙ rw q refl,
                  subst (λ j. has_client j held ≡ false) same last.1,
                )
            | inr q ↦ elim (s.apart k) [
              | inl n ↦ inl (get-put_other p.unapplicable b.client k new q n)
              | inr (n, l, h) ↦ inr (n, left ∙ rw q l, has_client-others k held (b ∷ []) h)
            ]
          ];
      distinct = last.0;
    }

give_up_stored-IsSound :
    (b : UpdateBlock) (held new bs : List UpdateBlock) (p : BlockPicker)
    → IsSound p (held ++ b ∷ [])
    → get b.client p.store ≡ some bs
    → IsSound
        (record p {
          store = remove b.client p.store;
          unapplicable = put b.client new p.unapplicable;
        })
        held
give_up_stored-IsSound b held new bs p s e =
    let last = IsDistinct-last held b s.distinct in
    let gone : (k : ℕ)
        → get k (remove b.client p.store) ≡ (if b.client == k then none else get k p.store) =
      λ k. get-remove p.store b.client k s.unique in
    let still : (k : ℕ) → get k p.store ≡ none → get k (remove b.client p.store) ≡ none =
      λ k n. gone k ∙ rw (other_key p.store b.client k e n) n in
    record {
      unique = remove-IsUnique p.store b.client s.unique;
      known = λ k. elim (s.known k) [ inl n ↦ inl (still k n) | inr h ↦ inr h ];
      keyed = λ k xs f. s.keyed k xs (get-remove-some p.store b.client k xs s.unique f);
      latest_keyed = s.latest_keyed;
      latest_taken = λ c xs l. still c (s.latest_taken c xs l);
      apart = λ k. elim (Bool-cases (b.client == k)) [
        | inl q ↦
            let same = (==_iff b.client k).0 q in
            inr (
              gone k ∙ rw q refl,
              subst (λ j. latest_blocks j p.latest ≡ []) same
                  (latest_blocks-none p (held ++ b ∷ []) b.client s e),
              subst (λ j. has_client j held ≡ false) same last.1,
            )
        | inr q ↦ elim (s.apart k) [
          | inl n ↦ inl (get-put_other p.unapplicable b.client k new q n)
          | inr (n, l, h) ↦ inr (still k n, l, has_client-others k held (b ∷ []) h)
        ]
      ];
      distinct = last.0;
    }

-- A block that is given up leaves the picker sound, and its client had no blocks given up before.
give_up-IsSound :
    (b : UpdateBlock) (held : List UpdateBlock) (p : BlockPicker)
    → IsSound p (held ++ b ∷ [])
    → IsSound (give_up b p) held × (get b.client p.unapplicable ≡ none)
unfolding give_up
give_up-IsSound b held p s =
    let own = has_client-last b held in
    let fresh : get b.client p.unapplicable ≡ none = elim (s.apart b.client) [
      | inl n ↦ n
      | inr (n, l, h) ↦ absurd (cc)
    ] in
    elim (Option-cases (get b.client p.store)) [
      | inl e ↦
          rw (give_up, e)
            (give_up_latest-IsSound b held (b ∷ latest_blocks b.client p.latest) p s e, fresh)
      | inr (bs, e) ↦ rw (give_up, e) (give_up_stored-IsSound b held (b ∷ bs) bs p s e, fresh)
    ]

module _ (P : UpdateBlock → Bool) where
  -- The blocks that wait and those that were given up.
  abbrev pub not_past : BlockPicker → ℕ
  not_past p = waiting P p + count_all P p.unapplicable

  pub drain_stack-IsSound :
      (stack held : List UpdateBlock) (p : BlockPicker)
      → IsSound p (held ++ stack)
      → IsSound (drain_stack stack p) held
        × (not_past (drain_stack stack p) ≡ not_past p + count P stack)
  unfolding drain_stack
  drain_stack-IsSound [] held p s = (subst (λ h. IsSound p h) (append-nil held) s, omega arith)
  drain_stack-IsSound (b ∷ stack) held p s =
      let q = drain_stack stack p in
      let ih =
        drain_stack-IsSound stack (held ++ b ∷ []) p
          (subst (λ h. IsSound p h) (sym (append_assoc held (b ∷ []) stack)) s) in
      let step = give_up-IsSound b held q ih.0 in
      let (same, less, new) = give_up-waiting P b q in
      let added = count_all-put P b.client (b ∷ pool b.client q) q.unapplicable in
      let empty : count_all P (put b.client (b ∷ pool b.client q) q.unapplicable) + 0
          ≡ count_all P q.unapplicable + count P (b ∷ pool b.client q) =
        (rw step.1 at added) in
      let moved : count_all P (give_up b q).unapplicable
          ≡ count_all P (put b.client (b ∷ pool b.client q) q.unapplicable) =
        ap (λ m. count_all P m) new in
      (step.0, omega (arith, ih.1, less, moved, empty))
