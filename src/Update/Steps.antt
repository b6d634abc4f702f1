-- ===== src/Update/Steps.antt =====
-- yrs/src/update.rs: what `BlockPicker::next` and `BlockPicker::switch` do to the blocks of the picker.
use y_crdt.Common.{
  ℕ, ◌+◌, ◌≡◌, ◌⊎◌, refl, ap, ◌∙◌, Bool, Option, none, some, List, [], ◌∷◌, ◌==◌, if◌then◌else◌,
  arith, Bool-cases, Option-cases, inl, inr,
}
use y_crdt.BTree.{get, remove}
use y_crdt.HashMap.{put}
use y_crdt.Update.Counts.{
  count, count_all, count_latest, count_all-remove, Found-cases, List-cases, Latest-cases,
}
use y_crdt.Update.{
  UpdateBlock, BlockPicker, next_client, next_from, next, latest_blocks, take_latest, give_up,
}

next-next_from :
    (p : BlockPicker) {stack : List UpdateBlock} {latest : Option (ℕ × List UpdateBlock)}
    → p.stack ≡ stack
    → p.latest ≡ latest
    → next p ≡ next_from stack latest p
unfolding next
next-next_from p {stack} e l = ap (λ s. next_from s p.latest p) e ∙ ap (λ o. next_from stack o p) l

-- The four ways of `next`: the stack, the latest client, or the next client.
pub Next-cases :
    (p : BlockPicker)
    → ((b : UpdateBlock) × (rest : List UpdateBlock) × (p.stack ≡ b ∷ rest)
        × (next p ≡ (some b, record p { stack = rest })))
      ⊎ (((c : ℕ) × (b : UpdateBlock) × (rest : List UpdateBlock) × (p.stack ≡ [])
            × (p.latest ≡ some (c, b ∷ rest))
            × (next p ≡ (some b, record p { latest = some (c, rest) })))
          ⊎ ((p.stack ≡ [])
              × ((c : ℕ) → latest_blocks c p.latest ≡ [])
              × ((P : UpdateBlock → Bool) → count_latest P p.latest ≡ 0)
              × (next p ≡ next_client p.clients p)))
Next-cases p = elim (List-cases p.stack) [
  | inl e ↦ elim (Latest-cases p.latest) [
    | inl l ↦ inr (inr (e, (λ c. rw l refl), (λ P. rw l refl), next-next_from p e l))
    | inr (inl (c, l)) ↦
        inr (inr (e, (λ d. rw l (ground arith)), (λ P. rw l refl), next-next_from p e l))
    | inr (inr (c, b, rest, l)) ↦ inr (inl (c, b, rest, e, l, next-next_from p e l))
  ]
  | inr (b, rest, e) ↦ inl (b, rest, e, next-next_from p e refl)
]

-- The blocks of a client that have not been taken yet, as `switch` looks for them.
abbrev pub pool : ℕ → BlockPicker → List UpdateBlock
pool c p = elim (get c p.store) [ none ↦ latest_blocks c p.latest | some bs ↦ bs ]

next_client-unapplicable :
    (cs : List ℕ) (p : BlockPicker) → (next_client cs p).1.unapplicable ≡ p.unapplicable
unfolding next_client
next_client-unapplicable [] p = refl
next_client-unapplicable (c ∷ cs) p = elim (Found-cases (get c p.store)) [
  | inl e ↦ rw (next_client, e) (next_client-unapplicable cs (record p { latest = none }))
  | inr (inl e) ↦
      rw (next_client, e)
        (next_client-unapplicable cs (record p { latest = some (c, []); store = remove c p.store }))
  | inr (inr (b, rest, e)) ↦ rw (next_client, e) refl
]

pub next-unapplicable : (p : BlockPicker) → (next p).1.unapplicable ≡ p.unapplicable
next-unapplicable p = elim (Next-cases p) [
  | inl (b, rest, e, n) ↦ ap (λ x. x.1.unapplicable) n
  | inr (inl (c, b, rest, e, l, n)) ↦ ap (λ x. x.1.unapplicable) n
  | inr (inr (e, z, y, n)) ↦ ap (λ x. x.1.unapplicable) n ∙ next_client-unapplicable p.clients p
]

module _ (P : UpdateBlock → Bool) where
  -- The blocks that have not been taken yet.
  abbrev pub waiting : BlockPicker → ℕ
  waiting p = count_all P p.store + count_latest P p.latest

  abbrev pub head_count : Option UpdateBlock → ℕ
  head_count none = 0
  head_count (some b) = if P b then 1 else 0

  pub next_client-waiting :
      (cs : List ℕ) (p : BlockPicker)
      → count_latest P p.latest ≡ 0
      → ((next_client cs p).1.stack ≡ p.stack)
        × (waiting (next_client cs p).1 + head_count (next_client cs p).0 ≡ waiting p)
  unfolding next_client
  next_client-waiting [] p z = (refl, omega arith)
  next_client-waiting (c ∷ cs) p z =
      let part = count_all-remove P c p.store in
      elim (Found-cases (get c p.store)) [
        | inl e ↦
            rw (next_client, e)
              (let ih = next_client-waiting cs (record p { latest = none }) refl in
                (ih.0, omega (arith, ih.1)))
        | inr (inl e) ↦
            let ih =
              next_client-waiting cs (record p { latest = some (c, []); store = remove c p.store })
                refl in
            let gone : count_all P (remove c p.store) + 0 ≡ count_all P p.store = (rw e at part) in
            rw (next_client, e) (ih.0, omega (arith, ih.1, gone))
        | inr (inr (b, rest, e)) ↦
            let gone : count_all P (remove c p.store) + count P (b ∷ rest) ≡ count_all P p.store =
              (rw e at part) in
            rw (next_client, e) (refl, omega (arith, gone))
      ]

  pub next-waiting :
      (p : BlockPicker)
      → waiting (next p).1 + count P (next p).1.stack + head_count (next p).0
        ≡ waiting p + count P p.stack
  next-waiting p = elim (Next-cases p) [
    | inl (b, rest, e, n) ↦ rw (n, e) (omega arith)
    | inr (inl (c, b, rest, e, l, n)) ↦ rw (n, e, l) (omega arith)
    | inr (inr (e, z, y, n)) ↦
        let ih = next_client-waiting p.clients p (y P) in rw (n, ih.0) (omega (arith, ih.1))
  ]

  take_latest-count :
      (c : ℕ) (l : Option (ℕ × List UpdateBlock))
      → count_latest P (take_latest c l) + count P (latest_blocks c l) ≡ count_latest P l
  take_latest-count c none = refl
  take_latest-count c (some (d, bs)) = elim (Bool-cases (d == c)) [
    | inl e ↦ rw e (omega arith)
    | inr e ↦ rw e (omega arith)
  ]

  pub give_up-waiting :
      (b : UpdateBlock) (p : BlockPicker)
      → ((give_up b p).stack ≡ p.stack)
        × (waiting (give_up b p) + count P (pool b.client p) ≡ waiting p)
        × ((give_up b p).unapplicable ≡ put b.client (b ∷ pool b.client p) p.unapplicable)
  unfolding give_up
  give_up-waiting b p = elim (Option-cases (get b.client p.store)) [
    | inl e ↦
        let part = take_latest-count b.client p.latest in
        rw (give_up, pool, e) (refl, omega (arith, part), refl)
    | inr (bs, e) ↦
        let part : count_all P (remove b.client p.store) + count P bs ≡ count_all P p.store =
          (rw e at (count_all-remove P b.client p.store)) in
        rw (give_up, pool, e) (refl, omega (arith, part), refl)
  ]
