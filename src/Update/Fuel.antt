-- ===== src/Update/Fuel.antt =====
-- yrs/src/update.rs: the loop of `Update::integrate` ends.
use y_crdt.Update.{
  set_min, UpdateBlock, BlockMap, BlockPicker, Target, next, drain_stack, has_client, abandon,
  switch, Progress, Outcome, out_of_fuel, failed, finished, local_clock, place_block, look_up,
  integrate_loop, integrate_blocks, new_picker,
}
use y_crdt.Common.{
  List, some, true, Bool, Option, ◌*◌, ℕ, zero, suc, ◌+◌, ◌≤◌, ◌≡◌, ◌≢◌, refl, ◌∙◌, none, [], ◌∷◌,
  arith, Bool-cases, Option-cases, inl, inr, max,
}
use y_crdt.Update.Steps.{waiting, head_count, Next-cases, next_client-waiting, give_up-waiting}
use y_crdt.Update.Counts.{count, count_all, count_all-put, Found-cases, Dependency-cases}
use y_crdt.BTree.{get}
use y_crdt.HashMap.{put}

abbrev pub any : UpdateBlock → Bool
any b = true

-- A block that is not on the stack counts twice: it may be put on the stack once.
abbrev weight : BlockPicker → ℕ
weight p = 2 * waiting any p + count any p.stack

next-weight : (p : BlockPicker) → weight (next p).1 + head_count any (next p).0 ≤ weight p
next-weight p = elim (Next-cases p) [
  | inl (b, rest, e, n) ↦ rw (n, e) (omega arith)
  | inr (inl (c, b, rest, e, l, n)) ↦ rw (n, e, l) (omega arith)
  | inr (inr (e, z, y, n)) ↦
      let ih = next_client-waiting any p.clients p (y any) in rw (n, ih.0) (omega (arith, ih.1))
]

drain_stack-waiting :
    (stack : List UpdateBlock) (p : BlockPicker)
    → ((drain_stack stack p).stack ≡ p.stack) × (waiting any (drain_stack stack p) ≤ waiting any p)
unfolding drain_stack
drain_stack-waiting [] p = (refl, omega arith)
drain_stack-waiting (b ∷ stack) p =
    let ih = drain_stack-waiting stack p in
    let step = give_up-waiting any b (drain_stack stack p) in
    (step.0 ∙ ih.0, omega (arith, ih.1, step.1))

abandon-weight :
    (p : BlockPicker) (c clock : ℕ)
    → weight (abandon p c clock).1 + head_count any (abandon p c clock).0 ≤ 2 * waiting any p
unfolding abandon
abandon-weight p c clock =
    let q : BlockPicker = record p { missing = set_min p.missing c clock } in
    let drained = drain_stack-waiting p.stack q in
    let step = next-weight (record (drain_stack p.stack q) { stack = [] }) in
    omega (arith, drained.1, step)

switch-weight :
    (p : BlockPicker) (b : UpdateBlock) (c : ℕ) (f : ℕ → ℕ)
    → weight (switch p b c f).1 + head_count any (switch p b c f).0 ≤ weight p
unfolding switch
switch-weight p b c f =
    let q : BlockPicker = record p { stack = b ∷ p.stack } in
    let given_up = abandon-weight q c (f c) in
    elim (Found-cases (get c p.store)) [
      | inl e ↦ rw (switch, e) (omega (arith, given_up))
      | inr (inl e) ↦ rw (switch, e) (omega (arith, given_up))
      | inr (inr (d, rest, e)) ↦ elim (Bool-cases (has_client c (b ∷ p.stack))) [
        | inl h ↦ rw (switch, e, h) (omega (arith, given_up))
        | inr h ↦
            let part : count_all any (put c rest p.store) + count any (d ∷ rest)
                ≡ count_all any p.store + count any rest =
              rw e at (count_all-put any c rest p.store) in
            rw (switch, e, h) (omega (arith, part))
      ]
    ]

-- The loop has an outcome, and when it finishes the state has the property.
abbrev pub Ends : {S : Type 0} → (Progress S → Type 0) → Outcome S → Type 0
Ends Q out_of_fuel = ⊥
Ends Q failed = Unit
Ends Q (finished g) = Q g

module _ {S : Type 0} (t : Target S)
    (I : BlockPicker → List UpdateBlock → Option UpdateBlock → Type 0)
    (after_next : (p : BlockPicker) (past : List UpdateBlock) (b : UpdateBlock)
      → I p past (some b)
      → I (next p).1 (b ∷ past) (next p).0)
    (after_switch : (p : BlockPicker) (past : List UpdateBlock) (b : UpdateBlock) (c : ℕ)
        (f : ℕ → ℕ)
      → I p past (some b)
      → I (switch p b c f).1 past (switch p b c f).0) where
  -- A property of the picker, the blocks that have left it and the head, which every step
  -- preserves, holds at the end of the loop.
  pub integrate_loop-invariant :
      (fuel : ℕ) (g : Progress S) (head : Option UpdateBlock)
      → weight g.picker + head_count any head ≤ fuel
      → I g.picker g.past head
      → Ends (λ g'. I g'.picker g'.past none) (integrate_loop t fuel g head)
  unfolding integrate_loop
  integrate_loop-invariant fuel g none h i = i
  integrate_loop-invariant zero g (some b) h i = absurd (omega arith)
  integrate_loop-invariant (suc fuel) g (some b) h i =
      let decrease = next-weight g.picker in
      elim (Bool-cases b.is_skip) [
        | inl e ↦
            rw (integrate_loop, e)
              (integrate_loop-invariant fuel
                (record g { picker = (next g.picker).1; past = b ∷ g.past }) (next g.picker).0
                (omega (arith, decrease)) (after_next g.picker g.past b i))
        | inr e ↦
            elim (Dependency-cases (look_up t g.txn (local_clock t g.txn b.client g.state) b)) [
              | inl m ↦ rw (integrate_loop, e, m) tt
              | inr (inl (c, s, m)) ↦
                  rw (integrate_loop, e, m)
                    (integrate_loop-invariant fuel
                      (record g {
                        txn = s;
                        state = put b.client (local_clock t g.txn b.client g.state) g.state;
                        picker = (switch g.picker b c (t.get_clock s)).1;
                      })
                      (switch g.picker b c (t.get_clock s)).0
                      (omega (arith, switch-weight g.picker b c (t.get_clock s)))
                      (after_switch g.picker g.past b c (t.get_clock s) i))
              | inr (inr (s, m)) ↦
                  elim (Option-cases (place_block t s (local_clock t g.txn b.client g.state) b)) [
                    | inl q ↦ rw (integrate_loop, e, m, q) tt
                    | inr (s', q) ↦
                        rw (integrate_loop, e, m, q)
                          (integrate_loop-invariant fuel
                            (record {
                              txn = s';
                              state =
                                  put b.client
                                    (max (local_clock t g.txn b.client g.state) (b.clock + b.len))
                                    g.state;
                              picker = (next g.picker).1;
                              past = b ∷ g.past;
                            })
                            (next g.picker).0 (omega (arith, decrease))
                            (after_next g.picker g.past b i))
                  ]
            ]
      ]

  pub integrate_blocks-invariant :
      (fuel : ℕ) (s : S) (blocks : BlockMap)
      → 2 * count_all any blocks ≤ fuel
      → I (next (new_picker blocks)).1 [] (next (new_picker blocks)).0
      → Ends (λ g. I g.picker g.past none) (integrate_blocks t fuel s blocks)
  unfolding integrate_blocks
  integrate_blocks-invariant fuel s blocks h i =
      let start = next-weight (new_picker blocks) in
      integrate_loop-invariant fuel
        (record { txn = s; state = []; picker = (next (new_picker blocks)).1; past = [] })
        (next (new_picker blocks)).0 (omega (arith, start)) i

Ends-some : {S : Type 0} (Q : Progress S → Type 0) (o : Outcome S) → Ends Q o → o ≢ out_of_fuel
Ends-some Q out_of_fuel e = absurd e
Ends-some Q failed e = λ q. absurd (cc)
Ends-some Q (finished g) e = λ q. absurd (cc)

-- The loop of integrate ends on every update, whatever the transaction answers, with fuel for two
-- rounds for each of its blocks.
pub integrate_blocks-ends :
    {S : Type 0} (t : Target S) (fuel : ℕ) (s : S) (blocks : BlockMap)
    → 2 * count_all any blocks ≤ fuel
    → integrate_blocks t fuel s blocks ≢ out_of_fuel
integrate_blocks-ends t fuel s blocks h =
    Ends-some (λ g. Unit) (integrate_blocks t fuel s blocks)
      (integrate_blocks-invariant t (λ p past head. Unit) (λ p past b i. tt) (λ p past b c f i. tt)
        fuel s blocks h tt)
