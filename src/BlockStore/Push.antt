-- ===== src/BlockStore/Push.antt =====
-- yrs/src/block_store.rs: `BlockStore::push` keeps the blocks of a client without gaps.
use y_crdt.BlockStore.Find.{
  last_none, owner-lt, IsContiguous, owner, find_index-owner, list_end, nth-end, next_clock-end,
}
use y_crdt.Common.{
  ◌⊎◌, ℕ, zero, suc, ◌≤◌, ◌<◌, ◌^◌, ◌≡◌, refl, sym, ◌∙◌, ap, Bool, true, false, some, List, [], ◌∷◌,
  ◌++◌, get_elem?, ltb, leb, leb→le, leb_false→lt, ◌==◌, arith, tests, Bool-cases, Option-cases,
  inl, inr, ==_iff,
}
use y_crdt.Encoding.{ok}
use y_crdt.BlockStore.{StoredBlock, last_block, block_end, insert_at, set_at, fill_skip, push_block}

fill_skip-IsContiguous :
    (before behind : Bool) (i lo : ℕ) (old block : StoredBlock) (bs : List StoredBlock)
    → IsContiguous lo bs
    → get_elem? bs i ≡ some old
    → ltb old.clock block.clock ≡ before
    → ltb (block_end block) (block_end old) ≡ behind
    → old.clock ≤ block.clock
    → block_end block ≤ block_end old
    → 0 < block.len
    → IsContiguous lo (fill_skip before behind i old block bs)
unfolding fill_skip insert_at set_at
fill_skip-IsContiguous before behind i lo old block [] c h s t l m p = absurd (cc)
fill_skip-IsContiguous true true zero lo old block (x ∷ bs) c h s t l m p = ground arith
fill_skip-IsContiguous true false zero lo old block (x ∷ bs) c h s t l m p = ground arith
fill_skip-IsContiguous false true zero lo old block (x ∷ bs) c h s t l m p = ground arith
fill_skip-IsContiguous false false zero lo old block (x ∷ bs) c h s t l m p = ground arith
fill_skip-IsContiguous true true (suc i) lo old block (x ∷ bs) c h s t l m p =
    (c.0, c.1, fill_skip-IsContiguous true true i (block_end x) old block bs c.2 h s t l m p)
fill_skip-IsContiguous true false (suc i) lo old block (x ∷ bs) c h s t l m p =
    (c.0, c.1, fill_skip-IsContiguous true false i (block_end x) old block bs c.2 h s t l m p)
fill_skip-IsContiguous false true (suc i) lo old block (x ∷ bs) c h s t l m p =
    (c.0, c.1, fill_skip-IsContiguous false true i (block_end x) old block bs c.2 h s t l m p)
fill_skip-IsContiguous false false (suc i) lo old block (x ∷ bs) c h s t l m p =
    (c.0, c.1, fill_skip-IsContiguous false false i (block_end x) old block bs c.2 h s t l m p)

append-IsContiguous :
    (lo : ℕ) (bs : List StoredBlock) (block b : StoredBlock)
    → IsContiguous lo bs
    → last_block bs ≡ some b
    → block_end b ≡ block.clock
    → 0 < block.len
    → IsContiguous lo (bs ++ block ∷ [])
append-IsContiguous lo [] block b c h e p = absurd (cc)
append-IsContiguous lo (x ∷ []) block b c h e p =
    let same : x ≡ b = cc in (c.0, c.1, (sym e ∙ ap (λ y. block_end y) (sym same), p, tt))
append-IsContiguous lo (x ∷ y ∷ bs) block b c h e p =
    (c.0, c.1, append-IsContiguous (block_end x) (y ∷ bs) block b c.2 h e p)

-- The block goes to the end of the list, or lies in the block of the list that has its clock.
abbrev pub Fits : StoredBlock → List StoredBlock → Type 0
Fits block bs =
    (block.clock ≡ list_end bs)
    ⊎ ((old : StoredBlock) × (get_elem? bs (owner bs block.clock) ≡ some old)
        × (block.clock < list_end bs)
        × (block_end block ≤ block_end old))

-- A list of blocks that starts at clock 0, without gaps and empty blocks, and ends below 2 ^ 32,
-- stays without gaps and empty blocks when a block that is not empty is pushed, and the push does
-- not panic, if the block goes to the end of the list or lies in the block that has its clock.
pub push_block-IsContiguous :
    (block : StoredBlock) (bs : List StoredBlock)
    → IsContiguous 0 bs
    → 0 < block.len
    → list_end bs < 2 ^ 32
    → Fits block bs
    → (pushed : List StoredBlock) × (push_block block bs ≡ ok pushed) × IsContiguous 0 pushed
unfolding push_block
push_block-IsContiguous block [] c p limit (inl s) = (block ∷ [], refl, (s, p, tt))
push_block-IsContiguous block [] c p limit (inr (old, nth, inside, room)) = absurd (cc)
push_block-IsContiguous block (x ∷ xs) c p limit fits = elim (Option-cases (last_block (x ∷ xs))) [
  | inl e ↦ let no = last_none (x ∷ xs) e in absurd (omega (arith, no))
  | inr (b, e) ↦
      let end : list_end (x ∷ xs) ≡ block_end b = rw (list_end, e) refl in
      let last = next_clock-end b (omega (arith, end)) in
      elim fits [
        | inl s ↦
            let at_end : block_end b ≡ block.clock = sym (s ∙ rw (list_end, e) refl) in
            let test : (block_end b == block.clock) ≡ true =
              (==_iff (block_end b) block.clock).1 at_end in
            (
              (x ∷ xs) ++ block ∷ [],
              rw (push_block, e, last, test) refl,
              append-IsContiguous 0 (x ∷ xs) block b c e at_end p,
            )
        | inr (old, nth, inside, room) ↦
            let test : (block_end b == block.clock) ≡ false =
              (let gt : block.clock < block_end b = omega (arith, end, inside) in ground arith) in
            let lo : old.clock ≤ block.clock = elim (Bool-cases (leb old.clock block.clock)) [
              | inl le ↦ leb→le old.clock block.clock le
              | inr gt ↦ absurd (
                  omega (
                    arith,
                    owner-lt (x ∷ xs) block.clock (owner (x ∷ xs) block.clock) 0 old c (omega arith)
                        nth (leb_false→lt old.clock block.clock gt),
                  ))
            ] in
            let found = find_index-owner (x ∷ xs) block.clock c (omega arith) limit in
            let inside' : ltb block.clock (list_end (x ∷ xs)) ≡ true = omega (tests, inside) in
            let r1 : ltb block.clock old.clock ≡ false = omega tests in
            let r2 : ltb (block_end old) (block_end block) ≡ false = omega tests in
            let behind_old =
              next_clock-end old
                (omega (arith, nth-end (x ∷ xs) (owner (x ∷ xs) block.clock) 0 old c nth)) in
            let behind_new =
              next_clock-end block
                (omega (arith, nth-end (x ∷ xs) (owner (x ∷ xs) block.clock) 0 old c nth)) in
            let before = ltb old.clock block.clock in
            let behind = ltb (block_end block) (block_end old) in
            (
              fill_skip before behind (owner (x ∷ xs) block.clock) old block (x ∷ xs),
              rw (push_block, e, last, test, found, inside', nth, r1, behind_old, behind_new, r2)
                  refl,
              fill_skip-IsContiguous before behind (owner (x ∷ xs) block.clock) 0 old block (x ∷ xs)
                  c nth refl refl lo room p,
            )
      ]
]
