-- ===== src/Update/Codec/Sorted.antt =====
-- yrs/src/update.rs: the blocks that `Update::encode_diff` sends, the largest client first.
use y_crdt.Common.{
  ℕ, ◌+◌, ◌≤◌, ◌<◌, ◌≡◌, refl, sym, false, none, some, List, [], ◌∷◌, length, ltb, ◌==◌, arith,
  tests, Bool-cases, inl, inr, ◌^◌,
}
use mathlib.Core.Path.{subst}
use y_crdt.BTree.{get}
use y_crdt.Update.Counts.{List-cases}
use y_crdt.HashMap.{IsUnique}
use y_crdt.StateVector.{StateVector, clock_of}
use y_crdt.Block.Content.{Codecs}
use y_crdt.Block.Content.RoundTrip.{Laws}
use y_crdt.Block.Wire.RoundTrip.{BlockFits}
use y_crdt.Update.Codec.{
  Placed, Blocks, block_len, is_skip_block, newer_blocks, insert_desc, sorted_diffs,
}

module _ {A T R : Type 0} (c : Codecs A T R) (laws : Laws c)
    (split : List ℕ → ℕ → List ℕ × List ℕ) where
  -- Blocks that follow each other from a clock on, of which each can be encoded.
  abbrev pub IsRun : ℕ → List (Placed A T R) → Type 0
  IsRun clock [] = Unit
  IsRun clock (b ∷ bs) =
      (b.clock ≡ clock)
      × (0 < block_len c split b.block)
      × (clock + block_len c split b.block < 2 ^ 32)
      × BlockFits c laws b.block
      × IsRun (clock + block_len c split b.block) bs

  -- Every client has blocks, which follow each other.
  abbrev pub AllRuns : Blocks A T R → Type 0
  AllRuns [] = Unit
  AllRuns ((client, []) ∷ m) = ⊥
  AllRuns ((client, b ∷ bs) ∷ m) =
      (client < 2 ^ 53) × (length (b ∷ bs) < 2 ^ 32) × IsRun b.clock (b ∷ bs) × AllRuns m

  -- The blocks of every client follow each other from some clock on, and are fewer than 2 ^ 32.
  abbrev pub UpdateFits : Blocks A T R → Type 0
  UpdateFits [] = Unit
  UpdateFits ((client, bs) ∷ m) =
      (client < 2 ^ 53) × (length bs < 2 ^ 32) × ((clock : ℕ) × IsRun clock bs) × UpdateFits m

  -- The blocks from some block on.
  abbrev Starts : List (Placed A T R) → Type 0
  Starts [] = Unit
  Starts (b ∷ bs) = IsRun b.clock (b ∷ bs)

  newer_blocks-Starts :
      (clock remote : ℕ) (bs : List (Placed A T R))
      → IsRun clock bs
      → Starts (newer_blocks c split remote bs)
        × (length (newer_blocks c split remote bs) ≤ length bs)
  unfolding newer_blocks
  newer_blocks-Starts clock remote [] f = (tt, omega arith)
  newer_blocks-Starts clock remote (b ∷ bs) f =
      let ih = newer_blocks-Starts (clock + block_len c split b.block) remote bs f.4 in
      elim (Bool-cases (is_skip_block c split b.block)) [
        | inl e ↦ rw e (ih.0, omega (arith, ih.1))
        | inr e ↦ elim (Bool-cases (ltb remote (b.clock + block_len c split b.block))) [
          | inl g ↦ rw (e, g) (subst (λ k. IsRun k (b ∷ bs)) (sym f.0) f, omega arith)
          | inr g ↦ rw (e, g) (ih.0, omega (arith, ih.1))
        ]
      ]

  get-insert_desc :
      (client k : ℕ) (bs : List (Placed A T R)) (m : Blocks A T R)
      → get k m ≡ none
      → (client == k) ≡ false
      → get k (insert_desc c split client bs m) ≡ none
  unfolding get
  get-insert_desc client k bs [] n e = rw e refl
  get-insert_desc client k bs ((d, ds) ∷ m) n e = ground (arith, get-insert_desc client k bs m)

  insert_desc-IsUnique :
      (client : ℕ) (bs : List (Placed A T R)) (m : Blocks A T R)
      → get client m ≡ none
      → IsUnique m
      → IsUnique (insert_desc c split client bs m)
  insert_desc-IsUnique client bs [] n u = (unfold get in refl, tt)
  insert_desc-IsUnique client bs ((d, ds) ∷ m) n u = elim (Bool-cases (ltb client d)) [
    | inl e ↦
        let less : client < d = omega tests in
        let other : (client == d) ≡ false = ground arith in
        let flipped : (d == client) ≡ false = ground arith in
        let later : get client m ≡ none = unfold get in rw flipped at n in
        rw e (get-insert_desc client d bs m u.0 other, insert_desc-IsUnique client bs m later u.1)
    | inr e ↦ rw e (n, u)
  ]

  insert_desc-AllRuns :
      (client : ℕ) (b : Placed A T R) (bs : List (Placed A T R)) (m : Blocks A T R)
      → client < 2 ^ 53
      → length (b ∷ bs) < 2 ^ 32
      → IsRun b.clock (b ∷ bs)
      → AllRuns m
      → AllRuns (insert_desc c split client (b ∷ bs) m)
  insert_desc-AllRuns client b bs [] h l r a = (h, l, r, tt)
  insert_desc-AllRuns client b bs ((d, []) ∷ m) h l r a = absurd a
  insert_desc-AllRuns client b bs ((d, x ∷ xs) ∷ m) h l r a = elim (Bool-cases (ltb client d)) [
    | inl e ↦ rw e (a.0, a.1, a.2, insert_desc-AllRuns client b bs m h l r a.3)
    | inr e ↦ rw e (h, l, r, a)
  ]

  pub sorted_diffs-none :
      (sv : StateVector) (m : Blocks A T R) (k : ℕ)
      → get k m ≡ none
      → get k (sorted_diffs c split sv m) ≡ none
  unfolding sorted_diffs get
  sorted_diffs-none sv [] k n = refl
  sorted_diffs-none sv ((client, bs) ∷ m) k n = elim (Bool-cases (client == k)) [
    | inl e ↦ absurd (let bad : some bs ≡ none = rw e at n in cc)
    | inr e ↦
        let ih = sorted_diffs-none sv m k (rw e at n) in
        elim (List-cases (newer_blocks c split (clock_of sv client) bs)) [
          | inl q ↦ rw (sorted_diffs, q) ih
          | inr (b, newer, q) ↦
              rw (sorted_diffs, q)
                (get-insert_desc client k (b ∷ newer) (sorted_diffs c split sv m) ih e)
        ]
  ]

  pub sorted_diffs-AllRuns :
      (sv : StateVector) (m : Blocks A T R)
      → IsUnique m
      → UpdateFits m
      → IsUnique (sorted_diffs c split sv m) × AllRuns (sorted_diffs c split sv m)
  unfolding sorted_diffs
  sorted_diffs-AllRuns sv [] u f = (tt, tt)
  sorted_diffs-AllRuns sv ((client, bs) ∷ m) (once, u) (small, many, (clock, run), f) =
      let ih = sorted_diffs-AllRuns sv m u f in
      let newer = newer_blocks-Starts clock (clock_of sv client) bs run in
      elim (List-cases (newer_blocks c split (clock_of sv client) bs)) [
        | inl q ↦ rw (sorted_diffs, q) ih
        | inr (b, rest, q) ↦
            let starts : IsRun b.clock (b ∷ rest) = subst (λ xs. Starts xs) q newer.0 in
            let shorter : length (b ∷ rest) ≤ length bs =
              subst (λ xs. length xs ≤ length bs) q newer.1 in
            rw (sorted_diffs, q)
              (
                insert_desc-IsUnique client (b ∷ rest) (sorted_diffs c split sv m)
                    (sorted_diffs-none sv m client once) ih.0,
                insert_desc-AllRuns client b rest (sorted_diffs c split sv m) small (omega arith)
                    starts ih.1,
              )
      ]
