-- ===== src/Update/Codec/Sent.antt =====
-- yrs/src/update.rs: which blocks `Update::encode_diff` sends to an empty replica, and in which order.
use y_crdt.Common.{
  sym, ℕ, ◌+◌, ◌≤◌, ◌<◌, ◌≡◌, refl, Option, none, some, List, [], ◌∷◌, length, ltb, ◌==◌,
  if◌then◌else◌, arith, tests, true, false, Bool-cases, inl, inr, ==_iff,
}
use mathlib.Core.Path.{subst}
use y_crdt.BTree.{get}
use y_crdt.HashMap.{IsUnique}
use y_crdt.Update.Counts.{List-cases}
use y_crdt.StateVector.{clock_of}
use y_crdt.Block.Content.{Codecs}
use y_crdt.Block.Content.RoundTrip.{Laws}
use y_crdt.Update.Codec.{
  Placed, Blocks, block_len, is_skip_block, newer_blocks, insert_desc, sorted_diffs,
}
use y_crdt.Update.Codec.Sorted.{IsRun, UpdateFits, sorted_diffs-none}

-- Keys from the largest to the smallest.
abbrev pub IsBelow : {V : Type 0} → ℕ → List (ℕ × V) → Type 0
IsBelow k [] = Unit
IsBelow k ((j, v) ∷ m) = j < k

abbrev pub IsDescending : {V : Type 0} → List (ℕ × V) → Type 0
IsDescending [] = Unit
IsDescending ((k, v) ∷ m) = IsBelow k m × IsDescending m

module _ {A T R : Type 0} (c : Codecs A T R) (laws : Laws c)
    (split : List ℕ → ℕ → List ℕ × List ℕ) where
  -- All blocks of a client from the first one on that is no skip, if there is one.
  abbrev pub from_first : List (Placed A T R) → Option (List (Placed A T R))
  from_first [] = none
  from_first (b ∷ bs) = if is_skip_block c split b.block then from_first bs else some (b ∷ bs)

  abbrev pub sent : Option (List (Placed A T R)) → Option (List (Placed A T R))
  sent none = none
  sent (some bs) = from_first bs

  abbrev keep_some : List (Placed A T R) → Option (List (Placed A T R))
  keep_some [] = none
  keep_some (b ∷ bs) = some (b ∷ bs)

  newer_blocks-from_first :
      (clock : ℕ) (bs : List (Placed A T R))
      → IsRun c laws split clock bs
      → keep_some (newer_blocks c split 0 bs) ≡ from_first bs
  unfolding newer_blocks
  newer_blocks-from_first clock [] f = refl
  newer_blocks-from_first clock (b ∷ bs) f =
      let ih = newer_blocks-from_first (clock + block_len c split b.block) bs f.4 in
      let new : ltb 0 (b.clock + block_len c split b.block) ≡ true = omega (tests, f.1) in
      elim (Bool-cases (is_skip_block c split b.block)) [
        | inl e ↦ rw (newer_blocks, e) ih
        | inr e ↦ rw (newer_blocks, e, new) refl
      ]

  get-insert_desc :
      (client k : ℕ) (bs : List (Placed A T R)) (m : Blocks A T R)
      → get client m ≡ none
      → get k (insert_desc c split client bs m) ≡ (if client == k then some bs else get k m)
  unfolding get
  get-insert_desc client k bs [] n = refl
  get-insert_desc client k bs ((d, ds) ∷ m) n = elim (Bool-cases (ltb client d)) [
    | inl e ↦
        let other : (d == client) ≡ false = ground arith in
        let later : get client m ≡ none = rw other at n in
        let ih = get-insert_desc client k bs m later in
        elim (Bool-cases (d == k)) [
          | inl q ↦ let apart : (client == k) ≡ false = ground arith in rw (e, q, apart) refl
          | inr q ↦ rw (e, q) ih
        ]
    | inr e ↦ rw e refl
  ]

  length-insert_desc :
      (client : ℕ) (bs : List (Placed A T R)) (m : Blocks A T R)
      → length (insert_desc c split client bs m) ≡ length m + 1
  length-insert_desc client bs [] = refl
  length-insert_desc client bs ((d, ds) ∷ m) =
      let ih = length-insert_desc client bs m in
      elim (Bool-cases (ltb client d)) [
        | inl e ↦ rw e (omega (arith, ih))
        | inr e ↦ rw e (omega arith)
      ]

  insert_desc-IsBelow :
      (client top : ℕ) (bs : List (Placed A T R)) (m : Blocks A T R)
      → client < top
      → IsBelow top m
      → IsBelow top (insert_desc c split client bs m)
  insert_desc-IsBelow client top bs [] h b = h
  insert_desc-IsBelow client top bs ((d, ds) ∷ m) h b = elim (Bool-cases (ltb client d)) [
    | inl e ↦ rw e b
    | inr e ↦ rw e h
  ]

  insert_desc-IsDescending :
      (client : ℕ) (bs : List (Placed A T R)) (m : Blocks A T R)
      → get client m ≡ none
      → IsDescending m
      → IsDescending (insert_desc c split client bs m)
  unfolding get
  insert_desc-IsDescending client bs [] n s = (tt, tt)
  insert_desc-IsDescending client bs ((d, ds) ∷ m) n s = elim (Bool-cases (ltb client d)) [
    | inl e ↦
        let other : (d == client) ≡ false = ground arith in
        let later : get client m ≡ none = rw other at n in
        rw e (
          insert_desc-IsBelow client d bs m (omega tests) s.0,
          insert_desc-IsDescending client bs m later s.1,
        )
    | inr e ↦ let above : d < client = ground arith in rw e (above, s)
  ]

  -- The clients that are sent to an empty replica, and their blocks.
  pub sorted_diffs-sent :
      (m : Blocks A T R)
      → IsUnique m
      → UpdateFits c laws split m
      → IsDescending (sorted_diffs c split [] m)
        × (length (sorted_diffs c split [] m) ≤ length m)
        × ((k : ℕ) → get k (sorted_diffs c split [] m) ≡ sent (get k m))
  unfolding sorted_diffs get
  sorted_diffs-sent [] u f = (tt, omega arith, λ k. refl)
  sorted_diffs-sent ((client, bs) ∷ m) (once, u) (small, many, (clock, run), f) =
      let (down, shorter, same) = sorted_diffs-sent m u f in
      let lem : keep_some (newer_blocks c split (clock_of [] client) bs) ≡ from_first bs =
        newer_blocks-from_first clock bs run in
      let gone = sorted_diffs-none c laws split [] m client once in
      elim (List-cases (newer_blocks c split (clock_of [] client) bs)) [
        | inl q ↦
            let nothing : from_first bs ≡ none = sym (rw q at lem) in
            (
              rw (sorted_diffs, q) down,
              rw (sorted_diffs, q) (omega (arith, shorter)),
              λ k. elim (Bool-cases (client == k)) [
                | inl e ↦
                    let same_key = (==_iff client k).0 e in
                    rw (sorted_diffs, q, e, nothing) (rw same_key at gone)
                | inr e ↦ rw (sorted_diffs, q, e) (same k)
              ],
            )
        | inr (b, rest, q) ↦
            let whole : sorted_diffs c split [] ((client, bs) ∷ m)
                ≡ insert_desc c split client (b ∷ rest) (sorted_diffs c split [] m) =
              rw (sorted_diffs, q) refl in
            let grown = length-insert_desc client (b ∷ rest) (sorted_diffs c split [] m) in
            let found : some (b ∷ rest) ≡ from_first bs = rw q at lem in
            (
              rw (sorted_diffs, q) (insert_desc-IsDescending client (b ∷ rest) _ gone down),
              subst (λ xs. length xs ≤ length ((client, bs) ∷ m)) (sym whole)
                  (omega (arith, shorter, grown)),
              λ k. elim (Bool-cases (client == k)) [
                | inl e ↦
                    rw
                      (
                        sorted_diffs,
                        q,
                        get-insert_desc client k (b ∷ rest) (sorted_diffs c split [] m) gone,
                        e,
                      )
                      found
                | inr e ↦
                    rw
                      (
                        sorted_diffs,
                        q,
                        get-insert_desc client k (b ∷ rest) (sorted_diffs c split [] m) gone,
                        e,
                      )
                      (same k)
              ],
            )
      ]
