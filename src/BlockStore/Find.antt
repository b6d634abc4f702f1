-- ===== src/BlockStore/Find.antt =====
-- yrs/src/block_store.rs: `ClientBlockList::find_index` finds the block of a clock.
use y_crdt.Common.{
  ℕ, zero, suc, ◌+◌, ◌-◌, ◌*◌, ◌/◌, ◌%◌, ◌^◌, ◌≤◌, ◌<◌, ◌≡◌, refl, ap, true, false, none, some,
  List, [], ◌∷◌, length, get_elem?, partition_point, leb→le, ltb, leb, ◌==◌, if◌then◌else◌, arith,
  tests, Bool-cases, Option-cases, inl, inr, ==_iff,
}
use native.Mathlib.Nat.{div_self, div-eq_of_lt}
use y_crdt.Encoding.{ok}
use y_crdt.BlockStore.{
  StoredBlock, last_block, last_clock, next_clock, block_end, index_loop, find_index,
}

-- No gaps from a clock on, and no empty block.
abbrev pub IsContiguous : ℕ → List StoredBlock → Type 0
IsContiguous lo [] = Unit
IsContiguous lo (b ∷ bs) = (b.clock ≡ lo) × (0 < b.len) × IsContiguous (block_end b) bs

-- The index of the first block that ends after the clock.
abbrev pub owner : List StoredBlock → ℕ → ℕ
owner bs clock = partition_point (λ b. leb (block_end b) clock) bs

nth_exists :
    (bs : List StoredBlock) (i : ℕ) → i < length bs → (b : StoredBlock) × (get_elem? bs i ≡ some b)
nth_exists [] i h = absurd (omega arith)
nth_exists (b ∷ bs) zero h = (b, refl)
nth_exists (b ∷ bs) (suc i) h = nth_exists bs i (omega arith)

nth_IsContiguous :
    (bs : List StoredBlock) (i lo : ℕ) (b : StoredBlock)
    → IsContiguous lo bs
    → get_elem? bs i ≡ some b
    → (lo ≤ b.clock) × (0 < b.len)
nth_IsContiguous [] i lo b c h = absurd (cc)
nth_IsContiguous (x ∷ bs) zero lo b c h = ground arith
nth_IsContiguous (x ∷ bs) (suc i) lo b c h =
    omega (arith, nth_IsContiguous bs i (block_end x) b c.2 h, c.0, c.1)

owner-le :
    (bs : List StoredBlock) (clock i : ℕ) (b : StoredBlock)
    → get_elem? bs i ≡ some b
    → clock < block_end b
    → owner bs clock ≤ i
owner-le [] clock i b h g = absurd (cc)
owner-le (x ∷ bs) clock zero b h g = ground arith
owner-le (x ∷ bs) clock (suc i) b h g = ground (arith, owner-le bs clock i b h g)

owner-gt :
    (bs : List StoredBlock) (clock i lo : ℕ) (b : StoredBlock)
    → IsContiguous lo bs
    → get_elem? bs i ≡ some b
    → block_end b ≤ clock
    → i < owner bs clock
owner-gt [] clock i lo b c h g = absurd (cc)
owner-gt (x ∷ bs) clock zero lo b c h g = ground arith
owner-gt (x ∷ bs) clock (suc i) lo b c h g = ground (
  arith,
  owner-gt bs clock i (block_end x) b c.2 h g,
  nth_IsContiguous bs i (block_end x) b c.2 h,
)

owner-ge :
    (bs : List StoredBlock) (clock i lo : ℕ) (b : StoredBlock)
    → IsContiguous lo bs
    → get_elem? bs i ≡ some b
    → b.clock ≤ clock
    → i ≤ owner bs clock
owner-ge [] clock i lo b c h g = absurd (cc)
owner-ge (x ∷ bs) clock zero lo b c h g = omega arith
owner-ge (x ∷ bs) clock (suc i) lo b c h g = ground (
  arith,
  owner-ge bs clock i (block_end x) b c.2 h g,
  nth_IsContiguous bs i (block_end x) b c.2 h,
)

pub owner-lt :
    (bs : List StoredBlock) (clock i lo : ℕ) (b : StoredBlock)
    → IsContiguous lo bs
    → lo ≤ clock
    → get_elem? bs i ≡ some b
    → clock < b.clock
    → owner bs clock < i
owner-lt [] clock i lo b c l h g = absurd (cc)
owner-lt (x ∷ bs) clock zero lo b c l h g = absurd (ground arith)
owner-lt (x ∷ bs) clock (suc i) lo b c l h g = elim (Bool-cases (leb (block_end x) clock)) [
  | inl e ↦
      rw e
        (omega (arith, owner-lt bs clock i (block_end x) b c.2 (leb→le (block_end x) clock e) h g))
  | inr e ↦ rw e (omega arith)
]

pub last_nth :
    (bs : List StoredBlock) (b : StoredBlock)
    → last_block bs ≡ some b
    → (n : ℕ) × (length bs ≡ suc n) × (get_elem? bs n ≡ some b)
last_nth [] b h = absurd (cc)
last_nth (x ∷ []) b h = (0, refl, h)
last_nth (x ∷ y ∷ bs) b h = let (n, len, nth) = last_nth (y ∷ bs) b h in (suc n, ap suc len, nth)

pub last_none : (bs : List StoredBlock) → last_block bs ≡ none → length bs ≡ 0
last_none [] h = refl
last_none (x ∷ []) h = absurd (cc)
last_none (x ∷ y ∷ bs) h = let no = last_none (y ∷ bs) h in absurd (omega (arith, no))

-- The clock behind the last block.
abbrev pub list_end : List StoredBlock → ℕ
list_end bs = elim (last_block bs) [ none ↦ 0 | some b ↦ block_end b ]

pub nth-end :
    (bs : List StoredBlock) (i lo : ℕ) (b : StoredBlock)
    → IsContiguous lo bs
    → get_elem? bs i ≡ some b
    → block_end b ≤ list_end bs
nth-end [] i lo b c h = absurd (cc)
nth-end (x ∷ []) zero lo b c h = ground arith
nth-end (x ∷ []) (suc i) lo b c h = absurd (cc)
nth-end (x ∷ y ∷ bs) zero lo b c h =
    let ih = nth-end (y ∷ bs) 0 (block_end x) y c.2 refl in ground (arith, ih, c.2.0)
nth-end (x ∷ y ∷ bs) (suc i) lo b c h = nth-end (y ∷ bs) i (block_end x) b c.2 h

pub next_clock-end : (b : StoredBlock) → block_end b < 2 ^ 32 → next_clock b ≡ ok (block_end b)
next_clock-end b h = let fits : ltb (block_end b) (2 ^ 32) ≡ true = omega tests in rw fits refl

last_clock-end :
    (b : StoredBlock) → 0 < b.len → block_end b < 2 ^ 32 → last_clock b ≡ ok (block_end b - 1)
last_clock-end b p h =
    let fits : ltb (block_end b) (2 ^ 32) ≡ true = omega tests in
    let positive : (block_end b == 0) ≡ false = ground arith in rw (fits, positive) refl

-- The first guess of the loop is one of the ends.
first_guess : (clock last right : ℕ) → clock ≤ last → 0 < last → clock / last * right ≤ right
first_guess clock last right h pos = elim (Bool-cases (clock == last)) [
  | inl e ↦
      let one : clock / last ≡ 1 = rw ((==_iff clock last).0 e) (div_self pos) in
      rw one (omega arith)
  | inr e ↦
      let less : clock < last = ground arith in
      let none_fits : clock / last ≡ 0 = div-eq_of_lt less in rw none_fits (omega arith)
]

index_loop-owner :
    (fuel : ℕ) (bs : List StoredBlock) (clock mid left right : ℕ)
    → IsContiguous 0 bs
    → list_end bs < 2 ^ 32
    → right < length bs
    → left ≤ owner bs clock
    → owner bs clock ≤ right
    → left ≤ mid
    → mid ≤ right
    → right + 1 - left < fuel
    → index_loop fuel bs clock mid left right ≡ ok (some (owner bs clock))
unfolding index_loop
index_loop-owner zero bs clock mid left right c limit r lo hi ml mr f = absurd (omega arith)
index_loop-owner (suc fuel) bs clock mid left right c limit r lo hi ml mr f =
    let (b, eq) = nth_exists bs mid (omega arith) in
    let go : leb left right ≡ true = omega tests in
    let some_len = nth_IsContiguous bs mid 0 b c eq in
    let below_end = nth-end bs mid 0 b c eq in
    let last = last_clock-end b some_len.1 (omega arith) in
    elim (Bool-cases (leb b.clock clock)) [
      | inl s ↦
          let at_least = owner-ge bs clock mid 0 b c eq (leb→le b.clock clock s) in
          elim (Bool-cases (leb clock (block_end b - 1))) [
            | inl e ↦
                let at_most = owner-le bs clock mid b eq (omega tests) in
                let here : mid ≡ owner bs clock = omega arith in
                rw (index_loop, go, eq, last, s, e) (ap (λ i. ok (some i)) here)
            | inr e ↦
                let above = owner-gt bs clock mid 0 b c eq (omega tests) in
                rw (index_loop, go, eq, last, s, e)
                  (index_loop-owner fuel bs clock ((mid + 1 + right) / 2) (mid + 1) right c limit r
                    (omega arith) hi (omega arith) (omega arith) (omega arith))
          ]
      | inr s ↦
          let below = owner-lt bs clock mid 0 b c (omega arith) eq (omega tests) in
          let positive : (mid == 0) ≡ false = ground arith in
          rw (index_loop, go, eq, last, s, positive)
            (index_loop-owner fuel bs clock ((left + (mid - 1)) / 2) left (mid - 1) c limit
              (omega arith) lo (omega arith) (omega arith) (omega arith) (omega arith))
    ]

-- In a list of blocks that starts at clock 0, has no gaps, no empty block and at least one block,
-- and ends below 2 ^ 32, find_index does not panic and does not run out of fuel; it gives the
-- index of the first block that ends after the clock, which is the block that has the clock, if
-- the list reaches beyond the clock, and none if not.
pub find_index-owner :
    (bs : List StoredBlock) (clock : ℕ)
    → IsContiguous 0 bs
    → 0 < length bs
    → list_end bs < 2 ^ 32
    → find_index bs clock
      ≡ (if ltb clock (list_end bs) then ok (some (owner bs clock)) else ok none)
unfolding find_index
find_index-owner bs clock c some_block limit = elim (Option-cases (last_block bs)) [
  | inl e ↦ let no = last_none bs e in absurd (omega (arith, no))
  | inr (b, e) ↦
      let (n, len, nth) = last_nth bs b e in
      let right : length bs - 1 ≡ n = omega (arith, len) in
      let some_len = (nth_IsContiguous bs n 0 b c nth).1 in
      let below_end = nth-end bs n 0 b c nth in
      let last = last_clock-end b some_len (omega arith) in
      elim (Bool-cases (b.clock == clock)) [
        | inl s ↦
            let same = (==_iff b.clock clock).0 s in
            let lo = owner-ge bs clock n 0 b c nth (omega arith) in
            let hi = owner-le bs clock n b nth (omega arith) in
            let here : n ≡ owner bs clock = omega arith in
            let inside : ltb clock (block_end b) ≡ true = omega tests in
            rw (find_index, list_end, e, last, s, inside, right) (ap (λ i. ok (some i)) here)
        | inr s ↦ elim (Bool-cases (ltb (block_end b - 1) clock)) [
          | inl t ↦
              let outside : ltb clock (block_end b) ≡ false = omega tests in
              rw (find_index, list_end, e, last, s, t, outside) refl
          | inr t ↦
              let inside : ltb clock (block_end b) ≡ true = omega tests in
              let le : clock ≤ (block_end b - 1) = omega tests in
              let positive : ((block_end b - 1) == 0) ≡ false = ground arith in
              let pos : 0 < (block_end b - 1) = ground arith in
              let hi = owner-le bs clock n b nth (omega arith) in
              rw (find_index, list_end, e, last, s, t, inside, positive)
                (index_loop-owner (suc (length bs)) bs clock
                  (clock / (block_end b - 1) * ((length bs - 1) % 2 ^ 32)) 0 (length bs - 1) c limit
                  (omega arith) (omega arith) (omega (arith, right)) (omega arith)
                  (omega
                    (arith, first_guess clock (block_end b - 1) ((length bs - 1) % 2 ^ 32) le pos))
                  (omega arith))
        ]
      ]
]
