-- ===== src/Ids/Query.antt =====
-- yrs/src/ids.rs: the searches of `IdRanges`, `contains_clock` and the binary search `find_start`.
use y_crdt.Common.{
  ℕ, zero, suc, ◌+◌, ◌-◌, ◌/◌, ◌≡◌, Bool, true, false, ◌&&◌, Option, none, some, List, [], ◌∷◌,
  length, get_elem?, partition_point, if◌then◌else◌, ltb, leb, ◌==◌, arith,
}
use y_crdt.Ids.{Entry, value_at, IsOrdered}
use y_crdt.Ids.Order.{value_at-IsOrdered}
use y_crdt.Ids.Insert.{end_at}

abbrev pub is_some {ℓ} : {A : Type ℓ} → Option A → Bool
is_some none = false
is_some (some a) = true

-- An index, if it is in range.
abbrev pub index_below : ℕ → ℕ → Option ℕ
index_below i n = if ltb i n then some i else none

module _ {T : Type 0} where
  pub contains_clock : List (Entry T) → ℕ → Bool
  contains_clock xs clock =
      let idx = partition_point (λ e. leb e.start clock) xs in
      ltb 0 idx && ltb clock (end_at xs (idx - 1))

  -- The loop `while left <= right`, with fuel; no fuel left answers `none`.
  find_loop : ℕ → List (Entry T) → ℕ → ℕ → ℕ → Option ℕ
  find_loop zero xs clock left right = none
  find_loop (suc fuel) xs clock left right =
      let mid = (left + right) / 2 in
      let after = find_loop fuel xs clock (mid + 1) right in
      let before = find_loop fuel xs clock left (mid - 1) in
      let out = if ltb left (length xs) then some left else none in
      if leb left right
      then elim (get_elem? xs mid) [
        | none ↦ none
        | some e ↦
            if leb e.start clock
            then (if ltb clock e.end then some mid else after)
            else if mid == 0
            then out
            else before
      ]
      else out

  pub find_start : List (Entry T) → ℕ → Option ℕ
  find_start [] clock = none
  find_start (x ∷ xs) clock =
      find_loop (suc (length (x ∷ xs))) (x ∷ xs) clock 0 (length (x ∷ xs) - 1)

  contains_clock_lem :
      (xs : List (Entry T)) (lo c : ℕ)
      → IsOrdered lo xs
      → contains_clock xs c ≡ is_some (value_at xs c)
  unfolding contains_clock value_at
  contains_clock_lem [] lo c o = ground arith
  contains_clock_lem (x ∷ []) lo c o = ground arith
  contains_clock_lem (x ∷ y ∷ r) lo c o =
      ground (
        arith,
        contains_clock_lem (y ∷ r) x.end c o.2,
        value_at-IsOrdered (y ∷ r) {lo = x.end} c o.2,
      )

  -- For an ordered list, contains_clock answers whether some range holds the clock.
  pub contains_clock-value_at :
      (xs : List (Entry T)) (c : ℕ) → IsOrdered 0 xs → contains_clock xs c ≡ is_some (value_at xs c)
  contains_clock-value_at xs c o = contains_clock_lem xs 0 c o

  -- The first entry that ends after the clock.
  abbrev pub first_after : List (Entry T) → ℕ → ℕ
  first_after xs clock = partition_point (λ e. leb e.end clock) xs
