-- ===== src/Ids/Exclude.antt =====
-- yrs/src/ids.rs: `IdRanges::exclude`. The index `i` into the other list, which only grows, is the
-- part of that list that is left; pushes onto the result are the order of the pieces.
pub mod Canonical
use y_crdt.Common.{
  ℕ, ◌≤◌, ◌<◌, max, ◌≡◌, refl, false, ◌&&◌, Option, none, some, List, [], ◌∷◌, ◌++◌, drop,
  partition_point, if◌then◌else◌, ltb, leb, arith, Bool-cases, inl, inr, tests,
}
use y_crdt.Ids.{Merge, Entry, value_at, within, IsOrdered, IsCanonical}
use y_crdt.Ids.Order.{IsCanonical-tail, or_else, value_at-append, value_at-IsOrdered, IsOrdered-le}

module _ {T : Type 0} where
  -- `while i < other.len() && other[i].0.end <= start`
  unfoldable pub skip_before : ℕ → List (Entry T) → List (Entry T)
  skip_before start os = drop (partition_point (λ o. leb o.end start) os) os

  pub value_at-skip_before :
      (s : ℕ) (os : List (Entry T)) (lo c : ℕ)
      → IsOrdered lo os
      → s ≤ c
      → value_at (skip_before s os) c ≡ value_at os c
  unfolding skip_before value_at
  value_at-skip_before s [] lo c o h = ground arith
  value_at-skip_before s (x ∷ os) lo c o h = ground (arith, value_at-skip_before s os x.end c o.2 h)

  pub skip_before-IsOrdered :
      (s : ℕ) (os : List (Entry T)) (lo : ℕ) → IsOrdered lo os → IsOrdered lo (skip_before s os)
  unfolding skip_before
  skip_before-IsOrdered s [] lo o = tt
  skip_before-IsOrdered s (x ∷ os) lo o = ground (
    arith,
    skip_before-IsOrdered s os x.end o.2,
    IsOrdered-le (skip_before s os) {lo = x.end} {lo' = lo},
  )

module _ {T U : Type 0} where
  -- The inner loop, from `start`: the pieces of `[start..end)` outside the other ranges, and the
  -- ranges from index `j` on.
  cut_range : ℕ → ℕ → T → List (Entry U) → List (Entry T) × List (Entry U)
  cut_range start end value [] =
      (if ltb start end then record { start = start; end = end; value = value } ∷ [] else [], [])
  cut_range start end value (o ∷ os) =
      let gap : List (Entry T) =
        if ltb start o.start
        then record { start = start; end = o.start; value = value } ∷ []
        else [] in
      let rest = cut_range (max start o.end) end value os in
      let passed : List (Entry T) × List (Entry U) = (gap ++ rest.0, rest.1) in
      if ltb start end
      then (if leb end o.start
          then (record { start = start; end = end; value = value } ∷ [], o ∷ os)
          else if ltb o.end end
          then passed
          else (gap, o ∷ os))
      else ([], o ∷ os)

  exclude_loop : List (Entry T) → List (Entry U) → List (Entry T)
  exclude_loop [] os = []
  exclude_loop (x ∷ xs) os =
      let (pieces, left) = cut_range x.start x.end x.value (skip_before x.start os) in
      pieces ++ exclude_loop xs left

  pub exclude : List (Entry T) → List (Entry U) → List (Entry T)
  exclude xs [] = xs
  exclude xs (o ∷ os) = exclude_loop xs (o ∷ os)

  -- A value where the other list holds none.
  abbrev pub hide : Option U → Option T → Option T
  hide none v = v
  hide (some u) v = none

  cut_range-left_IsOrdered :
      (s e : ℕ) (v : T) (os : List (Entry U)) (lo : ℕ)
      → IsOrdered lo os
      → IsOrdered lo (cut_range s e v os).1
  unfolding cut_range
  cut_range-left_IsOrdered s e v [] lo o = tt
  cut_range-left_IsOrdered s e v (x ∷ os) lo o = ground (
    arith,
    cut_range-left_IsOrdered (max s x.end) e v os x.end o.2,
    IsOrdered-le (cut_range (max s x.end) e v os).1 {lo = x.end} {lo' = lo},
  )

  value_at-cut_range_left :
      (s e : ℕ) (v : T) (os : List (Entry U)) (lo c : ℕ)
      → IsOrdered lo os
      → e ≤ c
      → value_at (cut_range s e v os).1 c ≡ value_at os c
  unfolding cut_range value_at
  value_at-cut_range_left s e v [] lo c o h = ground arith
  value_at-cut_range_left s e v (x ∷ os) lo c o h =
      ground (arith, value_at-cut_range_left (max s x.end) e v os x.end c o.2 h)

  -- The ranges that the inner loop takes away from `[start..end)`, one step.
  step_values :
      (s e c os oe : ℕ) (v : T) (gap rest all : Option T) (left : Option U) (u : U)
      → os < oe
      → (c < oe → left ≡ none)
      → gap ≡ (if within s os c then some v else none)
      → rest ≡ hide left (if within (max s oe) e c then some v else none)
      → all ≡ (
          if ltb s e
          then (if leb e os
              then (if within s e c then some v else none)
              else if ltb oe e
              then or_else gap rest
              else gap)
          else none)
      → all ≡ hide (if within os oe c then some u else left) (if within s e c then some v else none)
  unfolding or_else
  step_values s e c os oe v gap rest all left u oo after eg er ea = ground (arith, after)

  value_at-cut_range_cons :
      (s e : ℕ) (v : T) (x : Entry U) (os : List (Entry U)) (c : ℕ)
      → x.start < x.end
      → IsOrdered x.end os
      → value_at (cut_range (max s x.end) e v os).0 c
        ≡ hide (value_at os c) (if within (max s x.end) e c then some v else none)
      → value_at (cut_range s e v (x ∷ os)).0 c
        ≡ hide (value_at (x ∷ os) c) (if within s e c then some v else none)
  unfolding value_at
  value_at-cut_range_cons s e v x os c xe o ih =
      let gap : List (Entry T) =
        if ltb s x.start then record { start = s; end = x.start; value = v } ∷ [] else [] in
      let rest = (cut_range (max s x.end) e v os).0 in
      step_values s e c x.start x.end v (value_at gap c) (value_at rest c) _ (value_at os c) x.value
        xe (λ h. value_at-IsOrdered os {lo = x.end} c o h) (ground arith) ih
        (unfold cut_range or_else in ground (arith, value_at-append gap rest c))

  value_at-cut_range :
      (s e : ℕ) (v : T) (os : List (Entry U)) (lo c : ℕ)
      → IsOrdered lo os
      → value_at (cut_range s e v os).0 c
        ≡ hide (value_at os c) (if within s e c then some v else none)
  unfolding cut_range value_at or_else
  value_at-cut_range s e v [] lo c o = ground arith
  value_at-cut_range s e v (x ∷ os) lo c o =
      value_at-cut_range_cons s e v x os c o.1 o.2
        (value_at-cut_range (max s x.end) e v os x.end c o.2)

  value_at-exclude_loop :
      (xs : List (Entry T)) (os : List (Entry U)) (lo lo' c : ℕ)
      → IsOrdered lo xs
      → IsOrdered lo' os
      → value_at (exclude_loop xs os) c ≡ hide (value_at os c) (value_at xs c)
  unfolding exclude_loop value_at or_else
  value_at-exclude_loop [] os lo lo' c ox oo = ground arith
  value_at-exclude_loop (x ∷ xs) os lo lo' c ox oo =
      let left = skip_before x.start os in
      let oleft = skip_before-IsOrdered x.start os lo' oo in
      let after = (cut_range x.start x.end x.value left).1 in
      let oafter = cut_range-left_IsOrdered x.start x.end x.value left lo' oleft in
      ground (
        arith,
        value_at-append (cut_range x.start x.end x.value left).0 (exclude_loop xs after) c,
        value_at-cut_range x.start x.end x.value left lo' c oleft,
        value_at-skip_before x.start os lo' c oo,
        value_at-cut_range_left x.start x.end x.value left lo' c oleft,
        value_at-exclude_loop xs after x.end lo' c ox.2 oafter,
        value_at-IsOrdered xs {lo = x.end} c ox.2,
      )

  -- For ordered lists, excluding a list of ranges keeps the value of every clock that the excluded
  -- list does not hold, and leaves no value at the others.
  pub value_at-exclude :
      (xs : List (Entry T)) (os : List (Entry U)) (c : ℕ)
      → IsOrdered 0 xs
      → IsOrdered 0 os
      → value_at (exclude xs os) c ≡ hide (value_at os c) (value_at xs c)
  unfolding exclude
  value_at-exclude xs [] c ox oo = unfold value_at in refl
  value_at-exclude xs (o ∷ os) c ox oo = value_at-exclude_loop xs (o ∷ os) 0 0 c ox oo
