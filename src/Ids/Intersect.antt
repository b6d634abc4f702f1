-- ===== src/Ids/Intersect.antt =====
-- yrs/src/ids.rs: `IdRanges::intersect`. The index into the other list, which only grows, is the
-- part of that list that is left.
pub mod Correct
use y_crdt.Common.{
  ℕ, ◌≤◌, ◌<◌, min, max, ◌≡◌, ◌∙◌, refl, ◌&&◌, Option, none, some, List, [], ◌∷◌, if◌then◌else◌,
  ltb, leb, ◌==◌, arith, Bool-cases, inl, inr, tests,
}
use y_crdt.Ids.{Merge, Entry, value_at, within, IsOrdered, EndsBy, IsCanonical, push_coalesced}
use y_crdt.Ids.Order.{
  or_else, value_at-IsOrdered, value_at-EndsBy, IsCanonical-IsOrdered_zero, IsOrdered-le, EndsBy-le,
}
use y_crdt.Ids.Exclude.{skip_before, value_at-skip_before, skip_before-IsOrdered}
use y_crdt.Ids.Push.{Built, push_if, push_if-Built, value_at-push_if}

module _ {T : Type 0} ⦃m : Merge T⦄ where
  -- Push a range, or let the last entry grow if it ends where the range starts and agrees.
  push_adjacent : List (Entry T) → ℕ → ℕ → T → List (Entry T)
  push_adjacent [] lo hi merged = record { start = lo; end = hi; value = merged } ∷ []
  push_adjacent (last ∷ []) lo hi merged =
      if last.end == lo && m.beq last.value merged
      then record last { end = hi } ∷ []
      else last ∷ record { start = lo; end = hi; value = merged } ∷ []
  push_adjacent (x ∷ y ∷ r) lo hi merged = x ∷ push_adjacent (y ∷ r) lo hi merged

  -- The push of one overlap.
  push_common : List (Entry T) → Entry T → Entry T → List (Entry T)
  push_common result x o =
      if ltb (max x.start o.start) (min x.end o.end)
      then push_adjacent result (max x.start o.start) (min x.end o.end) (m.merge x.value o.value)
      else result

  -- The inner loop over the other ranges, from index `j` on.
  meet_range : List (Entry T) → Entry T → List (Entry T) → List (Entry T) × List (Entry T)
  meet_range result x [] = (result, [])
  meet_range result x (o ∷ os) =
      let result' = push_common result x o in
      let rest = meet_range result' x os in
      if leb x.end o.start
      then (result, o ∷ os)
      else if ltb o.end x.end
      then rest
      else (result', o ∷ os)

  intersect_loop : List (Entry T) → List (Entry T) → List (Entry T) → List (Entry T)
  intersect_loop result [] os = result
  intersect_loop result (x ∷ xs) os =
      let (result', left) = meet_range result x (skip_before x.start os) in
      intersect_loop result' xs left

  pub intersect : List (Entry T) → List (Entry T) → List (Entry T)
  intersect [] os = []
  intersect (x ∷ xs) [] = []
  intersect (x ∷ xs) (o ∷ os) = intersect_loop [] (x ∷ xs) (o ∷ os)

  -- The value of an intersection at one clock.
  abbrev pub meet : Option T → Option T → Option T
  meet none y = none
  meet (some x) none = none
  meet (some x) (some y) = some (m.merge x y)
