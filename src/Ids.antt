-- ===== src/Ids.antt =====
-- yrs/src/ids.rs: `IdRanges<T>`, sorted clock ranges with values.
pub mod Order
pub mod Canonical
pub mod Remove
pub mod Push
pub mod Union
pub mod Exclude
pub mod Intersect
pub mod Query
pub mod Subset
pub mod Insert
use y_crdt.Common.{
  ℕ, ◌≤◌, ◌<◌, max, ◌≡◌, ◌↔◌, Bool, true, false, ◌&&◌, Option, none, some, List, [], ◌∷◌, leb, ltb,
  if◌then◌else◌,
}

-- The trait `Merge: Clone + PartialEq`. The model takes `==` to be equality of values.
pub record Merge (T : Type 0) : Type 0 where
  pub merge : T → T → T
  pub beq : T → T → Bool
  pub beq_iff : (a b : T) → (beq a b ≡ true) ↔ (a ≡ b)

-- An element `(Range<u32>, T)`, with the range's fields beside the value.
pub record Entry (T : Type 0) : Type 0 where
  pub start : ℕ
  pub end : ℕ
  pub value : T

-- The clock lies in the half-open range.
abbrev pub within : ℕ → ℕ → ℕ → Bool
within start end clock = leb start clock && ltb clock end

module _ {T : Type 0} where
  -- What a list of entries says of a clock: the value of the first entry that holds it.
  unfoldable pub value_at : List (Entry T) → ℕ → Option T
  value_at [] clock = none
  value_at (e ∷ r) clock = if within e.start e.end clock then some e.value else value_at r clock

  -- Sorted, without overlap, no range empty, from `lo` on.
  abbrev pub IsOrdered : ℕ → List (Entry T) → Type 0
  IsOrdered lo [] = Unit
  IsOrdered lo (e ∷ r) = (lo ≤ e.start) × (e.start < e.end) × IsOrdered e.end r

  -- All ranges end at `hi` or before.
  abbrev pub EndsBy : ℕ → List (Entry T) → Type 0
  EndsBy hi [] = Unit
  EndsBy hi (e ∷ r) = (e.end ≤ hi) × EndsBy hi r

module _ {T : Type 0} ⦃m : Merge T⦄ where
  -- `push_coalesced`: append a range, or extend the last one if they touch and agree.
  unfoldable pub push_coalesced : List (Entry T) → ℕ → ℕ → T → List (Entry T)
  push_coalesced [] start end value =
      if leb end start then [] else record { start = start; end = end; value = value } ∷ []
  push_coalesced (last ∷ []) start end value =
      if leb end start
      then last ∷ []
      else if leb start last.end && m.beq last.value value
      then record last { end = max last.end end } ∷ []
      else last ∷ record { start = start; end = end; value = value } ∷ []
  push_coalesced (x ∷ y ∷ r) start end value = x ∷ push_coalesced (y ∷ r) start end value

  -- Two neighbours that touch or overlap and hold equal values.
  abbrev pub joins : Entry T → Entry T → Bool
  joins p e = leb e.start p.end && m.beq p.value e.value

  -- The canonical form: sorted, no range empty, no overlap, and no two neighbours left to join.
  abbrev pub IsCanonical : List (Entry T) → Type 0
  IsCanonical [] = Unit
  IsCanonical (e ∷ []) = e.start < e.end
  IsCanonical (e ∷ f ∷ r) =
      (e.start < e.end) × (e.end ≤ f.start) × (joins e f ≡ false) × IsCanonical (f ∷ r)

  -- What an overlap of an old value, if there is one, with a new value holds.
  abbrev pub merge_into : Option T → T → T
  merge_into none v = v
  merge_into (some w) v = m.merge w v

  -- `old` with `value` merged in over the range.
  abbrev pub overlay : ℕ → ℕ → T → ℕ → Option T → Option T
  overlay start end value clock old =
      if within start end clock then some (merge_into old value) else old
