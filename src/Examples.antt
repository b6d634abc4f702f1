-- ===== src/Examples.antt =====
-- Concrete runs of the modelled code, and its theorems at concrete inputs.
mod Ranges
mod Maps
mod Numbers
mod Columns
mod Awareness
mod Blocks
mod Stores
mod Updates
mod Messages
mod Wire
mod Clocks
use y_crdt.Common.{true, ℕ, max, ◌==◌, ==_iff, List, [], ◌∷◌, ◌≡◌, refl, arith}
use y_crdt.Ids.{Merge, Entry, IsCanonical, IsOrdered}
use y_crdt.IdMap.{IdMap, IsValid}

-- Numbers as values, where the larger one wins.
instance abbrev numbers : Merge ℕ
numbers = record { merge = max; beq = ◌==◌; beq_iff = ==_iff }

-- The values of an `IdSet`.
instance abbrev units : Merge Unit
units = record { merge = λ a b. tt; beq = λ a b. true; beq_iff = λ a b. (λ h. refl, λ h. refl) }

abbrev range : ℕ → ℕ → ℕ → Entry ℕ
range start end value = record { start = start; end = end; value = value }

abbrev two_ranges : List (Entry ℕ)
two_ranges = range 1 4 7 ∷ range 6 9 2 ∷ []

abbrev three_ranges : List (Entry ℕ)
three_ranges = range 0 2 3 ∷ range 3 7 5 ∷ range 7 8 2 ∷ []

two_ranges-IsCanonical : IsCanonical two_ranges
two_ranges-IsCanonical = (omega arith, omega arith, refl, omega arith)

three_ranges-IsCanonical : IsCanonical three_ranges
three_ranges-IsCanonical =
    (omega arith, omega arith, refl, (omega arith, omega arith, refl, omega arith))

two_ranges-IsOrdered : IsOrdered 0 two_ranges
two_ranges-IsOrdered = (omega arith, omega arith, (omega arith, omega arith, tt))

three_ranges-IsOrdered : IsOrdered 0 three_ranges
three_ranges-IsOrdered =
    (omega arith, omega arith, (omega arith, omega arith, (omega arith, omega arith, tt)))

abbrev small_map : IdMap ℕ
small_map = (1, two_ranges) ∷ (5, three_ranges) ∷ []

abbrev other_map : IdMap ℕ
other_map = (1, three_ranges) ∷ (2, two_ranges) ∷ []

small_map-IsValid : IsValid small_map
small_map-IsValid = (
  (omega arith, (omega arith, tt)),
  ((two_ranges-IsCanonical, refl), ((three_ranges-IsCanonical, refl), tt)),
)

other_map-IsValid : IsValid other_map
other_map-IsValid = (
  (omega arith, (omega arith, tt)),
  ((three_ranges-IsCanonical, refl), ((two_ranges-IsCanonical, refl), tt)),
)
