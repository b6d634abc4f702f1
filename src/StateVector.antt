-- ===== src/StateVector.antt =====
-- yrs/src/state_vector.rs: clocks per client, their partial order, and snapshots.
-- A `HashMap` is the list of its entries in the order in which it iterates, each key once; a new
-- key may stand anywhere, here at the end, and no theorem rests on that order.
pub mod Clocks
pub mod Order
pub mod Visible
pub mod Codec
use Prim.Native.Nat.{compare, Ordering}
use y_crdt.Common.{
  ℕ, ◌+◌, ◌^◌, min, max, Bool, true, false, not, ◌&&◌, Option, none, some, List, [], ◌∷◌, map, ltb,
  leb, ◌==◌, if◌then◌else◌, ◌≡◌,
}
use y_crdt.Encoding.{Result, ok, panic}
use y_crdt.BTree.{get}
use y_crdt.HashMap.{put}
use y_crdt.Ids.{Merge}
use y_crdt.IdMap.{IdMap, contains}

abbrev pub StateVector : Type 0
StateVector = List (ℕ × ℕ)

abbrev pub or_zero : Option ℕ → ℕ
or_zero none = 0
or_zero (some clock) = clock

-- `StateVector::get`
abbrev pub clock_of : StateVector → ℕ → ℕ
clock_of sv client = or_zero (get client sv)

unfoldable pub has_seen : StateVector → ℕ → ℕ → Bool
has_seen sv client clock = leb clock (clock_of sv client)

-- The sum is that of `u32`, and is checked.
unfoldable pub inc_by : StateVector → ℕ → ℕ → Result StateVector
inc_by sv client delta =
    if ltb 0 delta
    then if ltb (clock_of sv client + delta) (2 ^ 32)
      then ok (put client (clock_of sv client + delta) sv)
      else panic
    else ok sv

unfoldable pub set_min : StateVector → ℕ → ℕ → StateVector
set_min sv client clock = elim (get client sv) [
  | some value ↦ put client (min value clock) sv
  | none ↦ put client clock sv
]

unfoldable pub set_max : StateVector → ℕ → ℕ → StateVector
set_max sv client clock = put client (max (clock_of sv client) clock) sv

unfoldable pub merge : StateVector → StateVector → StateVector
merge sv [] = sv
merge sv ((client, clock) ∷ other) = merge (put client (max (clock_of sv client) clock) sv) other

-- One round of `partial_cmp`: `none` is the early return.
abbrev pub compare_step : Ordering → Ordering → Option Ordering
compare_step Ordering.gt Ordering.lt = none
compare_step Ordering.lt Ordering.gt = none
compare_step result Ordering.eq = some result
compare_step result order = some order

unfoldable pub compare_loop : List (ℕ × ℕ) → Ordering → Option Ordering
compare_loop [] result = some result
compare_loop ((clock, other_clock) ∷ r) result =
    elim (compare_step result (compare clock other_clock)) [
      | none ↦ none
      | some next ↦ compare_loop r next
    ]

-- The clocks that the first loop compares, and those of the second.
unfoldable pub own_clocks : StateVector → StateVector → List (ℕ × ℕ)
own_clocks [] other = []
own_clocks ((client, clock) ∷ sv) other = (clock, clock_of other client) ∷ own_clocks sv other

unfoldable pub other_clocks : StateVector → StateVector → List (ℕ × ℕ)
other_clocks sv [] = []
other_clocks sv ((client, clock) ∷ other) = (clock_of sv client, clock) ∷ other_clocks sv other

unfoldable pub partial_cmp : StateVector → StateVector → Option Ordering
partial_cmp sv other = elim (compare_loop (own_clocks sv other) Ordering.eq) [
  | none ↦ none
  | some result ↦ compare_loop (other_clocks sv other) result
]

-- `Snapshot`: what was seen and what was deleted.
pub record Snapshot : Type 0 where
  pub delete_set : IdMap Unit
  pub state_map : StateVector

unfoldable pub is_visible : Snapshot → ℕ → ℕ → Bool
is_visible s client clock =
    ltb clock (clock_of s.state_map client) && not (contains s.delete_set client clock)
