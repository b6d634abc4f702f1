-- ===== src/StateVector/Visible.antt =====
-- What a snapshot shows.
use y_crdt.Common.{ℕ, ◌<◌, ◌≡◌, ◌↔◌, Bool, true, not, ◌&&◌, Option, none, some, ltb, arith}
use y_crdt.Ids.{Merge}
use y_crdt.Ids.Query.{is_some}
use y_crdt.IdMap.{value_in, IsValid, contains}
use y_crdt.IdMap.Values.{contains-value_in}
use y_crdt.StateVector.{Snapshot, is_visible, clock_of}

visible_go :
    {T : Type 0} (v : Option T) (b : Bool) (clock seen : ℕ)
    → b ≡ is_some v
    → ((ltb clock seen && not b) ≡ true) ↔ ((clock < seen) × (v ≡ none))
visible_go none b clock seen e = ground arith
visible_go (some v) b clock seen e = ground arith

module _ ⦃m : Merge Unit⦄ where
  -- A snapshot whose delete set is valid shows an identifier if and only if its clock is below the
  -- clock of its client and the delete set does not hold it.
  pub is_visible_iff :
      (s : Snapshot) (client clock : ℕ)
      → IsValid s.delete_set
      → (is_visible s client clock ≡ true)
        ↔ ((clock < clock_of s.state_map client) × (value_in s.delete_set client clock ≡ none))
  unfolding is_visible
  is_visible_iff s client clock k =
      visible_go (value_in s.delete_set client clock) (contains s.delete_set client clock) clock
        (clock_of s.state_map client) (contains-value_in s.delete_set client clock k)
