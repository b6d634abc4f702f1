-- ===== src/Examples/Ranges.antt =====
-- `IdRanges` at concrete inputs.
use y_crdt.Common.{ℕ, ◌≡◌, arith}
use y_crdt.Ids.{value_at, IsCanonical}
use y_crdt.Ids.Insert.{insert_with}
use y_crdt.Ids.Insert.Correct.{insert_with-Inserted, Inserted}
use y_crdt.Ids.Union.{merge}
use y_crdt.Ids.Union.Steps.{both}
use y_crdt.Ids.Union.Correct.{merge-Swept}
use y_crdt.Ids.Exclude.{exclude, hide, value_at-exclude}
use y_crdt.Ids.Intersect.{intersect, meet}
use y_crdt.Ids.Intersect.Correct.{intersect-Met}
use y_crdt.Examples.{
  numbers, two_ranges, three_ranges, two_ranges-IsCanonical, three_ranges-IsCanonical,
  two_ranges-IsOrdered, three_ranges-IsOrdered,
}

insert_with-Inserted_example : Inserted two_ranges 2 7 5 (insert_with two_ranges 2 7 5)
insert_with-Inserted_example =
    insert_with-Inserted (λ a. omega arith) two_ranges 2 7 5 two_ranges-IsCanonical

merge-Swept_example :
    IsCanonical (merge two_ranges three_ranges)
    × ((c : ℕ)
        → value_at (merge two_ranges three_ranges) c
          ≡ both (value_at two_ranges c) (value_at three_ranges c))
merge-Swept_example =
    merge-Swept two_ranges three_ranges two_ranges-IsCanonical three_ranges-IsCanonical

value_at-exclude_example :
    value_at (exclude two_ranges three_ranges) 8
    ≡ hide (value_at three_ranges 8) (value_at two_ranges 8)
value_at-exclude_example =
    value_at-exclude two_ranges three_ranges 8 two_ranges-IsOrdered three_ranges-IsOrdered

intersect-Met_example :
    IsCanonical (intersect two_ranges three_ranges)
    × ((c : ℕ)
        → value_at (intersect two_ranges three_ranges) c
          ≡ meet (value_at two_ranges c) (value_at three_ranges c))
intersect-Met_example =
    intersect-Met two_ranges three_ranges two_ranges-IsCanonical three_ranges-IsCanonical
