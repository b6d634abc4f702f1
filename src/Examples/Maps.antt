-- ===== src/Examples/Maps.antt =====
-- Maps of ranges at concrete inputs.
use y_crdt.Examples.{numbers, small_map, other_map, small_map-IsValid, other_map-IsValid, units}
use y_crdt.IdMap.Build.{from_ranges, from_ranges_lem, any_holds}
use y_crdt.Ids.{value_at, IsCanonical}
use y_crdt.Common.{ℕ, List, ◌++◌, ◌≡◌, refl, [], ◌∷◌, arith}
use y_crdt.Encoding.{ok}
use y_crdt.IdMap.Codec.{encode_set, decode_set, decode_set-encode_set}
use y_crdt.Ids.Query.{is_some}
use y_crdt.IdMap.{
  IdMap, IsValid, value_in, contains, insert_range, merge_with, diff_with, intersect_with,
}
use y_crdt.IdMap.Values.{contains-value_in}
use y_crdt.IdMap.Valid.{insert_range-IsValid, intersect_with-IsValid}
use y_crdt.IdMap.Algebra.{merge_with_comm, merge_with_assoc, split-merge}

contains-value_in_example : contains small_map 5 3 ≡ is_some (value_in small_map 5 3)
contains-value_in_example = contains-value_in small_map 5 3 small_map-IsValid

intersect_with-IsValid_example : IsValid (intersect_with small_map other_map)
intersect_with-IsValid_example =
    intersect_with-IsValid small_map other_map small_map-IsValid other_map-IsValid

insert_range-IsValid_example : IsValid (insert_range small_map 2 3 6 1)
insert_range-IsValid_example =
    insert_range-IsValid (λ a. omega arith) small_map 2 3 6 1 (omega arith) small_map-IsValid

merge_with_comm_example : merge_with small_map other_map ≡ merge_with other_map small_map
merge_with_comm_example =
    merge_with_comm (λ a b. omega arith) small_map other_map small_map-IsValid other_map-IsValid

merge_with_assoc_example :
    merge_with (merge_with small_map other_map) small_map
    ≡ merge_with small_map (merge_with other_map small_map)
merge_with_assoc_example =
    merge_with_assoc (λ a b c. omega arith) small_map other_map small_map small_map-IsValid
      other_map-IsValid small_map-IsValid

-- Two `IdSet`s.
abbrev unit_map : IdMap Unit
unit_map = (1, record { start = 2; end = 6; value = tt } ∷ []) ∷ []

abbrev other_unit_map : IdMap Unit
other_unit_map = (1, record { start = 4; end = 9; value = tt } ∷ []) ∷ []

split-merge_example :
    merge_with (intersect_with unit_map other_unit_map) (diff_with unit_map other_unit_map)
    ≡ unit_map
split-merge_example =
    split-merge unit_map other_unit_map (λ a b. refl) ((omega arith, tt), ((omega arith, refl), tt))
      ((omega arith, tt), ((omega arith, refl), tt))

decode_set-encode_set_example : decode_set (encode_set unit_map ++ (3 ∷ [])) ≡ ok (unit_map, 3 ∷ [])
decode_set-encode_set_example =
    decode_set-encode_set unit_map (3 ∷ []) (omega arith, tt)
      (omega arith, omega arith, (omega arith, omega arith, tt), tt) (omega arith)

-- Ranges out of order that overlap.
abbrev three_pairs : List (ℕ × ℕ)
three_pairs = (4, 8) ∷ (0, 2) ∷ (1, 5) ∷ []

from_ranges_lem_example :
    IsCanonical (from_ranges three_pairs)
    × (is_some (value_at (from_ranges three_pairs) 3) ≡ any_holds three_pairs 3)
from_ranges_lem_example = from_ranges_lem three_pairs 3
