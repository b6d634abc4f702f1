-- ===== src/Examples/Stores.antt =====
-- Lists of blocks at concrete inputs.
use y_crdt.Common.{◌≡◌, refl, some, none, List, [], ◌∷◌, ltb, if◌then◌else◌, arith, inr}
use y_crdt.Encoding.{ok}
use y_crdt.BlockStore.{StoredBlock, item, skip, gc, find_index, push_block}
use y_crdt.BlockStore.Find.{IsContiguous, owner, list_end, find_index-owner}
use y_crdt.BlockStore.Push.{push_block-IsContiguous}

-- An item, a skip and garbage.
abbrev three_blocks : List StoredBlock
three_blocks =
    record { clock = 0; len = 3; kind = item 1 }
    ∷ record { clock = 3; len = 5; kind = skip }
    ∷ record { clock = 8; len = 2; kind = gc }
    ∷ []

find_index-owner_example :
    find_index three_blocks 5
    ≡ (if ltb 5 (list_end three_blocks) then ok (some (owner three_blocks 5)) else ok none)
find_index-owner_example =
    find_index-owner three_blocks 5
      (refl, omega arith, (refl, omega arith, (refl, omega arith, tt))) (omega arith) (omega arith)

-- A block inside the skip.
abbrev late_block : StoredBlock
late_block = record { clock = 4; len = 2; kind = item 2 }

push_block-IsContiguous_example :
    (pushed : List StoredBlock) × (push_block late_block three_blocks ≡ ok pushed)
    × IsContiguous 0 pushed
push_block-IsContiguous_example =
    push_block-IsContiguous late_block three_blocks
      (refl, omega arith, (refl, omega arith, (refl, omega arith, tt))) (omega arith) (omega arith)
      (inr (record { clock = 3; len = 5; kind = skip }, refl, omega arith, omega arith))
