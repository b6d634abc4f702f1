-- ===== src/BlockStore.antt =====
-- yrs/src/block_store.rs: the blocks of each client, in the order of their clocks, and how the block
-- of a clock is found. The arithmetic of clocks and
-- indexes is checked, as in a build with overflow checks.
pub mod Find
pub mod Push
use y_crdt.Common.{
  ◌++◌, ℕ, zero, suc, ◌+◌, ◌-◌, ◌*◌, ◌/◌, ◌%◌, ◌^◌, ◌≤◌, ◌<◌, ◌≡◌, refl, Bool, true, false, ◌||◌,
  Option, none, some, List, [], ◌∷◌, length, get_elem?, ltb, leb, ◌==◌, if◌then◌else◌,
}
use y_crdt.Encoding.{Result, ok, panic, ◌>>=◌}
use y_crdt.BTree.{get}
use y_crdt.HashMap.{put}
use y_crdt.IdMap.{IdMap, contains, remove_range}

-- The kinds of `Block`; an item is a number on the heap.
pub data Kind : Type 0 where
  item : ℕ → Kind
  gc : Kind
  skip : Kind

pub record StoredBlock : Type 0 where
  pub clock : ℕ
  pub len : ℕ
  pub kind : Kind

-- The clock behind the block.
abbrev pub block_end : StoredBlock → ℕ
block_end b = b.clock + b.len

-- `Block::next_clock`, a sum of `u32`.
abbrev pub next_clock : StoredBlock → Result ℕ
next_clock b = if ltb (block_end b) (2 ^ 32) then ok (block_end b) else panic

-- The end of `clock_range`, which is the last clock of the block.
abbrev pub last_clock : StoredBlock → Result ℕ
last_clock b = next_clock b >>= (λ end. if end == 0 then panic else ok (end - 1))

abbrev pub last_block : List StoredBlock → Option StoredBlock
last_block [] = none
last_block (b ∷ []) = some b
last_block (b ∷ c ∷ bs) = last_block (c ∷ bs)

-- `ClientBlockList::clock`
unfoldable pub list_clock : List StoredBlock → Result ℕ
list_clock bs = elim (last_block bs) [ none ↦ ok 0 | some b ↦ next_clock b ]

-- The loop of `find_index`; no fuel left answers `panic`.
unfoldable pub index_loop : ℕ → List StoredBlock → ℕ → ℕ → ℕ → ℕ → Result (Option ℕ)
index_loop zero bs clock mid left right = panic
index_loop (suc fuel) bs clock mid left right =
    let after = index_loop fuel bs clock ((mid + 1 + right) / 2) (mid + 1) right in
    let before = index_loop fuel bs clock ((left + (mid - 1)) / 2) left (mid - 1) in
    if leb left right
    then elim (get_elem? bs mid) [
      | none ↦ panic
      | some b ↦ last_clock b >>= (λ last.
          if leb b.clock clock
          then (if leb clock last then ok (some mid) else after)
          else if mid == 0
          then panic
          else before)
    ]
    else ok none

unfoldable pub find_index : List StoredBlock → ℕ → Result (Option ℕ)
find_index bs clock = elim (last_block bs) [
  | none ↦ panic
  | some b ↦
      let right = length bs - 1 in
      last_clock b >>= (λ last.
        if b.clock == clock
        then ok (some right)
        else if ltb last clock
        then ok none
        else if last == 0
        then panic
        else index_loop (suc (length bs)) bs clock (clock / last * (right % 2 ^ 32)) 0 right)
]

abbrev pub nth_block : List StoredBlock → Option ℕ → Option StoredBlock
nth_block bs none = none
nth_block bs (some i) = get_elem? bs i

-- `ClientBlockList::get_block`
unfoldable pub get_block : List StoredBlock → ℕ → Result (Option StoredBlock)
get_block bs clock = find_index bs clock >>= (λ i. ok (nth_block bs i))

pub record BlockStore : Type 0 where
  pub clients : List (ℕ × List StoredBlock)
  pub skips : IdMap Unit

unfoldable pub get_clock : BlockStore → ℕ → Result ℕ
get_clock s client = elim (get client s.clients) [ none ↦ ok 0 | some bs ↦ list_clock bs ]

abbrev pub item_of : Option StoredBlock → Option ℕ
item_of none = none
item_of (some b) = elim b.kind [ item p ↦ some p | gc ↦ none | skip ↦ none ]

-- `BlockStore::get_item`
unfoldable pub get_item : BlockStore → ℕ → ℕ → Result (Option ℕ)
get_item s client clock = elim (get client s.clients) [
  | none ↦ ok none
  | some bs ↦ get_block bs clock >>= (λ b. ok (item_of b))
]

-- `Vec::insert`, which panics behind the end.
unfoldable pub insert_at : ℕ → StoredBlock → List StoredBlock → List StoredBlock
insert_at zero x bs = x ∷ bs
insert_at (suc i) x [] = []
insert_at (suc i) x (b ∷ bs) = b ∷ insert_at i x bs

-- An assignment to an index, which panics behind the end.
unfoldable pub set_at : ℕ → StoredBlock → List StoredBlock → List StoredBlock
set_at i x [] = []
set_at zero x (b ∷ bs) = x ∷ bs
set_at (suc i) x (b ∷ bs) = b ∷ set_at i x bs

abbrev pub skip_block : ℕ → ℕ → StoredBlock
skip_block clock len = record { clock = clock; len = len; kind = skip }

-- The part of `push` that puts a block in place of an integrated skip, of which what is left before
-- and behind the block stays.
unfoldable pub fill_skip :
    Bool → Bool → ℕ → StoredBlock → StoredBlock → List StoredBlock → List StoredBlock
fill_skip true before_end i old block bs =
    fill_end before_end (suc i) (insert_at i (skip_block old.clock (block.clock - old.clock)) bs)
  where
    fill_end : Bool → ℕ → List StoredBlock → List StoredBlock
    fill_end true i bs =
        set_at i block
          (insert_at (suc i) (skip_block (block_end block) (block_end old - block_end block)) bs)
    fill_end false i bs = set_at i block bs
fill_skip false true i old block bs =
    set_at i block
      (insert_at (suc i) (skip_block (block_end block) (block_end old - block_end block)) bs)
fill_skip false false i old block bs = set_at i block bs

-- `BlockStore::push` on the list of the block's client. The subtractions of clocks are checked.
unfoldable pub push_block : StoredBlock → List StoredBlock → Result (List StoredBlock)
push_block block bs = elim (last_block bs) [
  | none ↦ ok (bs ++ block ∷ [])
  | some b ↦ next_clock b >>= (λ end.
      if end == block.clock
      then ok (bs ++ block ∷ [])
      else (find_index bs block.clock >>= (λ i. replace i (nth_block bs i))))
]
  where
    replace : Option ℕ → Option StoredBlock → Result (List StoredBlock)
    replace none old = panic
    replace (some i) none = panic
    replace (some i) (some old) =
        if ltb block.clock old.clock
        then panic
        else (next_clock old >>= (λ old_end. next_clock block >>= (λ end.
            if ltb old_end end
            then panic
            else ok (fill_skip (ltb old.clock block.clock) (ltb end old_end) i old block bs))))

unfoldable pub is_missing : BlockStore → ℕ → ℕ → Result Bool
is_missing s client clock =
    get_clock s client >>= (λ end. ok (leb end clock || contains s.skips client clock))

-- The block replaces an integrated skip.
abbrev pub replaces_skip : StoredBlock → List StoredBlock → Bool
replaces_skip block bs = elim (last_block bs) [
  | none ↦ false
  | some b ↦ if block_end b == block.clock then false else true
]

unfoldable pub push : BlockStore → ℕ → StoredBlock → Result BlockStore
push s client block = elim (get client s.clients) [
  | none ↦ ok (record { clients = put client (block ∷ []) s.clients; skips = s.skips })
  | some bs ↦ push_block block bs >>= (λ pushed. ok (record {
    clients = put client pushed s.clients;
    skips =
        if replaces_skip block bs
        then remove_range s.skips client block.clock (block_end block)
        else s.skips;
  }))
]
