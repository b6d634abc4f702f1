-- ===== src/IdMap.antt =====
-- yrs/src/ids.rs: `IdMapInner<T>`, a map from client to its `IdRanges`, and yrs/src/id_set.rs:
-- `IdSet`, the map whose values are `()`.
pub mod Values
pub mod Valid
pub mod Algebra
pub mod Build
pub mod Codec
use y_crdt.Common.{
  ℕ, ◌+◌, ◌≡◌, Bool, true, false, Option, none, some, List, [], ◌∷◌, ◌++◌, map, foldl,
  if◌then◌else◌,
}
use y_crdt.Ids.{Merge, Entry, value_at, IsCanonical}
use y_crdt.Ids.Query.{contains_clock}
use y_crdt.Ids.Insert.{insert_with}
use y_crdt.Ids.Remove
use y_crdt.Ids.Union
use y_crdt.Ids.Exclude.{exclude}
use y_crdt.Ids.Intersect.{intersect}
use y_crdt.BTree

-- The map's representation: clients in order, each with its ranges.
abbrev pub IdMap : Type 0 → Type 0
IdMap T = List (ℕ × List (Entry T))

abbrev pub is_empty {ℓ} : {A : Type ℓ} → List A → Bool
is_empty [] = true
is_empty (x ∷ xs) = false

-- What a closure of `retain` keeps: the ranges it left, unless none is left.
abbrev pub keep_some {ℓ} : {A : Type ℓ} → List A → Option (List A)
keep_some xs = if is_empty xs then none else some xs

module _ {T : Type 0} where
  -- `entry(client).or_default()`
  abbrev pub or_default : Option (List (Entry T)) → List (Entry T)
  or_default none = []
  or_default (some xs) = xs

  unfoldable pub contains : IdMap T → ℕ → ℕ → Bool
  contains map client clock = elim (BTree.get client map) [
    | some ranges ↦ contains_clock ranges clock
    | none ↦ false
  ]

  -- The value that a map holds at an identifier: the abstract view of the map.
  abbrev pub value_in : IdMap T → ℕ → ℕ → Option T
  value_in map client clock = value_at (or_default (BTree.get client map)) clock

  -- `IdSet::remove_range`
  unfoldable pub remove_range : IdMap T → ℕ → ℕ → ℕ → IdMap T
  remove_range map client start end = elim (BTree.get client map) [
    | none ↦ map
    | some ranges ↦
        let left = Remove.remove ranges start end in
        if is_empty left then BTree.remove client map else BTree.insert client left map
  ]

module _ {T U : Type 0} where
  unfoldable pub diff_with : IdMap T → IdMap U → IdMap T
  diff_with map other =
      BTree.retain
        (λ client ranges. elim (BTree.get client other) [
          | some other_ranges ↦ keep_some (exclude ranges other_ranges)
          | none ↦ keep_some ranges
        ])
        map

module _ {T : Type 0} ⦃m : Merge T⦄ where
  unfoldable pub insert_range : IdMap T → ℕ → ℕ → ℕ → T → IdMap T
  insert_range map client start end value =
      BTree.insert client (insert_with (or_default (BTree.get client map)) start end value) map

  -- One client of the other map: `Entry::Occupied` merges, `Entry::Vacant` inserts.
  -- This is also `IdSet::insert_range`.
  unfoldable pub merge_ranges : IdMap T → ℕ → List (Entry T) → IdMap T
  merge_ranges map client other_ranges = elim (BTree.get client map) [
    | some ranges ↦ BTree.insert client (Union.merge ranges other_ranges) map
    | none ↦ BTree.insert client other_ranges map
  ]

  unfoldable pub merge_with : IdMap T → IdMap T → IdMap T
  merge_with map [] = map
  merge_with map ((client, other_ranges) ∷ other) =
      merge_with (merge_ranges map client other_ranges) other

  unfoldable pub intersect_with : IdMap T → IdMap T → IdMap T
  intersect_with map other =
      BTree.retain
        (λ client ranges. elim (BTree.get client other) [
          | some other_ranges ↦ keep_some (intersect ranges other_ranges)
          | none ↦ none
        ])
        map

  -- An entry of a map: canonical ranges, at least one.
  abbrev pub IsRanges : List (Entry T) → Type 0
  IsRanges xs = IsCanonical xs × (is_empty xs ≡ false)

  -- The invariant of a map: clients in order, and no empty ranges stored.
  abbrev pub IsValid : IdMap T → Type 0
  IsValid map = BTree.IsSorted 0 map × BTree.AllValues IsRanges map
