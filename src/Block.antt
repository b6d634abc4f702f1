-- ===== src/Block.antt =====
-- yrs/src/block.rs: where an item goes among the items of its parent, `Item::detect_conflict` and
-- `Item::resolve_conflict`, and how `TransactionMut::integrate_item` links it.
-- A pointer to an item is a number, and the heap a function from it. `get_item` stands for the lookup
-- of an identifier in the block store (BlockStore). A hash set is a list. The loops have fuel.
pub mod Segment
pub mod Content
pub mod Wire
pub mod Link
pub mod Resolve
pub mod Integrate
pub mod Converge
use y_crdt.Common.{
  is_among, ℕ, zero, suc, Bool, true, false, not, ◌&&◌, ◌||◌, Option, none, some, List, [], ◌∷◌,
  ltb, ◌==◌, if◌then◌else◌,
}

pub record BlockId : Type 0 where
  pub client : ℕ
  pub clock : ℕ

pub record Item : Type 0 where
  pub id : BlockId
  pub left : Option ℕ
  pub right : Option ℕ
  pub origin : Option BlockId
  pub right_origin : Option BlockId
  pub parent_sub : Option ℕ

abbrev pub Heap : Type 0
Heap = ℕ → Item

-- The parent: its first item, and the newest item under each key.
pub record Branch : Type 0 where
  pub start : Option ℕ
  pub map : ℕ → Option ℕ

abbrev pub same_ptr : Option ℕ → Option ℕ → Bool
same_ptr none none = true
same_ptr none (some q) = false
same_ptr (some p) none = false
same_ptr (some p) (some q) = p == q

abbrev pub same_id : Option BlockId → Option BlockId → Bool
same_id none none = true
same_id none (some j) = false
same_id (some i) none = false
same_id (some i) (some j) = (i.client == j.client) && (i.clock == j.clock)

abbrev pub is_linked : Option ℕ → Bool
is_linked none = false
is_linked (some p) = true

unfoldable pub detect_conflict : Heap → Item → Bool
detect_conflict heap self = detect self.left self.right
  where
    detect : Option ℕ → Option ℕ → Bool
    detect none none = true
    detect none (some right) = is_linked (heap right).left
    detect (some left) right = not (same_ptr (heap left).right right)

-- What a round of the loop does: it ends, moves `left` to the item and forgets the conflicting
-- items, or goes on.
pub data Verdict : Type 0 where
  stop : Verdict
  advance : Verdict
  skip : Verdict

module _ (heap : Heap) (get_item : BlockId → Option ℕ) where
  abbrev pub origin_item : Option BlockId → Option ℕ
  origin_item none = none
  origin_item (some id) = get_item id

  -- The body of the loop for one item, which both sets have already.
  unfoldable pub verdict : Item → ℕ → List ℕ → List ℕ → Verdict
  verdict self o conflicting before =
      let item = heap o in
      if same_id self.origin item.origin
      then if ltb item.id.client self.id.client
        then advance
        else if same_id self.right_origin item.right_origin
        then stop
        else skip
      else elim (origin_item item.origin) [
        | none ↦ stop
        | some origin_left ↦
            if is_among origin_left before
            then if not (is_among origin_left conflicting) then advance else skip
            else stop
      ]

  -- The loop of `resolve_conflict`: the new `left`.
  unfoldable pub scan : ℕ → Item → Option ℕ → Option ℕ → List ℕ → List ℕ → Option (Option ℕ)
  scan fuel self none left conflicting before = some left
  scan zero self (some o) left conflicting before = none
  scan (suc fuel) self (some o) left conflicting before =
      let next = (heap o).right in
      if same_ptr self.right (some o)
      then some left
      else elim (verdict self o (o ∷ conflicting) (o ∷ before)) [
        | stop ↦ some left
        | advance ↦ scan fuel self next (some o) [] (o ∷ before)
        | skip ↦ scan fuel self next left (o ∷ conflicting) (o ∷ before)
      ]

  -- The first item of a list, from any item of it.
  unfoldable pub leftmost : ℕ → ℕ → Option ℕ
  leftmost zero o = none
  leftmost (suc fuel) o = elim (heap o).left [ none ↦ some o | some left ↦ leftmost fuel left ]

  -- The first item under a key.
  unfoldable pub first_under : ℕ → Branch → ℕ → Option (Option ℕ)
  first_under fuel parent sub = elim (parent.map sub) [
    | none ↦ some none
    | some o ↦ elim (leftmost fuel o) [ none ↦ none | some first ↦ some (some first) ]
  ]

  -- The first item of the parent's list.
  unfoldable pub first_item : ℕ → Branch → Option ℕ → Option (Option ℕ)
  first_item fuel parent none = some parent.start
  first_item fuel parent (some sub) = first_under fuel parent sub

  unfoldable pub first_conflict : ℕ → Branch → Item → Option (Option ℕ)
  first_conflict fuel parent self = elim self.left [
    | some left ↦ some (heap left).right
    | none ↦ first_item fuel parent self.parent_sub
  ]

  unfoldable pub resolve_conflict : ℕ → Branch → Item → Option (Option ℕ)
  resolve_conflict fuel parent self = elim (first_conflict fuel parent self) [
    | none ↦ none
    | some o ↦ scan fuel self o self.left [] []
  ]

abbrev pub set_left : Option ℕ → Item → Item
set_left left i = record {
  id = i.id;
  left = left;
  right = i.right;
  origin = i.origin;
  right_origin = i.right_origin;
  parent_sub = i.parent_sub;
}

abbrev pub set_right : Option ℕ → Item → Item
set_right right i = record {
  id = i.id;
  left = i.left;
  right = right;
  origin = i.origin;
  right_origin = i.right_origin;
  parent_sub = i.parent_sub;
}

-- A write through a pointer.
abbrev pub write : ℕ → (Item → Item) → Heap → Heap
write p f heap q = if p == q then f (heap q) else heap q

abbrev pub write_at : Option ℕ → (Item → Item) → Heap → Heap
write_at none f heap = heap
write_at (some p) f heap = write p f heap

-- What linking leaves: the heap, the parent, and the item that it deletes.
pub record Linked : Type 0 where
  pub heap : Heap
  pub parent : Branch
  pub deleted : Option ℕ

-- Link the item `p` between its `left` and the item `right`, which follows it.
unfoldable pub link : Heap → Branch → ℕ → Option ℕ → Option ℕ → Option ℕ → Linked
link heap parent p sub left right =
    let own = write p (λ i. set_left left (set_right right i)) heap in
    let after_left = write_at left (λ i. set_right (some p) i) own in
    record {
      heap = write_at right (λ i. set_left (some p) i) after_left;
      parent = elim left [
        | some l ↦ elim right [ some r ↦ parent | none ↦ newest sub parent ]
        | none ↦ elim right [ some r ↦ started sub | none ↦ newest sub (started sub) ]
      ];
      deleted = elim right [ some r ↦ none | none ↦ elim sub [ none ↦ none | some key ↦ left ] ];
    }
  where
    started : Option ℕ → Branch
    started none = record { start = some p; map = parent.map }
    started (some key) = parent

    newest : Option ℕ → Branch → Branch
    newest none b = b
    newest (some key) b = record {
      start = b.start;
      map = λ k. if key == k then some p else b.map k;
    }

-- The left neighbour of an item when it is linked.
unfoldable pub new_left : Heap → (BlockId → Option ℕ) → ℕ → Branch → Item → Option (Option ℕ)
new_left heap get_item fuel parent self = elim (detect_conflict heap self) [
  | true ↦ resolve_conflict heap get_item fuel parent self
  | false ↦ some self.left
]

-- The right neighbour that follows from the left one.
unfoldable pub follower :
    Heap → (BlockId → Option ℕ) → ℕ → Branch → Item → Option ℕ → Option (Option ℕ)
follower heap get_item fuel parent self (some l) = some (heap l).right
follower heap get_item fuel parent self none = first_item heap get_item fuel parent self.parent_sub

-- `integrate_item` from the test for a conflict to the end of the linking, for an item that is on the
-- heap; none is out of fuel.
unfoldable pub integrate_item : ℕ → (BlockId → Option ℕ) → Heap → Branch → ℕ → Option Linked
integrate_item fuel get_item heap parent p = elim (new_left heap get_item fuel parent (heap p)) [
  | none ↦ none
  | some left ↦ elim (follower heap get_item fuel parent (heap p) left) [
    | none ↦ none
    | some right ↦ some (link heap parent p (heap p).parent_sub left right)
  ]
]
