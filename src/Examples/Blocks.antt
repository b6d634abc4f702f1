-- ===== src/Examples/Blocks.antt =====
-- Items of a parent at concrete inputs.
use y_crdt.Common.{
  ℕ, ◌≡◌, refl, false, Option, none, some, List, [], ◌∷◌, ◌++◌, ◌==◌, if◌then◌else◌, take, drop,
  is_among, arith,
}
use y_crdt.Block.{BlockId, Item, Heap, Branch, Linked, integrate_item}
use y_crdt.Block.Link.{Items, unlinked}
use y_crdt.Block.Resolve.{place}
use y_crdt.Block.Integrate.{integrate_item-Items}
use y_crdt.Block.Converge.{Leaves, integrate_item-swap}

abbrev id_of : ℕ → BlockId
id_of client = record { client = client; clock = 0 }

-- Items 1 and 2 stand around item 5, and items 6 and 7 were inserted between 1 and 2 as well.
abbrev rival : ℕ → Item
rival client = record {
  id = id_of client;
  left = some 1;
  right = some 2;
  origin = some (id_of 1);
  right_origin = some (id_of 2);
  parent_sub = none;
}

abbrev first : Item
first = record {
  id = id_of 1;
  left = none;
  right = some 5;
  origin = none;
  right_origin = none;
  parent_sub = none;
}

abbrev last : Item
last = record {
  id = id_of 2;
  left = some 5;
  right = none;
  origin = some (id_of 1);
  right_origin = none;
  parent_sub = none;
}

abbrev heap : Heap
heap p = if p == 1 then first else if p == 2 then last else rival p

abbrev parent : Branch
parent = record { start = some 1; map = λ k. none }

-- Every item has the number of its client.
abbrev find : BlockId → Option ℕ
find id = some id.client

integrate_item-Items_example :
    let k = place heap find (heap 6) (5 ∷ []) [] [] in
    (l : Linked) × (integrate_item 3 find heap parent 6 ≡ some l)
    × Items l.heap l.parent (((1 ∷ []) ++ take k (5 ∷ [])) ++ 6 ∷ (drop k (5 ∷ []) ++ (2 ∷ [])))
    × (l.deleted ≡ none)
    × ((q : ℕ) → unlinked (l.heap q) ≡ unlinked (heap q))
    × ((q : ℕ) → is_among q (6 ∷ 1 ∷ 5 ∷ 2 ∷ []) ≡ false → l.heap q ≡ heap q)
integrate_item-Items_example =
    integrate_item-Items 3 find heap parent 6 (1 ∷ []) (5 ∷ []) (2 ∷ [])
      ((refl, refl, (refl, refl, (refl, refl, refl))), (refl, (refl, (refl, tt)))) refl refl refl
      refl (omega arith)

integrate_item-swap_example :
    (items : List ℕ) × Leaves 3 find heap parent 6 7 items × Leaves 3 find heap parent 7 6 items
integrate_item-swap_example =
    integrate_item-swap 3 find heap parent 6 7 (1 ∷ []) (5 ∷ []) (2 ∷ [])
      ((refl, refl, (refl, refl, (refl, refl, refl))), (refl, (refl, (refl, tt)))) refl refl refl
      refl refl refl refl refl (omega arith) ((refl, refl), ((refl, refl), tt))
      ((refl, refl), ((refl, refl), tt)) (λ e. omega (arith, e))
