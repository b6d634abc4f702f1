-- ===== src/IdMap/Valid.antt =====
-- Every operation of a map keeps its invariant: clients in order, canonical ranges, none empty.
use mathlib.Core.Path.{subst}
use y_crdt.Common.{
  ℕ, ◌≡◌, ◌<◌, refl, false, Option, none, some, List, [], ◌∷◌, arith, Bool-cases, Option-cases, inl,
  inr,
}
use y_crdt.Ids.{Merge, Entry, value_at, IsCanonical, merge_into}
use y_crdt.Ids.Order.{IsCanonical-IsOrdered_zero}
use y_crdt.Ids.Canonical.{IsCanonical-nonempty}
use y_crdt.Ids.Remove.{remove-IsCanonical}
use y_crdt.Ids.Remove
use y_crdt.Ids.Insert.{insert_with}
use y_crdt.Ids.Insert.Correct.{insert_with-Inserted}
use y_crdt.Ids.Union
use y_crdt.Ids.Union.Correct.{merge-Swept}
use y_crdt.Ids.Union.Steps.{both}
use y_crdt.Ids.Exclude.{exclude}
use y_crdt.Ids.Exclude.Canonical.{exclude-IsCanonical}
use y_crdt.Ids.Intersect.{intersect}
use y_crdt.Ids.Intersect.Correct.{intersect-Met}
use y_crdt.BTree
use y_crdt.BTree.{
  AllValues, get-AllValues, insert-IsSorted, insert-AllValues, remove-IsSorted, remove-AllValues,
  retain-IsSorted, retain-AllValues,
}
use y_crdt.IdMap.{
  IdMap, or_default, remove_range, diff_with, insert_range, merge_ranges, merge_with,
  intersect_with, IsValid, IsRanges, is_empty, keep_some,
}
use y_crdt.IdMap.Values.{or_default-IsCanonical, merge_ranges-IsSorted}

module _ {T : Type 0} where
  -- A list that holds a value at some clock is not empty.
  holds-nonempty :
      (xs : List (Entry T)) (c : ℕ) (v : T) → value_at xs c ≡ some v → is_empty xs ≡ false
  unfolding value_at
  holds-nonempty [] c v h = absurd (cc)
  holds-nonempty (x ∷ xs) c v h = refl

module _ {T : Type 0} ⦃m : Merge T⦄ where
  keep_some-IsRanges :
      (xs ys : List (Entry T)) → IsCanonical xs → keep_some xs ≡ some ys → IsRanges ys
  keep_some-IsRanges [] ys k e = absurd (cc)
  keep_some-IsRanges (x ∷ xs) ys k e =
      let q : ◌≡◌ {A = List (Entry T)} (x ∷ xs) ys = cc in subst IsRanges q (k, refl)

  -- remove_range keeps a map valid: a client of which nothing is left is not stored.
  pub remove_range-IsValid :
      (map : IdMap T) (client start end : ℕ)
      → IsValid map
      → IsValid (remove_range map client start end)
  unfolding remove_range
  remove_range-IsValid map client start end k = elim (Option-cases (BTree.get client map)) [
    | inl e ↦ rw (remove_range, e) k
    | inr (xs, e) ↦
        let old = get-AllValues IsRanges map client xs k.1 e in
        elim (Bool-cases (is_empty (Remove.remove xs start end))) [
          | inl g ↦
              rw (remove_range, e, g)
                (remove-IsSorted map 0 client k.0, remove-AllValues IsRanges map client k.1)
          | inr g ↦
              rw (remove_range, e, g)
                (
                  insert-IsSorted map 0 client (Remove.remove xs start end) (omega arith) k.0,
                  insert-AllValues IsRanges map client (Remove.remove xs start end)
                      (remove-IsCanonical xs start end old.0, g) k.1,
                )
        ]
  ]

  -- `insert_range` of a range that is not empty keeps the map valid.
  pub insert_range-IsValid :
      ((a : T) → m.merge a a ≡ a)
      → (map : IdMap T) (client start end : ℕ) (v : T) → start < end
      → IsValid map
      → IsValid (insert_range map client start end v)
  unfolding insert_range
  insert_range-IsValid idem map client start end v h k =
      let old = or_default (BTree.get client map) in
      let new = insert_with old start end v in
      let done = insert_with-Inserted idem old start end v (or_default-IsCanonical map client k) in
      let held : value_at new start ≡ some (merge_into (value_at old start) v) =
        ground (arith, done.values start) in
      (
        insert-IsSorted map 0 client new (omega arith) k.0,
        insert-AllValues IsRanges map client new
            (done.canonical, holds-nonempty new start (merge_into (value_at old start) v) held) k.1,
      )

  merge-IsRanges :
      (xs ys : List (Entry T)) → IsRanges xs → IsRanges ys → IsRanges (Union.merge xs ys)
  merge-IsRanges [] ys kx ky = absurd (cc kx.1)
  merge-IsRanges (x ∷ xs) ys kx ky =
      let done = merge-Swept (x ∷ xs) ys kx.0 ky.0 in
      let new = Union.merge (x ∷ xs) ys in
      let here : value_at (x ∷ xs) x.start ≡ some x.value =
        unfold value_at in ground (arith, IsCanonical-nonempty x xs kx.0) in
      let at_start : value_at new x.start ≡ both (some x.value) (value_at ys x.start) =
        rw here at (done.1 x.start) in
      (
        done.0,
        elim (Option-cases (value_at ys x.start)) [
          | inl e ↦ holds-nonempty new x.start x.value (rw e at at_start)
          | inr (w, e) ↦ holds-nonempty new x.start (m.merge x.value w) (rw e at at_start)
        ],
      )

  merge_ranges-IsValid :
      (map : IdMap T) (client : ℕ) (o : List (Entry T))
      → IsRanges o
      → IsValid map
      → IsValid (merge_ranges map client o)
  unfolding merge_ranges
  merge_ranges-IsValid map client o ko k = (
    merge_ranges-IsSorted map client o k.0,
    elim (Option-cases (BTree.get client map)) [
      | inl e ↦ rw (merge_ranges, e) (insert-AllValues IsRanges map client o ko k.1)
      | inr (xs, e) ↦
          rw (merge_ranges, e)
            (insert-AllValues IsRanges map client (Union.merge xs o)
              (merge-IsRanges xs o (get-AllValues IsRanges map client xs k.1 e) ko) k.1)
    ],
  )

  -- The union of a valid map with canonical ranges, none of them empty, is valid: clients in
  -- order, canonical ranges, no empty ranges stored.
  pub merge_with-IsValid :
      (map other : IdMap T)
      → IsValid map
      → AllValues IsRanges other
      → IsValid (merge_with map other)
  unfolding merge_with
  merge_with-IsValid map [] k l = k
  merge_with-IsValid map ((client, o) ∷ other) k l =
      merge_with-IsValid (merge_ranges map client o) other (merge_ranges-IsValid map client o l.0 k)
        l.1

  pub intersect_with-IsValid :
      (map other : IdMap T) → IsValid map → IsValid other → IsValid (intersect_with map other)
  unfolding intersect_with
  intersect_with-IsValid map other k l = (
    retain-IsSorted _ map 0 k.0,
    retain-AllValues IsRanges IsRanges _ map
        (λ client xs ys p e. kept client xs ys (BTree.get client other) refl p e) k.1,
  )
    where
      kept :
          (client : ℕ) (xs ys : List (Entry T)) (o : Option (List (Entry T)))
          → BTree.get client other ≡ o
          → IsRanges xs
          → elim o [ some other_ranges ↦ keep_some (intersect xs other_ranges) | none ↦ none ]
            ≡ some ys
          → IsRanges ys
      kept client xs ys none e p h = absurd (cc)
      kept client xs ys (some os) e p h =
          keep_some-IsRanges (intersect xs os) ys
            (intersect-Met xs os p.0 (get-AllValues IsRanges other client os l.1 e).0).0 h

module _ {T U : Type 0} ⦃m : Merge T⦄ ⦃u : Merge U⦄ where
  -- The difference of two valid maps is valid: a client of which nothing is left is not stored.
  pub diff_with-IsValid :
      (map : IdMap T) (other : IdMap U)
      → IsValid map
      → IsValid other
      → IsValid (diff_with map other)
  unfolding diff_with
  diff_with-IsValid map other k l = (
    retain-IsSorted _ map 0 k.0,
    retain-AllValues IsRanges IsRanges _ map
        (λ client xs ys p e. kept client xs ys (BTree.get client other) refl p e) k.1,
  )
    where
      kept :
          (client : ℕ) (xs ys : List (Entry T)) (o : Option (List (Entry U)))
          → BTree.get client other ≡ o
          → IsRanges xs
          → elim o [ some other_ranges ↦ keep_some (exclude xs other_ranges) | none ↦ keep_some xs ]
            ≡ some ys
          → IsRanges ys
      kept client xs ys none e p h = keep_some-IsRanges xs ys p.0 h
      kept client xs ys (some os) e p h =
          keep_some-IsRanges (exclude xs os) ys
            (exclude-IsCanonical xs os p.0
              (IsCanonical-IsOrdered_zero os (get-AllValues IsRanges other client os l.1 e).0))
            h
