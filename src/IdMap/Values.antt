-- ===== src/IdMap/Values.antt =====
-- What each operation of a map does to the value at every identifier.
use y_crdt.Common.{
  ◌∙◌, ℕ, ◌≡◌, refl, ◌&&◌, Option, none, some, List, [], ◌∷◌, if◌then◌else◌, arith, ==_iff, ◌==◌,
  suc, Bool-cases, Option-cases, inl, inr,
}
use y_crdt.BTree.{
  get-remove, get-insert, get-IsSorted, IsSorted, AllValues, get-retain, get-AllValues,
  insert-IsSorted, insert-AllValues,
}
use y_crdt.Ids.{IsOrdered, Merge, Entry, value_at, within, IsCanonical, overlay}
use y_crdt.Ids.Order.{IsCanonical-IsOrdered_zero}
use y_crdt.Ids.Query.{is_some, contains_clock-value_at}
use y_crdt.Ids.Remove.{value_at-remove}
use y_crdt.Ids.Remove
use y_crdt.Ids.Insert.{insert_with}
use y_crdt.Ids.Insert.Correct.{insert_with-Inserted}
use y_crdt.Ids.Union
use y_crdt.Ids.Union.Correct.{merge-Swept}
use y_crdt.Ids.Union.Steps.{both}
use y_crdt.Ids.Exclude.{hide, value_at-exclude}
use y_crdt.Ids.Intersect.{meet}
use y_crdt.Ids.Intersect.Correct.{intersect-Met}
use y_crdt.BTree
use y_crdt.IdMap.{
  IdMap, or_default, value_in, contains, remove_range, diff_with, insert_range, merge_ranges,
  merge_with, intersect_with, IsValid, IsRanges, is_empty, keep_some,
}

module _ {T : Type 0} ⦃m : Merge T⦄ where
  -- Whatever a valid map holds for a client is canonical.
  pub or_default-IsCanonical :
      (map : IdMap T) (client : ℕ) → IsValid map → IsCanonical (or_default (BTree.get client map))
  or_default-IsCanonical map client k = elim (Option-cases (BTree.get client map)) [
    | inl e ↦ rw e tt
    | inr (xs, e) ↦ rw e (get-AllValues IsRanges map client xs k.1 e).0
  ]

  pub or_default-IsOrdered :
      (map : IdMap T) (client : ℕ) → IsValid map → IsOrdered 0 (or_default (BTree.get client map))
  or_default-IsOrdered map client k =
      IsCanonical-IsOrdered_zero _ (or_default-IsCanonical map client k)

  -- `contains` tells whether the map holds a value at the identifier.
  pub contains-value_in :
      (map : IdMap T) (client clock : ℕ)
      → IsValid map
      → contains map client clock ≡ is_some (value_in map client clock)
  unfolding contains
  contains-value_in map client clock k = elim (Option-cases (BTree.get client map)) [
    | inl e ↦ rw (contains, e) (unfold value_at in refl)
    | inr (xs, e) ↦
        rw (contains, e)
          (contains_clock-value_at xs clock (rw e at (or_default-IsOrdered map client k)))
  ]

  value_at-keep_some :
      (xs : List (Entry T)) (c : ℕ) → value_at (or_default (keep_some xs)) c ≡ value_at xs c
  value_at-keep_some [] c = refl
  value_at-keep_some (x ∷ xs) c = refl

  get-remove_range :
      (map : IdMap T) (client start end j : ℕ)
      → IsValid map
      → BTree.get j (remove_range map client start end) ≡ (
          if client == j
          then BTree.and_then (BTree.get client map) (λ xs. keep_some (Remove.remove xs start end))
          else BTree.get j map)
  unfolding remove_range
  get-remove_range map client start end j k = elim (Option-cases (BTree.get client map)) [
    | inl e ↦ rw (remove_range, e) (ground (arith, e))
    | inr (xs, e) ↦ elim (Bool-cases (is_empty (Remove.remove xs start end))) [
      | inl g ↦ rw (remove_range, e, g) (get-remove map 0 client j k.0)
      | inr g ↦ rw (remove_range, e, g) (get-insert map 0 client j (Remove.remove xs start end) k.0)
    ]
  ]

  -- For a valid map, remove_range leaves no value at the clocks of the range of its client and
  -- changes no other identifier.
  pub value_in-remove_range :
      (map : IdMap T) (client start end j c : ℕ)
      → IsValid map
      → value_in (remove_range map client start end) j c
        ≡ (if client == j && within start end c then none else value_in map j c)
  value_in-remove_range map client start end j c k =
      rw (get-remove_range map client start end j k) (elim (Bool-cases (client == j)) [
        | inr n ↦ rw n refl
        | inl y ↦
            rw (y, ← (==_iff client j).0 y)
              (elim (Option-cases (BTree.get client map)) [
                | inl e ↦ rw e (unfold value_at in ground arith)
                | inr (xs, e) ↦
                    rw (e, value_at-keep_some)
                      (value_at-remove xs start end c (rw e at (or_default-IsOrdered map client k)))
              ])
      ])

  -- For a valid map, and a merge of values that is idempotent, insert_range merges the value into
  -- the clocks of the range of its client and changes no other identifier.
  pub value_in-insert_range :
      ((a : T) → m.merge a a ≡ a)
      → (map : IdMap T) (client start end j c : ℕ) (v : T) → IsValid map
      → value_in (insert_range map client start end v) j c
        ≡ (if client == j then overlay start end v c (value_in map j c) else value_in map j c)
  unfolding insert_range
  value_in-insert_range idem map client start end j c v k =
      rw
        (
          insert_range,
          get-insert map 0 client j (insert_with (or_default (BTree.get client map)) start end v)
              k.0,
        )
        (elim (Bool-cases (client == j)) [
          | inr n ↦ rw n refl
          | inl y ↦
              rw (y, ← (==_iff client j).0 y)
                ((insert_with-Inserted idem (or_default (BTree.get client map)) start end v
                    (or_default-IsCanonical map client k)).values
                  c)
        ])

  abbrev pub join_ranges :
      Option (List (Entry T)) → Option (List (Entry T)) → Option (List (Entry T))
  join_ranges none y = y
  join_ranges (some x) none = some x
  join_ranges (some x) (some y) = some (Union.merge x y)

  pub get-merge_ranges :
      (map : IdMap T) (client : ℕ) (o : List (Entry T)) (j : ℕ)
      → IsSorted 0 map
      → BTree.get j (merge_ranges map client o)
        ≡ (if client == j then join_ranges (BTree.get client map) (some o) else BTree.get j map)
  unfolding merge_ranges
  get-merge_ranges map client o j k = elim (Option-cases (BTree.get client map)) [
    | inl e ↦ rw (merge_ranges, e) (get-insert map 0 client j o k)
    | inr (xs, e) ↦ rw (merge_ranges, e) (get-insert map 0 client j (Union.merge xs o) k)
  ]

  pub merge_ranges-IsSorted :
      (map : IdMap T) (client : ℕ) (o : List (Entry T))
      → IsSorted 0 map
      → IsSorted 0 (merge_ranges map client o)
  unfolding merge_ranges
  merge_ranges-IsSorted map client o k = elim (Option-cases (BTree.get client map)) [
    | inl e ↦ rw (merge_ranges, e) (insert-IsSorted map 0 client o (omega arith) k)
    | inr (xs, e) ↦
        rw (merge_ranges, e) (insert-IsSorted map 0 client (Union.merge xs o) (omega arith) k)
  ]

  join_assoc_none :
      (x : Option (List (Entry T))) (o : List (Entry T))
      → join_ranges (join_ranges x (some o)) none ≡ join_ranges x (some o)
  join_assoc_none none o = refl
  join_assoc_none (some x) o = refl

  -- The ranges that the union of two maps stores for a client.
  pub get-merge_with :
      (map other : IdMap T) (lo j : ℕ)
      → IsSorted 0 map
      → IsSorted lo other
      → BTree.get j (merge_with map other) ≡ join_ranges (BTree.get j map) (BTree.get j other)
  unfolding merge_with BTree.get
  get-merge_with map [] lo j k l = elim (Option-cases (BTree.get j map)) [
    | inl e ↦ rw e refl
    | inr (xs, e) ↦ rw e refl
  ]
  get-merge_with map ((client, o) ∷ other) lo j k l =
      let ih =
        get-merge_with (merge_ranges map client o) other (suc client) j
          (merge_ranges-IsSorted map client o k) l.1 in
      let first = get-merge_ranges map client o j k in
      elim (Bool-cases (client == j)) [
        | inr n ↦ rw n (rw (first, n) at ih)
        | inl y ↦
            let same = (==_iff client j).0 y in
            let last : BTree.get j other ≡ none =
              get-IsSorted other (suc client) j l.1 (omega (arith, same)) in
            let agree : BTree.get client map ≡ BTree.get j map = rw same refl in
            rw y ((rw (first, y, last, agree) at ih) ∙ join_assoc_none (BTree.get j map) o)
      ]

  -- The union of two valid maps holds at every identifier what the two maps hold, merged where
  -- both hold a value.
  pub value_in-merge_with :
      (map other : IdMap T) (j c : ℕ)
      → IsValid map
      → IsValid other
      → value_in (merge_with map other) j c ≡ both (value_in map j c) (value_in other j c)
  value_in-merge_with map other j c k l =
      rw (get-merge_with map other 0 j k.0 l.0) (elim (Option-cases (BTree.get j map)) [
        | inl e ↦ rw e (unfold value_at in refl)
        | inr (xs, e) ↦ elim (Option-cases (BTree.get j other)) [
          | inl f ↦ rw (e, f) (unfold value_at in both_none (value_at xs c))
          | inr (ys, f) ↦
              rw (e, f)
                ((merge-Swept xs ys (rw e at (or_default-IsCanonical map j k))
                    (rw f at (or_default-IsCanonical other j l))).1
                  c)
        ]
      ])
    where
      both_none : (x : Option T) → x ≡ both x none
      both_none none = refl
      both_none (some x) = refl

  -- The intersection of two valid maps holds exactly the identifiers that both hold, with their
  -- merged values.
  pub value_in-intersect_with :
      (map other : IdMap T) (j c : ℕ)
      → IsValid map
      → IsValid other
      → value_in (intersect_with map other) j c ≡ meet (value_in map j c) (value_in other j c)
  unfolding intersect_with
  value_in-intersect_with map other j c k l =
      rw (intersect_with, get-retain _ map 0 j k.0)
        (elim (Option-cases (BTree.get j map)) [
          | inl e ↦ rw e (unfold value_at in refl)
          | inr (xs, e) ↦ elim (Option-cases (BTree.get j other)) [
            | inl f ↦ rw (e, f) (unfold value_at in meet_none (value_at xs c))
            | inr (ys, f) ↦
                rw (e, f, value_at-keep_some)
                  ((intersect-Met xs ys (rw e at (or_default-IsCanonical map j k))
                      (rw f at (or_default-IsCanonical other j l))).1
                    c)
          ]
        ])
    where
      meet_none : (x : Option T) → none ≡ meet x none
      meet_none none = refl
      meet_none (some x) = refl

module _ {T U : Type 0} ⦃m : Merge T⦄ ⦃u : Merge U⦄ where
  -- The difference of two valid maps keeps the value of every identifier that the other map does
  -- not hold, and holds no value at the others.
  pub value_in-diff_with :
      (map : IdMap T) (other : IdMap U) (j c : ℕ)
      → IsValid map
      → IsValid other
      → value_in (diff_with map other) j c ≡ hide (value_in other j c) (value_in map j c)
  unfolding diff_with
  value_in-diff_with map other j c k l =
      rw (diff_with, get-retain _ map 0 j k.0)
        (elim (Option-cases (BTree.get j map)) [
          | inl e ↦
              rw e (unfold value_at in hide_nothing (value_at (or_default (BTree.get j other)) c))
          | inr (xs, e) ↦ elim (Option-cases (BTree.get j other)) [
            | inl f ↦ rw (e, f, value_at-keep_some) (unfold value_at in refl)
            | inr (ys, f) ↦
                rw (e, f, value_at-keep_some)
                  (value_at-exclude xs ys c (rw e at (or_default-IsOrdered map j k))
                    (rw f at (or_default-IsOrdered other j l)))
          ]
        ])
    where
      hide_nothing : (x : Option U) → ◌≡◌ {A = Option T} none (hide x none)
      hide_nothing none = refl
      hide_nothing (some x) = refl
