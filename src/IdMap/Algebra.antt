-- ===== src/IdMap/Algebra.antt =====
-- A valid map is determined by its values, so its union and intersection obey the laws of theirs.
use y_crdt.Common.{ℕ, ◌≡◌, refl, ap, Option, none, some, List, [], ◌∷◌, arith}
use y_crdt.Ids.{Merge, Entry, value_at}
use y_crdt.Ids.Canonical.{IsCanonical-nonempty, canonical_unique}
use y_crdt.Ids.Union.Steps.{both}
use y_crdt.Ids.Intersect.{meet}
use y_crdt.Ids.Exclude.{hide}
use y_crdt.BTree
use y_crdt.BTree.{get-AllValues, sorted_unique}
use y_crdt.IdMap.{
  IdMap, or_default, value_in, diff_with, merge_with, intersect_with, IsValid, IsRanges,
}
use y_crdt.IdMap.Values.{value_in-merge_with, value_in-intersect_with, value_in-diff_with}
use y_crdt.IdMap.Valid.{merge_with-IsValid, intersect_with-IsValid, diff_with-IsValid}

module _ {T : Type 0} ⦃m : Merge T⦄ where
  -- The ranges of one client, if they hold the same values, are the same.
  same_ranges :
      (o p : Option (List (Entry T)))
      → ((xs : List (Entry T)) → o ≡ some xs → IsRanges xs)
      → ((xs : List (Entry T)) → p ≡ some xs → IsRanges xs)
      → ((c : ℕ) → value_at (or_default o) c ≡ value_at (or_default p) c)
      → o ≡ p
  same_ranges none none k l h = refl
  same_ranges none (some []) k l h = absurd (cc (l [] refl).1)
  same_ranges none (some (y ∷ ys)) k l h =
      let n = IsCanonical-nonempty y ys (l (y ∷ ys) refl).0 in
      absurd (unfold value_at in ground (arith, h y.start, n))
  same_ranges (some []) none k l h = absurd (cc (k [] refl).1)
  same_ranges (some (x ∷ xs)) none k l h =
      let n = IsCanonical-nonempty x xs (k (x ∷ xs) refl).0 in
      absurd (unfold value_at in ground (arith, h x.start, n))
  same_ranges (some xs) (some ys) k l h =
      ap (λ r. some r) (canonical_unique xs ys (k xs refl).0 (l ys refl).0 h)

  -- Two valid maps that hold the same value at every identifier are equal.
  pub valid_unique :
      (map other : IdMap T)
      → IsValid map
      → IsValid other
      → ((client clock : ℕ) → value_in map client clock ≡ value_in other client clock)
      → map ≡ other
  valid_unique map other k l h = sorted_unique map other 0 0 k.0 l.0 (λ j.
      same_ranges (BTree.get j map) (BTree.get j other)
        (λ xs e. get-AllValues IsRanges map j xs k.1 e)
        (λ xs e. get-AllValues IsRanges other j xs l.1 e) (h j))

  -- The union of two valid maps does not depend on their order, as an equation of the stored maps,
  -- where the merge of values does not.
  pub merge_with_comm :
      (comm : (a b : T) → m.merge a b ≡ m.merge b a)
      → (map other : IdMap T) → IsValid map
      → IsValid other
      → merge_with map other ≡ merge_with other map
  merge_with_comm comm map other k l =
      valid_unique _ _ (merge_with-IsValid map other k l.1) (merge_with-IsValid other map l k.1)
        (λ j c.
          rw (value_in-merge_with map other j c k l, value_in-merge_with other map j c l k)
            (both_comm (value_in map j c) (value_in other j c)))
    where
      both_comm : (x y : Option T) → both x y ≡ both y x
      both_comm none none = refl
      both_comm none (some y) = refl
      both_comm (some x) none = refl
      both_comm (some x) (some y) = ap (λ r. some r) (comm x y)

  -- The union of valid maps is associative, as an equation of the stored maps, where the merge of
  -- values is.
  pub merge_with_assoc :
      (assoc : (a b c : T) → m.merge (m.merge a b) c ≡ m.merge a (m.merge b c))
      → (map other third : IdMap T) → IsValid map
      → IsValid other
      → IsValid third
      → merge_with (merge_with map other) third ≡ merge_with map (merge_with other third)
  merge_with_assoc assoc a b c ka kb kc =
      let ab = merge_with-IsValid a b ka kb.1 in
      let bc = merge_with-IsValid b c kb kc.1 in
      valid_unique _ _ (merge_with-IsValid (merge_with a b) c ab kc.1)
        (merge_with-IsValid a (merge_with b c) ka bc.1)
        (λ j i.
          rw
            (
              value_in-merge_with (merge_with a b) c j i ab kc,
              value_in-merge_with a (merge_with b c) j i ka bc,
              value_in-merge_with a b j i ka kb,
              value_in-merge_with b c j i kb kc,
            )
            (both_assoc (value_in a j i) (value_in b j i) (value_in c j i)))
    where
      both_assoc : (x y z : Option T) → both (both x y) z ≡ both x (both y z)
      both_assoc none y z = refl
      both_assoc (some x) none z = refl
      both_assoc (some x) (some y) none = refl
      both_assoc (some x) (some y) (some z) = ap (λ r. some r) (assoc x y z)

  -- The union of a valid map with itself is that map, where the merge of values is idempotent.
  pub merge_with_idem :
      (idem : (a : T) → m.merge a a ≡ a) → (map : IdMap T) → IsValid map → merge_with map map ≡ map
  merge_with_idem idem map k =
      valid_unique _ _ (merge_with-IsValid map map k k.1) k
        (λ j c. rw (value_in-merge_with map map j c k k) (both_idem (value_in map j c)))
    where
      both_idem : (x : Option T) → both x x ≡ x
      both_idem none = refl
      both_idem (some x) = ap (λ r. some r) (idem x)

  -- For valid maps, and a merge of values that gives its first argument, the union of the
  -- intersection of a map with another one and of its difference from it is the map itself.
  pub split-merge :
      (map other : IdMap T)
      → ((a b : T) → m.merge a b ≡ a)
      → IsValid map
      → IsValid other
      → merge_with (intersect_with map other) (diff_with map other) ≡ map
  split-merge map other first k l =
      let i = intersect_with-IsValid map other k l in
      let d = diff_with-IsValid map other k l in
      valid_unique _ _ (merge_with-IsValid _ (diff_with map other) i d.1) k (λ j c.
        rw
          (
            value_in-merge_with (intersect_with map other) (diff_with map other) j c i d,
            value_in-intersect_with map other j c k l,
            value_in-diff_with map other j c k l,
          )
          (both_split (value_in map j c) (value_in other j c)))
    where
      both_split : (x y : Option T) → both (meet x y) (hide y x) ≡ x
      both_split none none = refl
      both_split none (some y) = refl
      both_split (some x) none = refl
      both_split (some x) (some y) = ap (λ r. some r) (first x y)
