-- ===== src/Ids/Insert/Split.antt =====
-- The cut of a list at `lo` and `hi`: what stands before, in and after the touching entries.
use y_crdt.Common.{
  ℕ, zero, suc, ◌≤◌, ◌<◌, ◌≡◌, refl, max, length, ◌++◌, List, [], ◌∷◌, take, drop, partition_point,
  leb, ltb, ◌==◌, if◌then◌else◌, arith,
}
use y_crdt.Ids.{Merge, Entry, IsOrdered, EndsBy, IsCanonical}
use y_crdt.Ids.Order.{IsCanonical-tail, IsOrdered-le}
use y_crdt.Ids.Insert.{first_touching, touching_count}

module _ {T : Type 0} where
  -- All ranges end strictly before `hi`.
  abbrev pub EndsBefore : ℕ → List (Entry T) → Type 0
  EndsBefore hi [] = Unit
  EndsBefore hi (e ∷ r) = (e.end < hi) × EndsBefore hi r

  -- All ranges end at `lo` or later.
  abbrev pub EndsFrom : ℕ → List (Entry T) → Type 0
  EndsFrom lo [] = Unit
  EndsFrom lo (e ∷ r) = (lo ≤ e.end) × EndsFrom lo r

  -- All ranges start at `hi` or before.
  abbrev pub StartsBy : ℕ → List (Entry T) → Type 0
  StartsBy hi [] = Unit
  StartsBy hi (e ∷ r) = (e.start ≤ hi) × StartsBy hi r

  pub EndsBefore-EndsBy : (xs : List (Entry T)) (hi : ℕ) → EndsBefore hi xs → EndsBy hi xs
  EndsBefore-EndsBy [] hi h = tt
  EndsBefore-EndsBy (x ∷ xs) hi h = (omega arith, EndsBefore-EndsBy xs hi h.1)

  pub IsOrdered-EndsFrom : (xs : List (Entry T)) (lo : ℕ) → IsOrdered lo xs → EndsFrom lo xs
  IsOrdered-EndsFrom [] lo o = tt
  IsOrdered-EndsFrom (x ∷ xs) lo o =
      (omega arith, IsOrdered-EndsFrom xs lo (IsOrdered-le xs (omega arith) o.2))

  pub IsOrdered-drop :
      (n : ℕ) (xs : List (Entry T)) (lo : ℕ) → IsOrdered lo xs → IsOrdered lo (drop n xs)
  IsOrdered-drop zero xs lo o = o
  IsOrdered-drop (suc n) [] lo o = tt
  IsOrdered-drop (suc n) (x ∷ xs) lo o = IsOrdered-drop n xs lo (IsOrdered-le xs (omega arith) o.2)

  pub IsOrdered-take :
      (n : ℕ) (xs : List (Entry T)) (lo : ℕ) → IsOrdered lo xs → IsOrdered lo (take n xs)
  IsOrdered-take zero xs lo o = tt
  IsOrdered-take (suc n) [] lo o = tt
  IsOrdered-take (suc n) (x ∷ xs) lo o = (o.0, o.1, IsOrdered-take n xs x.end o.2)

  -- One step of the search for `lo`.
  first_touching-cons :
      (x : Entry T) (xs : List (Entry T)) (s : ℕ)
      → first_touching (x ∷ xs) s ≡ (
          if ltb x.start s
          then (if partition_point (λ e. ltb e.start s) xs == 0
              then (if leb s x.end then 0 else 1)
              else suc (first_touching xs s))
          else 0)
  unfolding first_touching
  first_touching-cons x xs s = ground arith

  pub take-first_touching :
      (xs : List (Entry T)) (s : ℕ) (lo : ℕ)
      → IsOrdered lo xs
      → EndsBefore s (take (first_touching xs s) xs)
  take-first_touching [] s lo o = unfold first_touching in tt
  take-first_touching (x ∷ []) s lo o = ground (arith, first_touching-cons x [] s)
  take-first_touching (x ∷ y ∷ r) s lo o =
      ground (arith, first_touching-cons x (y ∷ r) s, take-first_touching (y ∷ r) s x.end o.2)

  pub drop-first_touching :
      (xs : List (Entry T)) (s : ℕ) (lo : ℕ)
      → IsOrdered lo xs
      → EndsFrom s (drop (first_touching xs s) xs)
  drop-first_touching [] s lo o = unfold first_touching in tt
  drop-first_touching (x ∷ []) s lo o = ground (arith, first_touching-cons x [] s)
  drop-first_touching (x ∷ y ∷ r) s lo o = ground (
    arith,
    first_touching-cons x (y ∷ r) s,
    IsOrdered-EndsFrom r s,
    IsOrdered-le r {lo = y.end} {lo' = s},
    drop-first_touching (y ∷ r) s x.end o.2,
  )

  pub take-touching_count :
      (xs : List (Entry T)) (t : ℕ) → StartsBy t (take (touching_count xs t) xs)
  unfolding touching_count
  take-touching_count [] t = tt
  take-touching_count (x ∷ xs) t = ground (arith, take-touching_count xs t)

  pub drop-touching_count :
      (xs : List (Entry T)) (t : ℕ) (lo : ℕ)
      → IsOrdered lo xs
      → IsOrdered (suc t) (drop (touching_count xs t) xs)
  unfolding touching_count
  drop-touching_count [] t lo o = tt
  drop-touching_count (x ∷ xs) t lo o = ground (arith, drop-touching_count xs t x.end o.2)

  pub length-take-first_touching :
      (xs : List (Entry T)) (s : ℕ) → length (take (first_touching xs s) xs) ≡ first_touching xs s
  length-take-first_touching [] s = unfold first_touching in refl
  length-take-first_touching (x ∷ xs) s =
      ground (arith, first_touching-cons x xs s, length-take-first_touching xs s)

  pub EndsFrom-take :
      (n : ℕ) (xs : List (Entry T)) (lo : ℕ) → EndsFrom lo xs → EndsFrom lo (take n xs)
  EndsFrom-take zero xs lo h = tt
  EndsFrom-take (suc n) [] lo h = tt
  EndsFrom-take (suc n) (x ∷ xs) lo h = (h.0, EndsFrom-take n xs lo h.1)

  pub touching_count-pos :
      (xs : List (Entry T)) (t : ℕ)
      → 0 < touching_count xs t
      → 0 < length (take (touching_count xs t) xs)
  unfolding touching_count
  touching_count-pos [] t h = h
  touching_count-pos (x ∷ xs) t h = ground arith

  -- Where the last range of a list ends.
  abbrev pub last_end : ℕ → List (Entry T) → ℕ
  last_end lo [] = lo
  last_end lo (e ∷ r) = last_end e.end r

  pub last_end-ge : (xs : List (Entry T)) (lo : ℕ) → IsOrdered lo xs → lo ≤ last_end lo xs
  last_end-ge [] lo o = omega arith
  last_end-ge (x ∷ xs) lo o = omega (arith, last_end-ge xs x.end o.2, o.0, o.1)

  pub EndsBy-last_end :
      (xs : List (Entry T)) (lo : ℕ) → IsOrdered lo xs → EndsBy (last_end lo xs) xs
  EndsBy-last_end [] lo o = tt
  EndsBy-last_end (x ∷ xs) lo o = (last_end-ge xs x.end o.2, EndsBy-last_end xs x.end o.2)

  pub last_end-EndsBy :
      (xs : List (Entry T)) (lo hi : ℕ) → lo ≤ hi → EndsBy hi xs → last_end lo xs ≤ hi
  last_end-EndsBy [] lo hi h e = h
  last_end-EndsBy (x ∷ xs) lo hi h e = last_end-EndsBy xs x.end hi e.0 e.1

  pub IsOrdered-suffix :
      (xs ys : List (Entry T)) (lo : ℕ) → IsOrdered lo (xs ++ ys) → IsOrdered (last_end lo xs) ys
  IsOrdered-suffix [] ys lo o = o
  IsOrdered-suffix (x ∷ xs) ys lo o = IsOrdered-suffix xs ys x.end o.2

  pub IsOrdered-prefix :
      (xs ys : List (Entry T)) (lo : ℕ) → IsOrdered lo (xs ++ ys) → IsOrdered lo xs
  IsOrdered-prefix [] ys lo o = tt
  IsOrdered-prefix (x ∷ xs) ys lo o = (o.0, o.1, IsOrdered-prefix xs ys x.end o.2)

  pub IsOrdered-max :
      (xs : List (Entry T)) (a b : ℕ) → IsOrdered a xs → IsOrdered b xs → IsOrdered (max a b) xs
  IsOrdered-max [] a b oa ob = tt
  IsOrdered-max (x ∷ xs) a b oa ob = (omega arith, oa.1, oa.2)

module _ {T : Type 0} ⦃m : Merge T⦄ where
  pub IsCanonical-drop : (n : ℕ) (xs : List (Entry T)) → IsCanonical xs → IsCanonical (drop n xs)
  IsCanonical-drop zero xs k = k
  IsCanonical-drop (suc n) [] k = tt
  IsCanonical-drop (suc n) (x ∷ xs) k = IsCanonical-drop n xs (IsCanonical-tail x xs k)

  pub IsCanonical-take : (n : ℕ) (xs : List (Entry T)) → IsCanonical xs → IsCanonical (take n xs)
  IsCanonical-take zero xs k = tt
  IsCanonical-take (suc n) [] k = tt
  IsCanonical-take (suc zero) (x ∷ []) k = k
  IsCanonical-take (suc (suc n)) (x ∷ []) k = k
  IsCanonical-take (suc zero) (x ∷ y ∷ r) k = k.0
  IsCanonical-take (suc (suc n)) (x ∷ y ∷ r) k =
      (k.0, k.1, k.2, IsCanonical-take (suc n) (y ∷ r) k.3)
