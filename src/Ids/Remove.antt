-- ===== src/Ids/Remove.antt =====
-- yrs/src/ids.rs: `IdRanges::remove`.
use y_crdt.Common.{
  ℕ, ◌<◌, ◌≡◌, ◌&&◌, none, List, [], ◌∷◌, ◌++◌, take, drop, partition_point, if◌then◌else◌, arith,
  ltb, leb, inl, inr, Bool-cases,
}
use y_crdt.Ids.{Merge, Entry, within, value_at, IsOrdered, IsCanonical}
use y_crdt.Ids.Order.{value_at-IsOrdered}

module _ {T : Type 0} where
  -- Trim an entry that straddles the end of the removed range.
  trim_trailing : ℕ → List (Entry T) → List (Entry T)
  trim_trailing end [] = []
  trim_trailing end (e ∷ r) = if ltb e.start end then record e { start = end } ∷ r else e ∷ r

  -- Drop the entries that end by `end`, and trim the next one.
  drop_covered : ℕ → List (Entry T) → List (Entry T)
  drop_covered end xs = trim_trailing end (drop (partition_point (λ e. leb e.end end) xs) xs)

  -- What becomes of the entries from the first one on that ends after `start`.
  remove_from : ℕ → ℕ → List (Entry T) → List (Entry T)
  remove_from start end [] = []
  remove_from start end (e ∷ r) =
      if ltb e.start start && ltb end e.end
      then record e { end = start } ∷ record e { start = end } ∷ r
      else if ltb e.start start
      then record e { end = start } ∷ drop_covered end r
      else drop_covered end (e ∷ r)

  pub remove : List (Entry T) → ℕ → ℕ → List (Entry T)
  remove xs start end =
      if leb end start
      then xs
      else (let i = partition_point (λ e. leb e.end start) xs in
          take i xs ++ remove_from start end (drop i xs))

  value_at-drop_covered :
      (t : ℕ) (xs : List (Entry T)) (lo c : ℕ)
      → IsOrdered lo xs
      → value_at (drop_covered t xs) c ≡ (if ltb c t then none else value_at xs c)
  unfolding drop_covered trim_trailing value_at
  value_at-drop_covered t [] lo c o = ground arith
  value_at-drop_covered t (x ∷ xs) lo c o =
      ground
        (arith, value_at-drop_covered t xs x.end c o.2, value_at-IsOrdered xs {lo = x.end} c o.2)

  value_at-remove_from :
      (s t : ℕ) (xs : List (Entry T)) (lo c : ℕ)
      → s < t
      → IsOrdered lo xs
      → value_at
          (take (partition_point (λ e. leb e.end s) xs) xs
            ++ remove_from s t (drop (partition_point (λ e. leb e.end s) xs) xs))
          c
        ≡ (if within s t c then none else value_at xs c)
  unfolding remove_from value_at
  value_at-remove_from s t [] lo c st o = ground arith
  value_at-remove_from s t (x ∷ xs) lo c st o = ground (
    arith,
    value_at-remove_from s t xs x.end c st o.2,
    value_at-drop_covered t xs x.end c o.2,
    value_at-drop_covered t (x ∷ xs) lo c o,
    value_at-IsOrdered xs {lo = x.end} c o.2,
  )

  -- For an ordered list, removing a range leaves no value at the clocks of the range and changes
  -- no other clock.
  pub value_at-remove :
      (xs : List (Entry T)) (s t c : ℕ)
      → IsOrdered 0 xs
      → value_at (remove xs s t) c ≡ (if within s t c then none else value_at xs c)
  unfolding remove
  value_at-remove xs s t c o = elim (Bool-cases (leb t s)) [
    | inl e ↦ rw e (ground arith)
    | inr e ↦ rw e (value_at-remove_from s t xs 0 c (ground arith) o)
  ]

module _ {T : Type 0} ⦃m : Merge T⦄ where
  drop_covered-IsCanonical :
      (t : ℕ) (x : Entry T) (xs : List (Entry T))
      → IsCanonical (x ∷ xs)
      → IsCanonical (x ∷ drop_covered t xs)
  unfolding drop_covered trim_trailing
  drop_covered-IsCanonical t x [] k = k
  drop_covered-IsCanonical t x (y ∷ []) k = ground arith
  drop_covered-IsCanonical t x (y ∷ z ∷ r) k =
      ground (arith, drop_covered-IsCanonical t y (z ∷ r) k.3, drop_covered-IsCanonical t x (z ∷ r))

  drop_covered_all-IsCanonical :
      (t : ℕ) (xs : List (Entry T)) → IsCanonical xs → IsCanonical (drop_covered t xs)
  unfolding drop_covered trim_trailing
  drop_covered_all-IsCanonical t [] k = k
  drop_covered_all-IsCanonical t (x ∷ []) k = ground arith
  drop_covered_all-IsCanonical t (x ∷ y ∷ r) k =
      ground (arith, drop_covered_all-IsCanonical t (y ∷ r) k.3)

  first_shorter :
      (x : Entry T) (r : List (Entry T)) (s : ℕ)
      → IsCanonical (x ∷ r)
      → x.start < s
      → s < x.end
      → IsCanonical (record x { end = s } ∷ r)
  first_shorter x [] s k h g = h
  first_shorter x (y ∷ r) s k h g = ground arith

  remove_from-IsCanonical :
      (s t : ℕ) (x : Entry T) (xs : List (Entry T))
      → s < t
      → IsCanonical (x ∷ xs)
      → IsCanonical (
          x
          ∷ (take (partition_point (λ e. leb e.end s) xs) xs
              ++ remove_from s t (drop (partition_point (λ e. leb e.end s) xs) xs)))
  unfolding remove_from
  remove_from-IsCanonical s t x [] st k = k
  remove_from-IsCanonical s t x (y ∷ []) st k = ground (
    arith,
    drop_covered-IsCanonical t x (y ∷ []) k,
    drop_covered-IsCanonical t (record y { end = s }) [],
  )
  remove_from-IsCanonical s t x (y ∷ z ∷ r) st k = ground (
    arith,
    remove_from-IsCanonical s t y (z ∷ r) st k.3,
    drop_covered-IsCanonical t x (y ∷ z ∷ r) k,
    drop_covered-IsCanonical t (record y { end = s }) (z ∷ r),
  )

  remove_all-IsCanonical :
      (s t : ℕ) (xs : List (Entry T))
      → s < t
      → IsCanonical xs
      → IsCanonical (
          take (partition_point (λ e. leb e.end s) xs) xs
          ++ remove_from s t (drop (partition_point (λ e. leb e.end s) xs) xs))
  unfolding remove_from
  remove_all-IsCanonical s t [] st k = k
  remove_all-IsCanonical s t (x ∷ r) st k = ground (
    arith,
    remove_from-IsCanonical s t x r st k,
    drop_covered_all-IsCanonical t (x ∷ r) k,
    drop_covered-IsCanonical t (record x { end = s }) r,
    first_shorter x r s k,
  )

  -- Removing any range from a canonical list gives a canonical list.
  pub remove-IsCanonical :
      (xs : List (Entry T)) (s t : ℕ) → IsCanonical xs → IsCanonical (remove xs s t)
  unfolding remove
  remove-IsCanonical xs s t k = elim (Bool-cases (leb t s)) [
    | inl e ↦ rw e k
    | inr e ↦ rw e (remove_all-IsCanonical s t xs (ground arith) k)
  ]
