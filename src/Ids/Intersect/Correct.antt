-- ===== src/Ids/Intersect/Correct.antt =====
-- `intersect` holds what both lists hold.
use y_crdt.Common.{
  ℕ, ◌≤◌, ◌<◌, min, max, ◌≡◌, ◌∙◌, refl, ◌&&◌, Option, none, some, List, [], ◌∷◌, if◌then◌else◌,
  ltb, leb, arith, Bool-cases, inl, inr, tests,
}
use y_crdt.Ids.{Merge, Entry, value_at, within, IsOrdered, EndsBy, IsCanonical, push_coalesced}
use y_crdt.Ids.Order.{
  or_else, value_at-IsOrdered, value_at-EndsBy, IsCanonical-IsOrdered_zero, IsOrdered-le, EndsBy-le,
}
use y_crdt.Ids.Exclude.{skip_before, value_at-skip_before, skip_before-IsOrdered}
use y_crdt.Ids.Push.{Built, push_if, push_if-Built, value_at-push_if}
use y_crdt.Ids.Intersect.{push_adjacent, push_common, meet_range, intersect_loop, intersect, meet}

module _ {T : Type 0} ⦃m : Merge T⦄ where
  -- At the end of a list that ends by `lo` this is `push_coalesced`.
  push_adjacent_coalesced :
      (xs : List (Entry T)) (lo hi : ℕ) (v : T)
      → EndsBy lo xs
      → lo < hi
      → push_adjacent xs lo hi v ≡ push_coalesced xs lo hi v
  unfolding push_adjacent push_coalesced
  push_adjacent_coalesced [] lo hi v e h = ground arith
  push_adjacent_coalesced (x ∷ []) lo hi v e h = ground arith
  push_adjacent_coalesced (x ∷ y ∷ r) lo hi v e h =
      ground (arith, push_adjacent_coalesced (y ∷ r) lo hi v e.1)

  push_common_lem :
      (result : List (Entry T)) (x o : Entry T) (lo hi : ℕ)
      → Built lo hi result
      → hi ≤ max x.start o.start
      → push_common result x o
        ≡ push_if
            (ltb (max x.start o.start) (min x.end o.end))
            result
            (max x.start o.start)
            (min x.end o.end)
            (m.merge x.value o.value)
  unfolding push_common push_if
  push_common_lem result x o lo hi k h = ground (
    arith,
    push_adjacent_coalesced result (max x.start o.start) (min x.end o.end) (m.merge x.value o.value)
        (EndsBy-le result h k.ends),
  )

  push_common-Built :
      (result : List (Entry T)) (x o : Entry T) (lo hi hi' : ℕ)
      → Built lo hi result
      → lo ≤ hi
      → hi ≤ max x.start o.start
      → hi ≤ hi'
      → min x.end o.end ≤ hi'
      → Built lo hi' (push_common result x o)
  push_common-Built result x o lo hi hi' k lh h g j = rw (push_common_lem result x o lo hi k h) (
      push_if-Built _ result (max x.start o.start) (min x.end o.end) (m.merge x.value o.value) lo hi
        hi' k (omega arith) g (λ e. (h, omega tests, j)))

  value_at-push_common :
      (result : List (Entry T)) (x o : Entry T) (lo hi c : ℕ)
      → Built lo hi result
      → hi ≤ max x.start o.start
      → value_at (push_common result x o) c ≡ (
          if within x.start x.end c && within o.start o.end c
          then some (m.merge x.value o.value)
          else value_at result c)
  value_at-push_common result x o lo hi c k h = rw (push_common_lem result x o lo hi k h) (
      value_at-push_if _ result (max x.start o.start) (min x.end o.end) (m.merge x.value o.value) lo
        hi c k (λ _. h)
      ∙ ground arith)

  -- After the inner loop: the result so far, and what is left of the other list.
  record Met (result : List (Entry T)) (x : Entry T) (os : List (Entry T))
      (p : List (Entry T) × List (Entry T)) : Type 0 where
    pub built : Built 0 x.end p.0
    pub values :
        (c : ℕ)
        → value_at p.0 c
          ≡ or_else
              (value_at result c)
              (meet (if within x.start x.end c then some x.value else none) (value_at os c))
    pub left_ordered : (lo : ℕ) → IsOrdered lo os → IsOrdered lo p.1
    pub left_values : (c : ℕ) → x.end ≤ c → value_at p.1 c ≡ value_at os c

  Met-none :
      (result : List (Entry T)) (x o : Entry T) (os : List (Entry T)) (lo hi : ℕ)
      → Built 0 hi result
      → x.start < x.end
      → IsOrdered lo (o ∷ os)
      → hi ≤ x.end
      → x.end ≤ o.start
      → Met result x (o ∷ os) (result, o ∷ os)
  Met-none result x o os lo hi k xe oo g h = record {
    built = record {
      ends = EndsBy-le result g k.ends;
      ordered = k.ordered;
      canonical = k.canonical;
    };
    values =
        λ c. unfold value_at or_else in ground (arith, value_at-IsOrdered os {lo = o.end} c oo.2);
    left_ordered = λ lo oo. oo;
    left_values = λ c h. refl;
  }

  Met-last :
      (result : List (Entry T)) (x o : Entry T) (os : List (Entry T)) (lo hi : ℕ)
      → Built 0 hi result
      → x.start < x.end
      → IsOrdered lo (o ∷ os)
      → hi ≤ max x.start o.start
      → hi ≤ x.end
      → x.end ≤ o.end
      → Met result x (o ∷ os) (push_common result x o, o ∷ os)
  Met-last result x o os lo hi k xe oo h g e = record {
    built = push_common-Built result x o 0 hi x.end k (omega arith) h g (omega arith);
    values = λ c.
        unfold value_at or_else in
        ground (
          arith,
          value_at-push_common result x o 0 hi c k h,
          value_at-EndsBy result {hi = hi} c k.ends,
          value_at-IsOrdered os {lo = o.end} c oo.2,
        );
    left_ordered = λ lo oo. oo;
    left_values = λ c h. refl;
  }

  Met-more :
      (result : List (Entry T)) (x o : Entry T) (os : List (Entry T)) (lo hi : ℕ)
      → (p : List (Entry T) × List (Entry T)) → Built 0 hi result
      → IsOrdered lo (o ∷ os)
      → hi ≤ max x.start o.start
      → o.end ≤ x.end
      → Met (push_common result x o) x os p
      → Met result x (o ∷ os) p
  Met-more result x o os lo hi p k oo h oe rest = record {
    built = rest.built;
    values = λ c.
        unfold value_at or_else in
        ground (
          arith,
          rest.values c,
          value_at-push_common result x o 0 hi c k h,
          value_at-EndsBy result {hi = hi} c k.ends,
          value_at-IsOrdered os {lo = o.end} c oo.2,
        );
    left_ordered = λ n on. IsOrdered-le p.1 (omega arith) (rest.left_ordered o.end on.2);
    left_values = λ c e. unfold value_at in ground (arith, rest.left_values c e);
  }

  meet_range-Met :
      (result : List (Entry T)) (x : Entry T) (os : List (Entry T)) (lo hi : ℕ)
      → Built 0 hi result
      → x.start < x.end
      → IsOrdered lo os
      → hi ≤ max x.start lo
      → hi ≤ x.end
      → Met result x os (meet_range result x os)
  unfolding meet_range
  meet_range-Met result x [] lo hi k xe o h g = record {
    built = record {
      ends = EndsBy-le result g k.ends;
      ordered = k.ordered;
      canonical = k.canonical;
    };
    values = λ c. unfold value_at or_else in ground arith;
    left_ordered = λ lo oo. tt;
    left_values = λ c h. refl;
  }
  meet_range-Met result x (o ∷ os) lo hi k xe oo h g = elim (Bool-cases (leb x.end o.start)) [
    | inl e1 ↦ rw e1 (Met-none result x o os lo hi k xe oo g (omega tests))
    | inr e1 ↦ elim (Bool-cases (ltb o.end x.end)) [
      | inl e2 ↦
          let over = push_common result x o in
          let k' =
            push_common-Built result x o 0 hi (max hi (min x.end o.end)) k (omega arith)
              (omega arith) (omega arith) (omega arith) in
          rw (e1, e2)
            (Met-more result x o os lo hi _ k oo (omega arith) (omega tests) (
              meet_range-Met over x os o.end (max hi (min x.end o.end)) k' xe oo.2 (omega tests)
                (omega tests)))
      | inr e2 ↦ rw (e1, e2) (Met-last result x o os lo hi k xe oo (omega arith) g (omega tests))
    ]
  ]

  intersect_values :
      (result : List (Entry T)) (x : Entry T) (xs os : List (Entry T))
      → (p : List (Entry T) × List (Entry T)) → (lo lo' c : ℕ) → {u : Option T} → Built 0 lo result
      → IsOrdered lo (x ∷ xs)
      → IsOrdered lo' os
      → value_at p.0 c
        ≡ or_else (value_at result c) (
            meet
              (if within x.start x.end c then some x.value else none)
              (value_at (skip_before x.start os) c))
      → (x.end ≤ c → value_at p.1 c ≡ value_at (skip_before x.start os) c)
      → u ≡ or_else (value_at p.0 c) (meet (value_at xs c) (value_at p.1 c))
      → u ≡ or_else (value_at result c) (meet (value_at (x ∷ xs) c) (value_at os c))
  unfolding value_at or_else
  intersect_values result x xs os p lo lo' c k ox oo eq left e = ground (
    arith,
    left,
    value_at-skip_before x.start os lo' c oo,
    value_at-IsOrdered xs {lo = x.end} c ox.2,
    value_at-EndsBy result {hi = lo} c k.ends,
  )

  intersect_loop-Met :
      (result xs os : List (Entry T)) (lo lo' : ℕ)
      → Built 0 lo result
      → IsOrdered lo xs
      → IsOrdered lo' os
      → IsCanonical (intersect_loop result xs os)
        × ((c : ℕ)
            → value_at (intersect_loop result xs os) c
              ≡ or_else (value_at result c) (meet (value_at xs c) (value_at os c)))
  unfolding intersect_loop
  intersect_loop-Met result [] os lo lo' k ox oo =
      (k.canonical, λ c. unfold value_at or_else in ground arith)
  intersect_loop-Met result (x ∷ xs) os lo lo' k ox oo =
      let skipped = skip_before x.start os in
      let met =
        meet_range-Met result x skipped lo' lo k ox.1 (skip_before-IsOrdered x.start os lo' oo)
          (omega (arith, ox.0)) (omega (arith, ox.0, ox.1)) in
      let p = meet_range result x skipped in
      let rest =
        intersect_loop-Met p.0 xs p.1 x.end lo' met.built ox.2
          (met.left_ordered lo' (skip_before-IsOrdered x.start os lo' oo)) in
      (
        rest.0,
        λ c.
            intersect_values result x xs os p lo lo' c k ox oo (met.values c) (met.left_values c)
              (rest.1 c),
      )

  -- The intersection of two canonical lists of ranges is canonical, and holds exactly the clocks
  -- that both hold, with their merged values.
  pub intersect-Met :
      (xs os : List (Entry T))
      → IsCanonical xs
      → IsCanonical os
      → IsCanonical (intersect xs os)
        × ((c : ℕ) → value_at (intersect xs os) c ≡ meet (value_at xs c) (value_at os c))
  unfolding intersect value_at or_else
  intersect-Met [] os kx ko = (tt, λ c. refl)
  intersect-Met (x ∷ xs) [] kx ko = (tt, λ c. ground arith)
  intersect-Met (x ∷ xs) (o ∷ os) kx ko =
      intersect_loop-Met [] (x ∷ xs) (o ∷ os) 0 0
        (record { ends = tt; ordered = tt; canonical = tt })
        (IsCanonical-IsOrdered_zero (x ∷ xs) kx) (IsCanonical-IsOrdered_zero (o ∷ os) ko)
