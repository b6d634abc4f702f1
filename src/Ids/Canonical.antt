-- ===== src/Ids/Canonical.antt =====
-- Canonical lists of entries that hold the same values are equal.
use y_crdt.Common.{ℕ, ◌≤◌, ◌<◌, ◌≡◌, ◌≢◌, refl, sym, some, List, [], ◌∷◌, arith}
use y_crdt.Ids.{Merge, Entry, value_at, IsOrdered, IsCanonical}
use y_crdt.Ids.Order.{value_at-IsOrdered, IsCanonical-IsOrdered, IsCanonical-tail}

module _ {T : Type 0} ⦃m : Merge T⦄ where
  value_at-start :
      (x : Entry T) (xs : List (Entry T))
      → x.start < x.end
      → value_at (x ∷ xs) x.start ≡ some x.value
  unfolding value_at
  value_at-start x xs h = ground arith

  IsCanonical-tail-IsOrdered :
      (x : Entry T) (xs : List (Entry T)) → IsCanonical (x ∷ xs) → IsOrdered x.end xs
  IsCanonical-tail-IsOrdered x [] k = tt
  IsCanonical-tail-IsOrdered x (y ∷ r) k = IsCanonical-IsOrdered y r k.1 k.3

  pub IsCanonical-nonempty :
      (x : Entry T) (xs : List (Entry T)) → IsCanonical (x ∷ xs) → x.start < x.end
  IsCanonical-nonempty x [] k = k
  IsCanonical-nonempty x (y ∷ r) k = k.0

  -- Just after a range its value does not go on.
  value_at-end_ne :
      (x : Entry T) (xs : List (Entry T)) → IsCanonical (x ∷ xs) → value_at xs x.end ≢ some x.value
  unfolding value_at
  value_at-end_ne x [] k = λ e. cc
  value_at-end_ne x (y ∷ r) k = λ e. ground (
    arith,
    m.beq_iff x.value y.value,
    value_at-IsOrdered r {lo = y.end} x.end (IsCanonical-tail-IsOrdered y r k.3),
    IsCanonical-nonempty y r k.3,
  )

  start_le :
      (x y : Entry T) (xs ys : List (Entry T))
      → IsCanonical (x ∷ xs)
      → IsCanonical (y ∷ ys)
      → value_at (x ∷ xs) x.start ≡ value_at (y ∷ ys) x.start
      → y.start ≤ x.start
  start_le x y xs ys kx ky e = ground (
    arith,
    value_at-start x xs (IsCanonical-nonempty x xs kx),
    value_at-IsOrdered (y ∷ ys) {lo = y.start} x.start
        (IsCanonical-IsOrdered y ys (omega arith) ky),
  )

  end_le :
      (x y : Entry T) (xs ys : List (Entry T))
      → IsCanonical (x ∷ xs)
      → IsCanonical (y ∷ ys)
      → x.start ≡ y.start
      → x.value ≡ y.value
      → value_at (x ∷ xs) x.end ≡ value_at (y ∷ ys) x.end
      → y.end ≤ x.end
  unfolding value_at
  end_le x y xs ys kx ky es ev e =
      ground (arith, value_at-end_ne x xs kx, IsCanonical-nonempty x xs kx)

  -- Two canonical lists of ranges that hold the same value, or none, at every clock are equal.
  pub canonical_unique :
      (xs ys : List (Entry T))
      → IsCanonical xs
      → IsCanonical ys
      → ((c : ℕ) → value_at xs c ≡ value_at ys c)
      → xs ≡ ys
  canonical_unique [] [] kx ky h = refl
  canonical_unique [] (y ∷ ys) kx ky h =
      absurd (unfold value_at in ground (arith, h y.start, IsCanonical-nonempty y ys ky))
  canonical_unique (x ∷ xs) [] kx ky h =
      absurd (unfold value_at in ground (arith, h x.start, IsCanonical-nonempty x xs kx))
  canonical_unique (x ∷ xs) (y ∷ ys) kx ky h =
      let s1 = start_le x y xs ys kx ky (h x.start) in
      let s2 = start_le y x ys xs ky kx (sym (h y.start)) in
      let s : x.start ≡ y.start = omega arith in
      let v : x.value ≡ y.value = ground (
        arith,
        h x.start,
        value_at-start x xs (IsCanonical-nonempty x xs kx),
        value_at-start y ys (IsCanonical-nonempty y ys ky),
      ) in
      let e1 = end_le x y xs ys kx ky s v (h x.end) in
      let e2 = end_le y x ys xs ky kx (sym s) (sym v) (sym (h y.end)) in
      let e : x.end ≡ y.end = omega arith in
      let tails = canonical_unique xs ys (IsCanonical-tail x xs kx) (IsCanonical-tail y ys ky) (λ c.
        unfold value_at in
        ground (
          arith,
          h c,
          value_at-IsOrdered xs {lo = x.end} c (IsCanonical-tail-IsOrdered x xs kx),
          value_at-IsOrdered ys {lo = y.end} c (IsCanonical-tail-IsOrdered y ys ky),
        )) in
      ground arith
