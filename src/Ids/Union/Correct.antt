-- ===== src/Ids/Union/Correct.antt =====
-- The sweep of `merge` keeps every value of both sides, merged where both have one.
use y_crdt.Common.{
  ℕ, ◌≤◌, min, ◌≡◌, refl, List, [], ◌∷◌, ltb, leb, arith, Bool-cases, inl, inr, tests,
}
use y_crdt.Ids.{Merge, Entry, push_coalesced, value_at, IsOrdered, IsCanonical}
use y_crdt.Ids.Order.{or_else, IsOrdered-le, IsCanonical-IsOrdered_zero}
use y_crdt.Ids.Push.{Built}
use y_crdt.Ids.Union.{start_or_zero, push_overlap, merge_loop, merge}
use y_crdt.Ids.Union.Steps.{
  cut, cut-start, both, push-Built, Swept, drain-Swept, Swept-from, push_overlap-Built,
}
use y_crdt.Ids.Union.Cases.{
  overlap-Swept, x_before-Swept, y_before-Swept, x_shorter_values, y_shorter_values,
  both_end_values,
}

module _ {T : Type 0} ⦃m : Merge T⦄ where
  -- The sweep from any state that it can be in.
  merge_loop-Swept :
      (result xs ys : List (Entry T)) (x_cur y_cur lo hi : ℕ)
      → Built lo hi result
      → lo ≤ hi
      → IsOrdered hi (cut x_cur xs)
      → IsOrdered hi (cut y_cur ys)
      → Swept result
          (λ c. both (value_at (cut x_cur xs) c) (value_at (cut y_cur ys) c))
          (merge_loop result x_cur xs y_cur ys)
  unfolding merge_loop
  merge_loop-Swept result xs [] a b lo hi k lh ox oy =
      Swept-from result result _ _ _ (drain-Swept xs result a lo hi k lh ox)
        (λ c. unfold value_at in ground arith)
  merge_loop-Swept result [] (y ∷ ys) a b lo hi k lh ox oy =
      Swept-from result result _ _ _ (drain-Swept (y ∷ ys) result b lo hi k lh oy)
        (λ c. unfold value_at in ground arith)
  merge_loop-Swept result (x ∷ xs) (y ∷ ys) a b lo hi k lh ox oy =
      let oxs : IsOrdered x.end (cut (start_or_zero xs) xs) = rw (cut-start xs) ox.2 in
      let oys : IsOrdered y.end (cut (start_or_zero ys) ys) = rw (cut-start ys) oy.2 in
      elim (Bool-cases (leb x.end b)) [
        | inl e1 ↦ rw e1 (
            x_before-Swept result a b x y xs ys _ lo hi k ox oy (omega tests) (
              merge_loop-Swept (push_coalesced result a x.end x.value) xs (y ∷ ys)
                (start_or_zero xs) b lo x.end
                (push-Built result a x.end x.value lo hi k (omega arith) ox.0 (omega arith))
                (omega arith) oxs (omega tests, oy.1, oy.2)))
        | inr e1 ↦ elim (Bool-cases (leb y.end a)) [
          | inl e2 ↦
              rw (e1, e2)
                (y_before-Swept result a b x y xs ys _ lo hi k ox oy (omega tests) (
                  merge_loop-Swept (push_coalesced result b y.end y.value) (x ∷ xs) ys a
                    (start_or_zero ys) lo y.end
                    (push-Built result b y.end y.value lo hi k (omega arith) oy.0 (omega arith))
                    (omega arith) (omega tests, ox.1, ox.2) oys))
          | inr e2 ↦
              let low = min x.end y.end in
              let over = push_overlap result a x b y in
              let g = push_overlap-Built result a b x y lo hi k lh ox.0 oy.0 (omega tests) in
              elim (Bool-cases (ltb x.end y.end)) [
                | inl e3 ↦
                    rw (e1, e2, e3)
                      (overlap-Swept result a b x y xs ys _ lo hi _ k lh ox oy (omega tests)
                        (omega tests)
                        (x_shorter_values a b low x y xs ys hi ox oy refl
                          (omega tests, omega tests))
                        (merge_loop-Swept over xs (y ∷ ys) (start_or_zero xs) low lo low g
                          (omega arith) (IsOrdered-le _ (omega arith) oxs)
                          (omega arith, omega tests, oy.2)))
                | inr e3 ↦ elim (Bool-cases (ltb y.end x.end)) [
                  | inl e4 ↦
                      rw (e1, e2, e3, e4)
                        (overlap-Swept result a b x y xs ys _ lo hi _ k lh ox oy (omega tests)
                          (omega tests)
                          (y_shorter_values a b low x y xs ys hi ox oy refl
                            (omega tests, omega tests))
                          (merge_loop-Swept over (x ∷ xs) ys low (start_or_zero ys) lo low g
                            (omega arith) (omega arith, omega tests, ox.2)
                            (IsOrdered-le _ (omega arith) oys)))
                  | inr e4 ↦
                      rw (e1, e2, e3, e4)
                        (overlap-Swept result a b x y xs ys _ lo hi _ k lh ox oy (omega tests)
                          (omega tests)
                          (both_end_values a b low x y xs ys hi ox oy refl
                            (omega tests, omega tests))
                          (merge_loop-Swept over xs ys (start_or_zero xs) (start_or_zero ys) lo low
                            g (omega arith) (IsOrdered-le _ (omega arith) oxs)
                            (IsOrdered-le _ (omega arith) oys)))
                ]
              ]
        ]
      ]

  -- The union of two canonical lists of ranges is canonical, and holds at every clock what the two
  -- lists hold, merged where both hold a value.
  pub merge-Swept :
      (xs ys : List (Entry T))
      → IsCanonical xs
      → IsCanonical ys
      → IsCanonical (merge xs ys)
        × ((c : ℕ) → value_at (merge xs ys) c ≡ both (value_at xs c) (value_at ys c))
  unfolding merge or_else value_at
  merge-Swept xs [] kx ky = (kx, λ c. ground arith)
  merge-Swept [] (y ∷ ys) kx ky = (ky, λ c. ground arith)
  merge-Swept (x ∷ xs) (y ∷ ys) kx ky =
      let k =
        merge_loop-Swept [] (x ∷ xs) (y ∷ ys) x.start y.start 0 0
          (record { ends = tt; ordered = tt; canonical = tt }) (omega arith)
          (IsCanonical-IsOrdered_zero (x ∷ xs) kx) (IsCanonical-IsOrdered_zero (y ∷ ys) ky) in
      (k.canonical, k.values)
