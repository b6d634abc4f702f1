-- ===== src/Ids/Insert/Tail.antt =====
-- The tail path of `insert_with`.
use y_crdt.Common.{ℕ, ◌≤◌, ◌<◌, ◌≡◌, some, List, [], ◌∷◌, arith, Option-cases, inl, inr}
use y_crdt.Ids.{Merge, Entry, IsCanonical, value_at, overlay}
use y_crdt.Ids.Order.{SameHead, IsCanonical-SameHead}
use y_crdt.Ids.Insert.{insert_at_tail}

module _ {T : Type 0} ⦃m : Merge T⦄ where
  -- What the tail path guarantees when it answers.
  pub record Settled (xs : List (Entry T)) (s t : ℕ) (v : T) (ys : List (Entry T)) : Type 0 where
    pub values : (c : ℕ) → value_at ys c ≡ overlay s t v c (value_at xs c)
    pub canonical : IsCanonical ys
    pub head : SameHead xs ys

module _ {T : Type 0} ⦃m : Merge T⦄ (idem : (a : T) → m.merge a a ≡ a) where
  Settled-last :
      (x : Entry T) (s t : ℕ) (v : T) (ys : List (Entry T))
      → s < t
      → x.start < x.end
      → insert_at_tail (x ∷ []) s t v ≡ some ys
      → Settled (x ∷ []) s t v ys
  unfolding insert_at_tail value_at SameHead
  Settled-last x s t v ys st o h = record {
    values = λ c. ground (arith, m.beq_iff x.value v, idem v);
    canonical = ground (arith, m.beq_iff x.value v, idem v);
    head = ground (arith, m.beq_iff x.value v, idem v);
  }

  insert_at_tail-cons :
      (x y : Entry T) (r : List (Entry T)) (s t : ℕ) (v : T) (ys : List (Entry T))
      → insert_at_tail (x ∷ y ∷ r) s t v ≡ some ys
      → (zs : List (Entry T)) × (insert_at_tail (y ∷ r) s t v ≡ some zs) × (ys ≡ x ∷ zs)
  insert_at_tail-cons x y r s t v ys h = elim (Option-cases (insert_at_tail (y ∷ r) s t v)) [
    | inl e ↦ absurd (unfold insert_at_tail in cc (e, h))
    | inr (zs, e) ↦ (zs, e, unfold insert_at_tail in cc (e, h))
  ]

  insert_at_tail-start :
      (xs : List (Entry T)) (x : Entry T) (s t : ℕ) (v : T) (ys : List (Entry T))
      → IsCanonical (x ∷ xs)
      → insert_at_tail (x ∷ xs) s t v ≡ some ys
      → x.start ≤ s
  insert_at_tail-start [] x s t v ys k h = unfold insert_at_tail in ground arith
  insert_at_tail-start (y ∷ r) x s t v ys k h =
      let (zs, e, _) = insert_at_tail-cons x y r s t v ys h in
      omega (arith, insert_at_tail-start r y s t v zs k.3 e, k.0, k.1)

  Settled-cons :
      (x y : Entry T) (r : List (Entry T)) (s t : ℕ) (v : T) (zs : List (Entry T))
      → IsCanonical (x ∷ y ∷ r)
      → y.start ≤ s
      → Settled (y ∷ r) s t v zs
      → Settled (x ∷ y ∷ r) s t v (x ∷ zs)
  unfolding value_at SameHead
  Settled-cons x y r s t v zs k below rest = record {
    values = λ c. ground (arith, rest.values c, below, k.1);
    canonical = IsCanonical-SameHead x y r zs k rest.head rest.canonical;
    head = ground arith;
  }

  pub insert_at_tail-Settled :
      (x : Entry T) (xs : List (Entry T)) (s t : ℕ) (v : T) (ys : List (Entry T))
      → s < t
      → IsCanonical (x ∷ xs)
      → insert_at_tail (x ∷ xs) s t v ≡ some ys
      → Settled (x ∷ xs) s t v ys
  insert_at_tail-Settled x [] s t v ys st k h = Settled-last x s t v ys st k h
  insert_at_tail-Settled x (y ∷ r) s t v ys st k h =
      let (zs, e, p) = insert_at_tail-cons x y r s t v ys h in
      let rest = insert_at_tail-Settled y r s t v zs st k.3 e in
      let below = insert_at_tail-start r y s t v zs k.3 e in
      rw p (Settled-cons x y r s t v zs k below rest)
