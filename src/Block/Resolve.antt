-- ===== src/Block/Resolve.antt =====
-- yrs/src/block.rs: the loop of `Item::resolve_conflict` on the list of items that it passes.
use y_crdt.Common.{
  ℕ, zero, suc, ◌<◌, ◌≤◌, ◌≡◌, refl, sym, ◌∙◌, ap, false, Option, none, some, List, [], ◌∷◌, ◌++◌,
  is_among, length, take, arith, inl, inr, ◌⊎◌, ==_iff,
}
use y_crdt.Block.{BlockId, Item, Heap, Verdict, stop, advance, skip, same_ptr, verdict, scan}
use y_crdt.Block.Segment.{Segment, last_of, first_of}

Verdict-cases : (v : Verdict) → (v ≡ stop) ⊎ ((v ≡ advance) ⊎ (v ≡ skip))
Verdict-cases stop = inl refl
Verdict-cases advance = inr (inl refl)
Verdict-cases skip = inr (inr refl)

-- One more item before the place, if a later item moves the place at all.
abbrev pub one_more : ℕ → ℕ
one_more zero = zero
one_more (suc n) = suc (suc n)

-- The pointer is not to an item of the list.
abbrev pub IsOutside : Option ℕ → List ℕ → Type 0
IsOutside none xs = Unit
IsOutside (some p) xs = is_among p xs ≡ false

IsOutside-rest : (p : Option ℕ) (x : ℕ) (xs : List ℕ) → IsOutside p (x ∷ xs) → IsOutside p xs
IsOutside-rest none x xs h = tt
IsOutside-rest (some p) x xs h = ground arith

outside_first :
    (p : Option ℕ) (x : ℕ) (xs : List ℕ) → IsOutside p (x ∷ xs) → same_ptr p (some x) ≡ false
outside_first none x xs h = refl
outside_first (some p) x xs h = ground arith

module _ (heap : Heap) (get_item : BlockId → Option ℕ) (self : Item) where
  -- How many of the items between the neighbours of the new item come before it.
  unfoldable pub place : List ℕ → List ℕ → List ℕ → ℕ
  place [] conflicting before = 0
  place (o ∷ xs) conflicting before =
      elim (verdict heap get_item self o (o ∷ conflicting) (o ∷ before)) [
        | stop ↦ 0
        | advance ↦ suc (place xs [] (o ∷ before))
        | skip ↦ one_more (place xs (o ∷ conflicting) (o ∷ before))
      ]

  pub place-le : (xs conflicting before : List ℕ) → place xs conflicting before ≤ length xs
  unfolding place
  place-le [] conflicting before = omega arith
  place-le (o ∷ xs) conflicting before =
      elim (Verdict-cases (verdict heap get_item self o (o ∷ conflicting) (o ∷ before))) [
        | inl v ↦ rw (place, v) (omega arith)
        | inr (inl v) ↦ rw (place, v) (omega (arith, place-le xs [] (o ∷ before)))
        | inr (inr v) ↦
            rw (place, v)
              (grows (place xs (o ∷ conflicting) (o ∷ before))
                (place-le xs (o ∷ conflicting) (o ∷ before)))
      ]
    where
      grows : (n : ℕ) → n ≤ length xs → one_more n ≤ suc (length xs)
      grows zero h = omega arith
      grows (suc n) h = omega arith

  last_of-one_more :
      (left : Option ℕ) (o : ℕ) (xs : List ℕ) (n : ℕ)
      → n ≤ length xs
      → last_of left (take (one_more n) (o ∷ xs)) ≡ last_of left (take n xs)
  last_of-one_more left o xs zero h = refl
  last_of-one_more left o [] (suc n) h = absurd (omega arith)
  last_of-one_more left o (x ∷ xs) (suc n) h = refl

  -- With more fuel than items, the loop ends at the place.
  pub scan-place :
      (fuel : ℕ) (prev o left : Option ℕ) (xs ys conflicting before : List ℕ)
      → Segment heap prev o (xs ++ ys) none
      → self.right ≡ first_of ys none
      → IsOutside self.right xs
      → length xs < fuel
      → scan heap get_item fuel self o left conflicting before
        ≡ some (last_of left (take (place xs conflicting before) xs))
  unfolding scan place
  scan-place zero prev o left xs ys conflicting before s r out h = absurd (omega arith)
  scan-place (suc fuel) prev o left [] [] conflicting before s r out h = rw s refl
  scan-place (suc fuel) prev o left [] (y ∷ ys) conflicting before s r out h =
      rw (s.0, r, (==_iff y y).1 refl) refl
  scan-place (suc fuel) prev o left (x ∷ xs) ys conflicting before s r out h =
      let ih = λ (l : Option ℕ) (c : List ℕ).
        scan-place fuel (some x) (heap x).right l xs ys c (x ∷ before) s.2 r
          (IsOutside-rest self.right x xs out) (omega arith) in
      let other : same_ptr self.right (some x) ≡ false = outside_first self.right x xs out in
      elim (Verdict-cases (verdict heap get_item self x (x ∷ conflicting) (x ∷ before))) [
        | inl v ↦ rw (place, s.0, other, v) refl
        | inr (inl v) ↦ rw (place, s.0, other, v) (ih (some x) [])
        | inr (inr v) ↦
            rw (place, s.0, other, v)
              (ih left (x ∷ conflicting)
                ∙ ap some (
                    sym (
                      last_of-one_more left x xs (place xs (x ∷ conflicting) (x ∷ before))
                        (place-le xs (x ∷ conflicting) (x ∷ before)))))
      ]
