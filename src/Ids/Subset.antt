-- ===== src/Ids/Subset.antt =====
-- yrs/src/id_set.rs: `IdRanges<()>::subset_of` and `is_range_covered`.
use y_crdt.Common.{
  ℕ, ◌≤◌, ◌<◌, ◌≡◌, ◌≢◌, ◌↔◌, refl, Bool, true, false, none, List, [], ◌∷◌, if◌then◌else◌, ltb, leb,
  arith, Bool-cases, inl, inr, tests,
}
use y_crdt.Ids.{Entry, value_at, within, IsOrdered}
use y_crdt.Ids.Order.{value_at-IsOrdered}

module _ {T : Type 0} where
  -- The loop over the other ranges, `current` being what is covered so far.
  covered_from : ℕ → ℕ → List (Entry T) → Bool
  covered_from current end [] = leb end current
  covered_from current end (o ∷ os) =
      let skip = covered_from current end os in
      let more = covered_from o.end end os in
      if leb o.end current
      then skip
      else if ltb current o.start
      then false
      else if leb end o.end
      then true
      else more

  is_range_covered : ℕ → ℕ → List (Entry T) → Bool
  is_range_covered start end other = if leb end start then true else covered_from start end other

  pub subset_of : List (Entry T) → List (Entry T) → Bool
  subset_of [] other = true
  subset_of (e ∷ r) other =
      if is_range_covered e.start e.end other then subset_of r other else false

  covered_from_sound :
      (os : List (Entry T)) (lo a b c : ℕ)
      → IsOrdered lo os
      → covered_from a b os ≡ true
      → a ≤ c
      → c < b
      → value_at os c ≢ none
  unfolding covered_from value_at
  covered_from_sound [] lo a b c o h ac cb = λ e. ground arith
  covered_from_sound (x ∷ os) lo a b c o h ac cb = λ e.
      ground
        (arith, covered_from_sound os x.end a b c o.2, covered_from_sound os x.end x.end b c o.2)

  -- The clock that is not covered, where the loop says so.
  covered_from-gap :
      (os : List (Entry T)) (lo a b : ℕ)
      → IsOrdered lo os
      → a < b
      → covered_from a b os ≡ false
      → (c : ℕ) × (a ≤ c) × (c < b) × (value_at os c ≡ none)
  unfolding covered_from value_at
  covered_from-gap [] lo a b o ab h = (a, omega arith, ab, refl)
  covered_from-gap (x ∷ os) lo a b o ab h = elim (Bool-cases (leb x.end a)) [
    | inl e1 ↦
        let (c, ac, cb, free) = covered_from-gap os x.end a b o.2 ab (ground arith) in
        (c, ac, cb, ground arith)
    | inr e1 ↦ elim (Bool-cases (ltb a x.start)) [
      | inl e2 ↦ (a, omega arith, ab, ground (arith, value_at-IsOrdered os {lo = x.end} a o.2))
      | inr e2 ↦ elim (Bool-cases (leb b x.end)) [
        | inl e3 ↦ absurd (ground arith)
        | inr e3 ↦
            let (c, ac, cb, free) =
              covered_from-gap os x.end x.end b o.2 (omega tests) (ground arith) in
            (c, omega tests, cb, ground arith)
      ]
    ]
  ]

  is_range_covered_iff :
      (s e : ℕ) (os : List (Entry T))
      → IsOrdered 0 os
      → (is_range_covered s e os ≡ true) ↔ ((c : ℕ) → s ≤ c → c < e → value_at os c ≢ none)
  is_range_covered_iff s e os o = elim (Bool-cases (leb e s)) [
    | inl h ↦ (λ _ c sc ce. absurd (omega tests), λ _. unfold is_range_covered in rw h)
    | inr h ↦ (
      λ t c sc ce. covered_from_sound os 0 s e c o (unfold is_range_covered in rw h at t) sc ce,
      λ all. elim (Bool-cases (covered_from s e os)) [
        | inl t ↦ unfold is_range_covered in rw (h, t)
        | inr f ↦
            let (c, sc, ce, free) = covered_from-gap os 0 s e o (omega tests) f in
            absurd (all c sc ce free)
      ],
    )
  ]

  subset_of_to :
      (x : Entry T) (r os : List (Entry T)) (c : ℕ)
      → (is_range_covered x.start x.end os ≡ true
          → (c : ℕ) → x.start ≤ c
          → c < x.end
          → value_at os c ≢ none)
      → (subset_of r os ≡ true → (c : ℕ) → value_at r c ≢ none → value_at os c ≢ none)
      → subset_of (x ∷ r) os ≡ true
      → value_at (x ∷ r) c ≢ none
      → value_at os c ≢ none
  unfolding subset_of value_at
  subset_of_to x r os c here rest t h =
      let first : is_range_covered x.start x.end os ≡ true = ground arith in
      let later : subset_of r os ≡ true = ground arith in
      elim (Bool-cases (within x.start x.end c)) [
        | inl e ↦ here first c (ground arith) (ground arith)
        | inr e ↦ rest later c (rw e at h)
      ]

  subset_of_from :
      (x : Entry T) (r os : List (Entry T)) (lo : ℕ)
      → IsOrdered x.end r
      → (((c : ℕ) → x.start ≤ c → c < x.end → value_at os c ≢ none)
          → is_range_covered x.start x.end os ≡ true)
      → (((c : ℕ) → value_at r c ≢ none → value_at os c ≢ none) → subset_of r os ≡ true)
      → ((c : ℕ) → value_at (x ∷ r) c ≢ none → value_at os c ≢ none)
      → subset_of (x ∷ r) os ≡ true
  unfolding subset_of value_at
  subset_of_from x r os lo o here rest all =
      rw (here (λ c sc ce. all c (λ h. ground arith))) (rest (λ c h. all c (λ e. h (ground arith))))

  subset_of_lem :
      (xs os : List (Entry T)) (lo : ℕ)
      → IsOrdered lo xs
      → IsOrdered 0 os
      → (subset_of xs os ≡ true) ↔ ((c : ℕ) → value_at xs c ≢ none → value_at os c ≢ none)
  subset_of_lem [] os lo ox oo =
      (λ _ c h. absurd (h (unfold value_at in refl)), λ _. unfold subset_of in refl)
  subset_of_lem (x ∷ r) os lo ox oo =
      let here = is_range_covered_iff x.start x.end os oo in
      let rest = subset_of_lem r os x.end ox.2 oo in
      (
        λ t c h. subset_of_to x r os c here.0 rest.0 t h,
        λ all. subset_of_from x r os x.end ox.2 here.1 rest.1 all,
      )

  -- For ordered lists, subset_of holds if and only if every clock that this list holds is held by
  -- the other one.
  pub subset_of_iff :
      (xs os : List (Entry T))
      → IsOrdered 0 xs
      → IsOrdered 0 os
      → (subset_of xs os ≡ true) ↔ ((c : ℕ) → value_at xs c ≢ none → value_at os c ≢ none)
  subset_of_iff xs os ox oo = subset_of_lem xs os 0 ox oo
