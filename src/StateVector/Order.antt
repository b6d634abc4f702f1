-- ===== src/StateVector/Order.antt =====
-- `partial_cmp` is the order of the clocks at every client, for whatever order of iteration.
use Prim.Native.Nat.{Ordering}
use y_crdt.Common.{
  ℕ, ◌≤◌, ◌≡◌, ◌↔◌, refl, Bool, true, false, Option, none, some, List, [], ◌∷◌, ◌==◌, if◌then◌else◌,
  arith, Bool-cases, inl, inr, ==_iff,
}
use y_crdt.BTree
use y_crdt.BTree.{get}
use y_crdt.HashMap.{IsUnique}
use y_crdt.StateVector.{StateVector, clock_of, compare_loop, own_clocks, other_clocks, partial_cmp}

-- The results that leave `≤` possible, and those that leave `≥` possible.
abbrev pub at_most : Option Ordering → Bool
at_most (some Ordering.lt) = true
at_most (some Ordering.eq) = true
at_most r = false

abbrev pub at_least : Option Ordering → Bool
at_least (some Ordering.gt) = true
at_least (some Ordering.eq) = true
at_least r = false

abbrev AllLe : List (ℕ × ℕ) → Type 0
AllLe [] = Unit
AllLe ((a, b) ∷ r) = (a ≤ b) × AllLe r

abbrev AllGe : List (ℕ × ℕ) → Type 0
AllGe [] = Unit
AllGe ((a, b) ∷ r) = (b ≤ a) × AllGe r

compare_loop-at_most :
    (ps : List (ℕ × ℕ)) (result : Ordering)
    → (at_most (compare_loop ps result) ≡ true) ↔ ((at_most (some result) ≡ true) × AllLe ps)
unfolding compare_loop
compare_loop-at_most [] result = (λ h. (h, tt), λ h. h.0)
compare_loop-at_most ((a, b) ∷ r) result = ground (
  arith,
  compare_loop-at_most r Ordering.lt,
  compare_loop-at_most r Ordering.eq,
  compare_loop-at_most r Ordering.gt,
)

compare_loop-at_least :
    (ps : List (ℕ × ℕ)) (result : Ordering)
    → (at_least (compare_loop ps result) ≡ true) ↔ ((at_least (some result) ≡ true) × AllGe ps)
unfolding compare_loop
compare_loop-at_least [] result = (λ h. (h, tt), λ h. h.0)
compare_loop-at_least ((a, b) ∷ r) result = ground (
  arith,
  compare_loop-at_least r Ordering.lt,
  compare_loop-at_least r Ordering.eq,
  compare_loop-at_least r Ordering.gt,
)

tail_clock :
    (k v c : ℕ) (sv : StateVector)
    → get k sv ≡ none
    → clock_of sv c ≡ (if k == c then 0 else clock_of ((k, v) ∷ sv) c)
unfolding get
tail_clock k v c sv h = elim (Bool-cases (k == c)) [
  | inl e ↦ let gone : get c sv ≡ none = rw ((==_iff k c).0 e) at h in rw (e, gone) refl
  | inr e ↦ rw e refl
]

head_clock : (k v : ℕ) (sv : StateVector) → clock_of ((k, v) ∷ sv) k ≡ v
unfolding get
head_clock k v sv = let e : (k == k) ≡ true = (==_iff k k).1 refl in rw e refl

own-le :
    (sv other : StateVector)
    → IsUnique sv
    → AllLe (own_clocks sv other) ↔ ((c : ℕ) → clock_of sv c ≤ clock_of other c)
unfolding own_clocks BTree.get
own-le [] other u = (λ h c. omega arith, λ h. tt)
own-le ((k, v) ∷ sv) other u =
    let ih = own-le sv other u.1 in
    (
      λ h c. joined c h.0 (ih.0 h.1 c),
      λ h. (rw (head_clock k v sv) at (h k), ih.1 (λ c. rest c (h c))),
    )
  where
    joined :
        (c : ℕ)
        → v ≤ clock_of other k
        → clock_of sv c ≤ clock_of other c
        → clock_of ((k, v) ∷ sv) c ≤ clock_of other c
    joined c h g = elim (Bool-cases (k == c)) [
      | inl e ↦ rw (BTree.get, e) (rw ((==_iff k c).0 e) at h)
      | inr e ↦ rw (BTree.get, e) g
    ]

    rest : (c : ℕ) → clock_of ((k, v) ∷ sv) c ≤ clock_of other c → clock_of sv c ≤ clock_of other c
    rest c h = elim (Bool-cases (k == c)) [
      | inl e ↦ rw (tail_clock k v c sv u.0, e) (omega arith)
      | inr e ↦ rw e at h
    ]

own-ge :
    (sv other : StateVector)
    → IsUnique sv
    → ((c v : ℕ) → get c sv ≡ some v → clock_of other c ≤ v)
    → AllGe (own_clocks sv other)
unfolding own_clocks get
own-ge [] other u h = tt
own-ge ((k, v) ∷ sv) other u h =
    let e : (k == k) ≡ true = (==_iff k k).1 refl in
    (h k v (rw e refl), own-ge sv other u.1 (λ c w g. h c w (later c w g)))
  where
    later : (c w : ℕ) → get c sv ≡ some w → get c ((k, v) ∷ sv) ≡ some w
    later c w g = elim (Bool-cases (k == c)) [
      | inl e ↦ let gone : get c sv ≡ none = rw ((==_iff k c).0 e) at u.0 in absurd (cc (gone, g))
      | inr e ↦ rw e g
    ]

other-ge : (sv other : StateVector) → AllGe (other_clocks sv other) ↔ AllLe (own_clocks other sv)
unfolding own_clocks other_clocks
other-ge sv [] = (λ h. h, λ h. h)
other-ge sv ((k, v) ∷ other) =
    let ih = other-ge sv other in (λ h. (h.0, ih.0 h.1), λ h. (h.0, ih.1 h.1))

other-le : (sv other : StateVector) → AllLe (other_clocks sv other) ↔ AllGe (own_clocks other sv)
unfolding own_clocks other_clocks
other-le sv [] = (λ h. h, λ h. h)
other-le sv ((k, v) ∷ other) =
    let ih = other-le sv other in (λ h. (h.0, ih.0 h.1), λ h. (h.0, ih.1 h.1))

both_loops : List (ℕ × ℕ) → List (ℕ × ℕ) → Option Ordering
both_loops ps qs = elim (compare_loop ps Ordering.eq) [
  | none ↦ none
  | some result ↦ compare_loop qs result
]

-- What the two loops find together.
both_loops-at_most :
    (ps qs : List (ℕ × ℕ)) → (at_most (both_loops ps qs) ≡ true) ↔ (AllLe ps × AllLe qs)
unfolding both_loops
both_loops-at_most ps qs =
    let first = compare_loop-at_most ps Ordering.eq in go (compare_loop ps Ordering.eq) first
  where
    go :
        (o : Option Ordering)
        → (at_most o ≡ true) ↔ ((true ≡ true) × AllLe ps)
        → (at_most (elim o [ none ↦ none | some result ↦ compare_loop qs result ]) ≡ true)
          ↔ (AllLe ps × AllLe qs)
    go none f = (λ h. absurd (cc h), λ h. absurd (cc (f.1 (refl, h.0))))
    go (some result) f =
        let g = compare_loop-at_most qs result in
        (λ h. ((f.0 (g.0 h).0).1, (g.0 h).1), λ h. g.1 (f.1 (refl, h.0), h.1))

both_loops-at_least :
    (ps qs : List (ℕ × ℕ)) → (at_least (both_loops ps qs) ≡ true) ↔ (AllGe ps × AllGe qs)
unfolding both_loops
both_loops-at_least ps qs =
    let first = compare_loop-at_least ps Ordering.eq in go (compare_loop ps Ordering.eq) first
  where
    go :
        (o : Option Ordering)
        → (at_least o ≡ true) ↔ ((true ≡ true) × AllGe ps)
        → (at_least (elim o [ none ↦ none | some result ↦ compare_loop qs result ]) ≡ true)
          ↔ (AllGe ps × AllGe qs)
    go none f = (λ h. absurd (cc h), λ h. absurd (cc (f.1 (refl, h.0))))
    go (some result) f =
        let g = compare_loop-at_least qs result in
        (λ h. ((f.0 (g.0 h).0).1, (g.0 h).1), λ h. g.1 (f.1 (refl, h.0), h.1))

le-entries :
    (sv other : StateVector)
    → ((c : ℕ) → clock_of sv c ≤ clock_of other c)
    → (c v : ℕ) → get c other ≡ some v
    → clock_of sv c ≤ v
le-entries sv other h c v g = let here : clock_of other c ≡ v = rw g refl in omega (arith, h c)

-- For vectors that list every client once, in any order, partial_cmp answers Less or Equal if and
-- only if no client has a larger clock here than there, and Greater or Equal if and only if no
-- client has a larger clock there than here.
pub partial_cmp_lem :
    (sv other : StateVector)
    → IsUnique sv
    → IsUnique other
    → ((at_most (partial_cmp sv other) ≡ true) ↔ ((c : ℕ) → clock_of sv c ≤ clock_of other c))
      × ((at_least (partial_cmp sv other) ≡ true) ↔ ((c : ℕ) → clock_of other c ≤ clock_of sv c))
unfolding partial_cmp both_loops
partial_cmp_lem sv other u w =
    let le = both_loops-at_most (own_clocks sv other) (other_clocks sv other) in
    let ge = both_loops-at_least (own_clocks sv other) (other_clocks sv other) in
    let here = own-le sv other u in
    let there = own-le other sv w in
    (
      (
        λ h. here.0 (le.0 h).0,
        λ h. le.1 (here.1 h, (other-le sv other).1 (own-ge other sv w (le-entries sv other h))),
      ),
      (
        λ h. there.0 ((other-ge sv other).0 (ge.0 h).1),
        λ h. ge.1 (own-ge sv other u (le-entries other sv h), (other-ge sv other).1 (there.1 h)),
      ),
    )
