-- ===== src/StateVector/Clocks.antt =====
-- What the updates of a state vector do to the clock of every client.
use y_crdt.Common.{
  ap, Option-cases, ℕ, ◌+◌, ◌^◌, ◌<◌, min, max, ◌≡◌, refl, Bool, true, false, Option, none, some,
  [], ◌∷◌, ltb, ◌==◌, if◌then◌else◌, arith, tests, Bool-cases, inl, inr, ==_iff,
}
use y_crdt.Encoding.{◌>>=◌, Result, ok, panic}
use y_crdt.BTree.{get}
use y_crdt.StateVector.{StateVector, clock_of, inc_by, set_min, set_max, merge}
use y_crdt.HashMap.{put, IsUnique, get-put, put-IsUnique}

pub clock_of-put :
    (sv : StateVector) (client clock j : ℕ)
    → clock_of (put client clock sv) j ≡ (if client == j then clock else clock_of sv j)
clock_of-put sv client clock j = elim (Bool-cases (client == j)) [
  | inl e ↦ rw (get-put sv client j clock, e) refl
  | inr e ↦ rw (get-put sv client j clock, e) refl
]

-- Where the other vector lists every client once, in any order, merge takes the larger of the two
-- clocks of every client.
pub clock_of-merge :
    (sv other : StateVector) (j : ℕ)
    → IsUnique other
    → clock_of (merge sv other) j ≡ max (clock_of sv j) (clock_of other j)
unfolding merge get
clock_of-merge sv [] j u = omega arith
clock_of-merge sv ((client, clock) ∷ other) j u =
    let next = max (clock_of sv client) clock in
    let ih = clock_of-merge (put client next sv) other j u.1 in
    elim (Bool-cases (client == j)) [
      | inl e ↦
          let same = (==_iff client j).0 e in
          let agree : clock_of sv client ≡ clock_of sv j = rw same refl in
          let gone : get j other ≡ none = rw same at u.0 in
          let first : clock_of (put client next sv) j ≡ next =
            rw (clock_of-put sv client next j, e) refl in
          rw (e, ih, first, gone) (omega (arith, agree))
      | inr e ↦
          let first : clock_of (put client next sv) j ≡ clock_of sv j =
            rw (clock_of-put sv client next j, e) refl in
          rw (e, ih, first) refl
    ]

pub merge-IsUnique : (sv other : StateVector) → IsUnique sv → IsUnique (merge sv other)
unfolding merge
merge-IsUnique sv [] u = u
merge-IsUnique sv ((client, clock) ∷ other) u =
    merge-IsUnique (put client (max (clock_of sv client) clock) sv) other
      (put-IsUnique sv client (max (clock_of sv client) clock) u)

-- `set_max` raises the clock of its client to the given one, and leaves the others.
pub clock_of-set_max :
    (sv : StateVector) (client clock j : ℕ)
    → clock_of (set_max sv client clock) j
      ≡ (if client == j then max (clock_of sv j) clock else clock_of sv j)
unfolding set_max
clock_of-set_max sv client clock j =
    let put_lem = clock_of-put sv client (max (clock_of sv client) clock) j in
    elim (Bool-cases (client == j)) [
      | inl e ↦ let same = (==_iff client j).0 e in rw (set_max, put_lem, e) (rw same refl)
      | inr e ↦ rw (set_max, put_lem, e) refl
    ]

-- The smaller of two clocks, where the first may be missing.
abbrev pub min_with : Option ℕ → ℕ → ℕ
min_with none clock = clock
min_with (some value) clock = min value clock

-- `set_min` lowers the clock of its client to the given one, sets it where there was none, and
-- leaves the others.
pub clock_of-set_min :
    (sv : StateVector) (client clock j : ℕ)
    → clock_of (set_min sv client clock) j
      ≡ (if client == j then min_with (get j sv) clock else clock_of sv j)
unfolding set_min
clock_of-set_min sv client clock j = elim (Option-cases (get client sv)) [
  | inl o ↦ elim (Bool-cases (client == j)) [
    | inl e ↦
        let here : get j sv ≡ none = rw ((==_iff client j).0 e) at o in
        rw (set_min, o, clock_of-put sv client clock j, e, here) refl
    | inr e ↦ rw (set_min, o, clock_of-put sv client clock j, e) refl
  ]
  | inr (value, o) ↦ elim (Bool-cases (client == j)) [
    | inl e ↦
        let here : get j sv ≡ some value = rw ((==_iff client j).0 e) at o in
        rw (set_min, o, clock_of-put sv client (min value clock) j, e, here) refl
    | inr e ↦ rw (set_min, o, clock_of-put sv client (min value clock) j, e) refl
  ]
]

-- The clock of a client in what `inc_by` returns.
abbrev pub clock_in : Result StateVector → ℕ → Result ℕ
clock_in r j = r >>= (λ sv. ok (clock_of sv j))

-- For a clock of 32 bits, inc_by adds to the clock of its client and leaves the others, and it
-- panics if the sum has more than 32 bits.
pub clock_in-inc_by :
    (sv : StateVector) (client delta j : ℕ)
    → clock_of sv client < 2 ^ 32
    → clock_in (inc_by sv client delta) j ≡ (
        if ltb (clock_of sv client + delta) (2 ^ 32)
        then ok (if client == j then clock_of sv j + delta else clock_of sv j)
        else panic)
unfolding inc_by
clock_in-inc_by sv client delta j h = elim (Bool-cases (ltb 0 delta)) [
  | inr z ↦
      let none_added : delta ≡ 0 = omega tests in
      let room : ltb (clock_of sv client + delta) (2 ^ 32) ≡ true = omega tests in
      rw (inc_by, z, room, none_added) (ap (λ (c : ℕ). ok c) (same (client == j) (clock_of sv j)))
  | inl p ↦ elim (Bool-cases (ltb (clock_of sv client + delta) (2 ^ 32))) [
    | inr o ↦ rw (inc_by, p, o) refl
    | inl o ↦
        rw (inc_by, p, o, clock_of-put sv client (clock_of sv client + delta) j)
          (elim (Bool-cases (client == j)) [
            | inl e ↦ rw e (rw ((==_iff client j).0 e) refl)
            | inr e ↦ rw e refl
          ])
  ]
]
  where
    same : (b : Bool) (c : ℕ) → c ≡ (if b then c + 0 else c)
    same true c = omega arith
    same false c = refl
