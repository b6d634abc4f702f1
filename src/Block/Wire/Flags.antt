-- ===== src/Block/Wire/Flags.antt =====
-- yrs/src/block.rs: the bits of the flag byte, `Item::info`, of every item.
use y_crdt.Common.{
  ℕ, zero, suc, ◌<◌, ◌≡◌, refl, sym, Bool, true, false, not, ◌&&◌, ◌||◌, ◌==◌, arith, ==_iff,
  Bool-cases, inl, inr,
}
use Prim.Native.Nat.{bit_and, bit_or}
use y_crdt.Block.Wire.{info_bits}

abbrev below : ℕ → (ℕ → Bool) → Bool
below zero test = true
below (suc n) test = test n && below n test

and_true : (a b : Bool) → (a && b) ≡ true → (a ≡ true) × (b ≡ true)
and_true true b h = (refl, h)
and_true false b h = absurd (cc)

below-true : (n : ℕ) (test : ℕ → Bool) (k : ℕ) → below n test ≡ true → k < n → test k ≡ true
below-true zero test k h l = absurd (omega arith)
below-true (suc n) test k h l =
    let (first, others) = and_true (test n) (below n test) h in
    elim (Bool-cases (k == n)) [
      | inl e ↦ let same = (==_iff k n).0 e in rw same first
      | inr e ↦ below-true n test k others (ground arith)
    ]

abbrev same : Bool → Bool → Bool
same true b = b
same false b = not b

same-true : (a b : Bool) → same a b ≡ true → a ≡ b
same-true true b h = sym h
same-true false true h = absurd (cc)
same-true false false h = refl

-- All that the decoder asks of a flag byte.
abbrev tests_of : Bool → Bool → Bool → ℕ → Bool
tests_of o r s n =
    let i = info_bits o r s (suc n) in
    same (bit_and i 192 == 0) (not (o || r))
    && (same (bit_and i 128 == 0) (not o)
        && (same (bit_and i 64 == 0) (not r)
            && (same (bit_and i 32 == 0) (not s)
                && (same (i == 10) false && (same (i == 0) false && (bit_and i 15 == suc n))))))

tests_hold : (o r s : Bool) (n : ℕ) → n < 9 → tests_of o r s n ≡ true
tests_hold false false false n h = below-true 9 (tests_of false false false) n refl h
tests_hold false false true n h = below-true 9 (tests_of false false true) n refl h
tests_hold false true false n h = below-true 9 (tests_of false true false) n refl h
tests_hold false true true n h = below-true 9 (tests_of false true true) n refl h
tests_hold true false false n h = below-true 9 (tests_of true false false) n refl h
tests_hold true false true n h = below-true 9 (tests_of true false true) n refl h
tests_hold true true false n h = below-true 9 (tests_of true true false) n refl h
tests_hold true true true n h = below-true 9 (tests_of true true true) n refl h

-- The tests of the flag byte tell which fields were there, and the kind of the content; the byte is
-- not that of a skip or of garbage.
pub flags :
    (o r s : Bool) (n : ℕ)
    → n < 9
    → let i = info_bits o r s (suc n) in
      ((bit_and i 192 == 0) ≡ not (o || r))
      × ((bit_and i 128 == 0) ≡ not o)
      × ((bit_and i 64 == 0) ≡ not r)
      × ((bit_and i 32 == 0) ≡ not s)
      × ((i == 10) ≡ false)
      × ((i == 0) ≡ false)
      × (bit_and i 15 ≡ suc n)
flags o r s n h =
    let i = info_bits o r s (suc n) in
    let (a, h1) = and_true _ _ (tests_hold o r s n h) in
    let (b, h2) = and_true _ _ h1 in
    let (c, h3) = and_true _ _ h2 in
    let (d, h4) = and_true _ _ h3 in
    let (e, h5) = and_true _ _ h4 in
    let (f, g) = and_true _ _ h5 in
    (
      same-true _ _ a,
      same-true _ _ b,
      same-true _ _ c,
      same-true _ _ d,
      same-true _ _ e,
      same-true _ _ f,
      (==_iff (bit_and i 15) (suc n)).0 g,
    )

abbrev keeps_origin : Bool → Bool → ℕ → Bool
keeps_origin r s n = bit_or (info_bits true r s (suc n)) 128 == info_bits true r s (suc n)

keeps_hold : (r s : Bool) (n : ℕ) → n < 9 → keeps_origin r s n ≡ true
keeps_hold false false n h = below-true 9 (keeps_origin false false) n refl h
keeps_hold false true n h = below-true 9 (keeps_origin false true) n refl h
keeps_hold true false n h = below-true 9 (keeps_origin true false) n refl h
keeps_hold true true n h = below-true 9 (keeps_origin true true) n refl h

-- The bit of an origin that is set stays set.
pub origin_flag :
    (r s : Bool) (n : ℕ)
    → n < 9
    → bit_or (info_bits true r s (suc n)) 128 ≡ info_bits true r s (suc n)
origin_flag r s n h =
    let i = info_bits true r s (suc n) in (==_iff (bit_or i 128) i).0 (keeps_hold r s n h)
