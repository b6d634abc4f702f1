-- ===== src/Examples/Clocks.antt =====
-- State vectors at concrete inputs.
use y_crdt.Common.{◌++◌, ℕ, ◌≤◌, ◌≡◌, ◌↔◌, refl, true, [], ◌∷◌, ◌==◌, if◌then◌else◌, arith}
use y_crdt.StateVector.Codec.{encode, decode, decode-encode}
use y_crdt.Encoding.{ok}
use y_crdt.StateVector.{StateVector, Snapshot, clock_of, set_min, partial_cmp}
use y_crdt.StateVector.Clocks.{clock_of-set_min, min_with}
use y_crdt.StateVector.Order.{at_most, at_least, partial_cmp_lem}
use y_crdt.BTree.{get}
use y_crdt.Examples.{units}

abbrev here : StateVector
here = (7, 4) ∷ (2, 9) ∷ []

abbrev there : StateVector
there = (2, 3) ∷ (1, 5) ∷ []

clock_of-set_min_example :
    clock_of (set_min here 2 6) 2 ≡ (if 2 == 2 then min_with (get 2 here) 6 else clock_of here 2)
clock_of-set_min_example = clock_of-set_min here 2 6 2

partial_cmp_lem_example :
    ((at_most (partial_cmp here there) ≡ true) ↔ ((c : ℕ) → clock_of here c ≤ clock_of there c))
    × ((at_least (partial_cmp here there) ≡ true) ↔ ((c : ℕ) → clock_of there c ≤ clock_of here c))
unfolding get
partial_cmp_lem_example = partial_cmp_lem here there (refl, (refl, tt)) (refl, (refl, tt))

abbrev shot : Snapshot
shot = record {
  delete_set = (7, record { start = 1; end = 2; value = tt } ∷ []) ∷ [];
  state_map = here;
}

decode-encode_example :
    (decoded : StateVector) × (decode (encode here ++ (8 ∷ [])) ≡ ok (decoded, 8 ∷ []))
    × ((client : ℕ) → get client decoded ≡ get client here)
unfolding get
decode-encode_example =
    decode-encode here (8 ∷ []) (refl, (refl, tt))
      (omega arith, omega arith, (omega arith, omega arith, tt)) (omega arith)
