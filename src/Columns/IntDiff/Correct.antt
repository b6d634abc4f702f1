-- ===== src/Columns/IntDiff/Correct.antt =====
-- Reading back the numbers that were written as differences.
use y_crdt.Common.{
  ℕ, zero, suc, ◌+◌, ◌-◌, ◌*◌, ◌%◌, ◌^◌, ◌<◌, ◌≡◌, ◌↔◌, refl, sym, ◌∙◌, ap, true, false, List, [],
  ◌∷◌, ◌++◌, append_assoc, append-nil, length, ltb, ◌==◌, ==_iff, arith, tests, Bool-cases, inl,
  inr,
}
use Prim.Native.Nat.{bit_and, bit_or}
use y_crdt.Encoding.{Result, ok, err, panic, ◌>>=◌}
use y_crdt.Encoding.Bits.{or_none, or_one, and_one}
use y_crdt.Encoding.VarInt.{write_var_u32}
use y_crdt.Encoding.VarInt.RoundTrip.{read_var_u32-write_var_u32}
use y_crdt.Encoding.VarInt.Signed.{ℤ, pos, negsuc, fits, read_i32}
use y_crdt.Encoding.VarInt.Signed.Correct.{is_least, written_i64}
use y_crdt.Columns.Runs.{
  Runs, Reader, push_run, push_all, next_key, next_keys, AllKeys, push_all-Reads,
}
use y_crdt.Columns.IntDiff.{
  as_i32, as_u32, plus, opposite, same_int, shift_in, halve, emit_diff, take_diff, DiffEncoder,
  DiffDecoder, new_diff_encoder, new_diff_decoder, write_u32, encode_u32s, read_u32, read_u32s,
}

same_int_iff : (a b : ℤ) → (same_int a b ≡ true) ↔ (a ≡ b)
same_int_iff (pos a) (pos b) = ground arith
same_int_iff (negsuc a) (negsuc b) = ground arith
same_int_iff (pos a) (negsuc b) = ground arith
same_int_iff (negsuc a) (pos b) = ground arith

-- A difference below 2 ^ 30 in size.
abbrev IsShort : ℤ → Type 0
IsShort (pos n) = n < 2 ^ 30
IsShort (negsuc n) = n < 2 ^ 30

abbrev shifted : ℤ → ℕ → ℤ
shifted (pos n) flag = pos (2 * n + flag)
shifted (negsuc n) flag = negsuc (2 * n + 1 - flag)

or_flag : (a flag : ℕ) → flag < 2 → bit_or (2 * a) flag ≡ 2 * a + flag
or_flag a zero h = or_none (2 * a) ∙ omega arith
or_flag a (suc zero) h = or_one a
or_flag a (suc (suc f)) h = absurd (omega arith)

shift_in_lem : (d : ℤ) (flag : ℕ) → IsShort d → flag < 2 → shift_in d flag ≡ shifted d flag
shift_in_lem (pos n) flag h g =
    let kept : 2 * n % 2 ^ 32 ≡ 2 * n = omega arith in
    let low : ltb (2 * n + flag) (2 ^ 31) ≡ true = omega tests in
    rw (kept, or_flag n flag g, low) refl
shift_in_lem (negsuc n) flag h g =
    let kept : 2 * (2 ^ 32 - 1 - n) % 2 ^ 32 ≡ 2 * (2 ^ 31 - 1 - n) = omega arith in
    let high : ltb (2 * (2 ^ 31 - 1 - n) + flag) (2 ^ 31) ≡ false = omega tests in
    rw (kept, or_flag (2 ^ 31 - 1 - n) flag g, high) (ap (λ (k : ℕ). negsuc k) (omega arith))

halve-shifted : (d : ℤ) (flag : ℕ) → flag < 2 → halve (shifted d flag) ≡ d
halve-shifted (pos n) flag g = ap (λ (k : ℕ). pos k) (omega arith)
halve-shifted (negsuc n) flag g = ap (λ (k : ℕ). negsuc k) (omega arith)

flag-shifted :
    (d : ℤ) (flag : ℕ) → IsShort d → flag < 2 → bit_and (as_u32 (shifted d flag)) 1 ≡ flag
flag-shifted (pos n) flag h g = and_one (2 * n + flag) ∙ omega arith
flag-shifted (negsuc n) flag h g = and_one (2 ^ 32 - 1 - (2 * n + 1 - flag)) ∙ omega arith

fits-shifted :
    (d : ℤ) (flag : ℕ)
    → IsShort d
    → flag < 2
    → (fits 64 (shifted d flag) ≡ true)
      × (is_least (shifted d flag) ≡ false)
      × (fits 32 (shifted d flag) ≡ true)
fits-shifted (pos n) flag h g = (omega tests, refl, omega tests)
fits-shifted (negsuc n) flag h g = (omega tests, ground arith, omega tests)

take_diff-emit_diff :
    (d : ℤ) (c : ℕ)
    → IsShort d
    → 0 < c
    → c < 2 ^ 32
    → (bytes : List ℕ) × (emit_diff d c ≡ ok bytes)
      × ((rest : List ℕ) → take_diff (bytes ++ rest) ≡ ok ((d, c), rest))
unfolding emit_diff take_diff read_i32
take_diff-emit_diff d c h pos_c g = elim (Bool-cases (c == 1)) [
  | inl e ↦
      let fit = fits-shifted d 0 h (omega arith) in
      let (bytes, written, taken) = written_i64 (shifted d 0) fit.0 fit.1 in
      let single : ltb 1 c ≡ false = ground arith in
      (
        bytes,
        rw (e, shift_in_lem d 0 h (omega arith), written, single) refl,
        λ rest.
            rw
              (
                taken rest,
                fit.2,
                flag-shifted d 0 h (omega arith),
                halve-shifted d 0 (omega arith),
                (==_iff c 1).0 e,
              )
              refl,
      )
  | inr e ↦
      let fit = fits-shifted d 1 h (omega arith) in
      let (bytes, written, taken) = written_i64 (shifted d 1) fit.0 fit.1 in
      let several : ltb 1 c ≡ true = ground arith in
      let room : ltb (c - 2 + 2) (2 ^ 32) ≡ true = ground arith in
      let count : c - 2 + 2 ≡ c = ground arith in
      (
        bytes ++ write_var_u32 (c - 2),
        rw (e, shift_in_lem d 1 h (omega arith), written, several) refl,
        λ rest.
            rw
              (
                append_assoc bytes (write_var_u32 (c - 2)) rest,
                taken (write_var_u32 (c - 2) ++ rest),
                fit.2,
                flag-shifted d 1 h (omega arith),
                read_var_u32-write_var_u32 (c - 2) rest (omega arith),
                room,
                count,
                halve-shifted d 1 (omega arith),
              )
              refl,
      )
]

-- The differences between neighbours, the first one from `last` on.
abbrev diffs : ℕ → List ℕ → List ℤ
diffs last [] = []
diffs last (v ∷ vs) = plus (pos v) (opposite (pos last)) ∷ diffs v vs

length-diffs : (last : ℕ) (vs : List ℕ) → length (diffs last vs) ≡ length vs
length-diffs last [] = refl
length-diffs last (v ∷ vs) = ap suc (length-diffs v vs)

-- Differences of small numbers fit, are short, and add up again.
step_lem :
    (last v : ℕ)
    → last < 2 ^ 30
    → v < 2 ^ 30
    → IsShort (plus (pos v) (opposite (pos last)))
      × (fits 32 (plus (pos v) (opposite (pos last))) ≡ true)
      × (plus (pos last) (plus (pos v) (opposite (pos last))) ≡ pos v)
step_lem zero v h g =
    let sum : v + 0 ≡ v = omega arith in
    rw (sum) (g, omega tests, ap (λ (k : ℕ). pos k) (omega arith))
step_lem (suc last) v h g = elim (Bool-cases (ltb last v)) [
  | inl e ↦ rw e (omega arith, omega tests, ap (λ (k : ℕ). pos k) (omega tests))
  | inr e ↦
      let back : ltb (last - v) (suc last) ≡ true = omega tests in
      rw e (omega arith, omega tests, rw back (ap (λ (k : ℕ). pos k) (omega tests)))
]

as_i32-small : (n : ℕ) → n < 2 ^ 30 → as_i32 n ≡ pos n
as_i32-small n h = let e : ltb n (2 ^ 31) ≡ true = omega tests in rw e refl

diffs-IsShort :
    (last : ℕ) (vs : List ℕ)
    → last < 2 ^ 30
    → AllKeys (λ v. v < 2 ^ 30) vs
    → AllKeys IsShort (diffs last vs)
diffs-IsShort last [] h a = tt
diffs-IsShort last (v ∷ vs) h a = ((step_lem last v h a.0).0, diffs-IsShort v vs a.0 a.1)

encode_u32s-push_all :
    (vs : List ℕ) (e : DiffEncoder)
    → e.last < 2 ^ 30
    → AllKeys (λ v. v < 2 ^ 30) vs
    → encode_u32s e vs ≡ push_all same_int emit_diff e.runs (diffs e.last vs)
unfolding encode_u32s push_all write_u32
encode_u32s-push_all [] e h a = refl
encode_u32s-push_all (v ∷ vs) e h a =
    let step = step_lem e.last v h a.0 in
    rw (as_i32-small v a.0, as_i32-small e.last h, step.1)
      (go (λ runs. encode_u32s-push_all vs (record { runs = runs; last = v }) a.0 a.1)
        (push_run same_int emit_diff e.runs (plus (pos v) (opposite (pos e.last)))))
  where
    go :
        ((runs : Runs ℤ)
          → encode_u32s (record { runs = runs; last = v }) vs
            ≡ push_all same_int emit_diff runs (diffs v vs))
        → (r : Result (Runs ℤ))
        → ((r >>= (λ runs. ok (record { runs = runs; last = v }))) >>= (λ e'. encode_u32s e' vs))
          ≡ (r >>= (λ r'. push_all same_int emit_diff r' (diffs v vs)))
    go ih (ok runs) = ih runs
    go ih (err x) = refl
    go ih panic = refl

pub bind_ok :
    {A B : Type 0} (r : Result A) (f : A → Result B) (b : B)
    → (r >>= f) ≡ ok b
    → (a : A) × (r ≡ ok a) × (f a ≡ ok b)
bind_ok (ok a) f b h = (a, refl, h)
bind_ok (err e) f b h = absurd (cc h)
bind_ok panic f b h = absurd (cc h)

pub split_ok :
    {A B : Type 0} (a b : A) (xs ys : List A) (p q : B)
    → ◌≡◌ {A = Result (List A × B)} (ok (a ∷ xs, p)) (ok (b ∷ ys, q))
    → (a ≡ b) × (◌≡◌ {A = Result (List A × B)} (ok (xs, p)) (ok (ys, q)))
split_ok a b xs ys p q h = (cc h, cc h)

read_u32s-next_keys :
    (vs : List ℕ) (d : DiffDecoder) (r : Reader ℤ)
    → d.last < 2 ^ 30
    → AllKeys (λ v. v < 2 ^ 30) vs
    → next_keys take_diff (length vs) d.runs ≡ ok (diffs d.last vs, r)
    → (d' : DiffDecoder) × (read_u32s (length vs) d ≡ ok (vs, d')) × (d'.runs ≡ r)
unfolding next_keys read_u32s read_u32
read_u32s-next_keys [] d r h a e = (d, refl, cc)
read_u32s-next_keys (v ∷ vs) d r h a e =
    let (p, first, later) = bind_ok (next_key take_diff d.runs) _ _ e in
    let (q, rest, whole) = bind_ok (next_keys take_diff (length vs) p.1) _ _ later in
    let (same_head, same_tail) = split_ok p.0 _ q.0 (diffs v vs) q.1 r whole in
    let step = step_lem d.last v h a.0 in
    let small : ltb v (2 ^ 31) ≡ true = omega (tests, a.0) in
    let (d', read, left) =
      read_u32s-next_keys vs (record { runs = p.1; last = v }) r a.0 a.1 (rest ∙ same_tail) in
    (d', rw (read_u32, first, as_i32-small d.last h, same_head, step.2, small, read) refl, left)

-- Fewer than 2 ^ 32 numbers below 2 ^ 30 are written without an overflow as runs of differences,
-- and are read back from them, with nothing left.
pub read_u32s-encode_u32s :
    (values : List ℕ)
    → AllKeys (λ v. v < 2 ^ 30) values
    → length values < 2 ^ 32
    → (bytes : List ℕ) × (encode_u32s new_diff_encoder values ≡ ok bytes)
      × ((d : DiffDecoder) × (read_u32s (length values) (new_diff_decoder bytes) ≡ ok (values, d))
          × (d.runs.bytes ≡ []))
read_u32s-encode_u32s values h n =
    let (bytes, written, reads) =
      push_all-Reads same_int emit_diff take_diff IsShort same_int_iff take_diff-emit_diff
        (diffs 0 values) new_diff_encoder.runs (omega arith)
        (diffs-IsShort 0 values (omega arith) h) (rw (length-diffs 0 values) (omega arith)) in
    let (r, run, none_left, tail) =
      reads [] (new_diff_decoder bytes).runs refl (sym (append-nil bytes)) in
    let (d, read, left) =
      read_u32s-next_keys values (new_diff_decoder bytes) r (omega arith) h
        (rw (length-diffs 0 values) at run) in
    (
      bytes,
      encode_u32s-push_all values new_diff_encoder (omega arith) h ∙ written,
      (d, read, ap (λ (x : Reader ℤ). x.bytes) left ∙ tail),
    )
