-- ===== src/Columns/IntDiff.antt =====
-- `IntDiffOptRleEncoder` and `IntDiffOptRleDecoder`: runs of equal differences between neighbours, a
-- difference shifted left by one bit, with the low bit for "a count follows".
pub mod Correct
use y_crdt.Common.{
  ℕ, zero, suc, ◌+◌, ◌-◌, ◌*◌, ◌/◌, ◌%◌, ◌^◌, Bool, true, false, List, [], ◌∷◌, ◌++◌, ltb, leb,
  ◌==◌, if◌then◌else◌,
}
use Prim.Native.Nat.{bit_and, bit_or}
use y_crdt.Encoding.{Result, ok, panic, ◌>>=◌}
use y_crdt.Encoding.VarInt.{write_var_u32, read_var_u32}
use y_crdt.Encoding.VarInt.Signed.{ℤ, pos, negsuc, fits, write_var_i64, read_i32}
use y_crdt.Columns.Runs.{Runs, Reader, flush, push_run, next_key}

-- `as i32` of a `u32`, and `as u32` of an `i32`.
abbrev pub as_i32 : ℕ → ℤ
as_i32 n = if ltb n (2 ^ 31) then pos n else negsuc (2 ^ 32 - 1 - n)

abbrev pub as_u32 : ℤ → ℕ
as_u32 (pos n) = n
as_u32 (negsuc n) = 2 ^ 32 - 1 - n

abbrev pub plus : ℤ → ℤ → ℤ
plus (pos a) (pos b) = pos (a + b)
plus (pos a) (negsuc b) = if ltb b a then pos (a - suc b) else negsuc (b - a)
plus (negsuc a) (pos b) = if ltb a b then pos (b - suc a) else negsuc (a - b)
plus (negsuc a) (negsuc b) = negsuc (suc (a + b))

abbrev pub opposite : ℤ → ℤ
opposite (pos zero) = pos zero
opposite (pos (suc n)) = negsuc n
opposite (negsuc n) = pos (suc n)

-- A sum of `i32` is checked.
abbrev pub check_i32 : ℤ → Result ℤ
check_i32 v = if fits 32 v then ok v else panic

abbrev pub same_int : ℤ → ℤ → Bool
same_int (pos a) (pos b) = a == b
same_int (negsuc a) (negsuc b) = a == b
same_int (pos a) (negsuc b) = false
same_int (negsuc a) (pos b) = false

-- `self.diff << 1 | flag` on 32 bits: the bit that is shifted out is lost.
abbrev pub shift_in : ℤ → ℕ → ℤ
shift_in diff flag = as_i32 (bit_or (2 * as_u32 diff % 2 ^ 32) flag)

-- `diff >> 1`
abbrev pub halve : ℤ → ℤ
halve (pos n) = pos (n / 2)
halve (negsuc n) = negsuc (n / 2)

-- `flush`, for a run that is not empty.
unfoldable pub emit_diff : ℤ → ℕ → Result (List ℕ)
emit_diff diff count =
    write_var_i64 (shift_in diff (if count == 1 then 0 else 1))
    >>= (λ bytes. if ltb 1 count then ok (bytes ++ write_var_u32 (count - 2)) else ok bytes)

-- The run that `read_u32` reads when none is left.
unfoldable pub take_diff : List ℕ → Result ((ℤ × ℕ) × List ℕ)
take_diff bytes = read_i32 bytes >>= (λ p.
    if bit_and (as_u32 p.0) 1 == 0
    then ok ((halve p.0, 1), p.1)
    else read_var_u32 p.1
      >>= (λ c. if ltb (c.0 + 2) (2 ^ 32) then ok ((halve p.0, c.0 + 2), c.1) else panic))

pub record DiffEncoder : Type 0 where
  pub runs : Runs ℤ
  pub last : ℕ

pub record DiffDecoder : Type 0 where
  pub runs : Reader ℤ
  pub last : ℕ

abbrev pub new_diff_encoder : DiffEncoder
new_diff_encoder = record { runs = record { buf = []; key = pos 0; count = 0 }; last = 0 }

abbrev pub new_diff_decoder : List ℕ → DiffDecoder
new_diff_decoder bytes = record {
  runs = record { bytes = bytes; key = pos 0; count = 0 };
  last = 0;
}

unfoldable pub write_u32 : DiffEncoder → ℕ → Result DiffEncoder
write_u32 e value = check_i32 (plus (as_i32 value) (opposite (as_i32 e.last))) >>= (λ diff.
    push_run same_int emit_diff e.runs diff >>= (λ runs. ok (record { runs = runs; last = value })))

-- `write_u32` of every value, then `to_vec`.
unfoldable pub encode_u32s : DiffEncoder → List ℕ → Result (List ℕ)
encode_u32s e [] = flush same_int emit_diff e.runs
encode_u32s e (v ∷ vs) = write_u32 e v >>= (λ e'. encode_u32s e' vs)

unfoldable pub read_u32 : DiffDecoder → Result (ℕ × DiffDecoder)
read_u32 d = next_key take_diff d.runs >>= (λ p.
    check_i32 (plus (as_i32 d.last) p.0)
    >>= (λ v. ok (as_u32 v, record { runs = p.1; last = as_u32 v })))

unfoldable pub read_u32s : ℕ → DiffDecoder → Result (List ℕ × DiffDecoder)
read_u32s zero d = ok ([], d)
read_u32s (suc n) d = read_u32 d >>= (λ p. read_u32s n p.1 >>= (λ q. ok (p.0 ∷ q.0, q.1)))
