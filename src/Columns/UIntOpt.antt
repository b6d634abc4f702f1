-- ===== src/Columns/UIntOpt.antt =====
-- `UIntOptRleEncoder` and `UIntOptRleDecoder`: a run of one number is the number, a longer run is the
-- number with a negative sign and the count less two.
use y_crdt.Common.{
  append-nil, sym, ℕ, zero, suc, ◌+◌, ◌-◌, ◌^◌, ◌<◌, ◌≡◌, refl, true, false, List, [], ◌++◌,
  append_assoc, length, ltb, ◌==◌, ==_iff, if◌then◌else◌, arith, tests, Bool-cases, inl, inr,
}
use y_crdt.Encoding.{Result, ok, panic, ◌>>=◌}
use y_crdt.Encoding.VarInt.{write_var_u32, read_var_u32}
use y_crdt.Encoding.VarInt.RoundTrip.{read_var_u32-write_var_u32}
use y_crdt.Encoding.VarInt.Signed.{
  ℤ, pos, negsuc, negate, to_i64, write_signed, write_var_i64, read_signed, write_magnitude,
}
use y_crdt.Encoding.VarInt.Signed.Correct.{
  numeral, read_signed-write_magnitude, write_signed-numeral,
}
use y_crdt.Columns.Runs.{
  Runs, Reader, push_run, push_all, next_key, next_keys, AllKeys, push_all-Reads,
}

-- `flush`, for a run that is not empty.
unfoldable pub emit_u64 : ℕ → ℕ → Result (List ℕ)
emit_u64 last count =
    if count == 1
    then write_var_i64 (to_i64 last)
    else negate (to_i64 last) >>= (λ value.
      write_signed (record { value = value; is_negative = true })
      >>= (λ bytes. ok (bytes ++ write_var_u32 (count - 2))))

-- `as u64`
abbrev pub as_u64 : ℤ → ℕ
as_u64 (pos n) = n
as_u64 (negsuc n) = 2 ^ 64 - 1 - n

-- The run that `read_u64` reads when none is left; `+ 2` is on `u32`.
unfoldable pub take_u64 : List ℕ → Result ((ℕ × ℕ) × List ℕ)
take_u64 bytes = read_signed bytes >>= (λ p.
    if p.0.is_negative
    then read_var_u32 p.1 >>= (λ c.
      if ltb (c.0 + 2) (2 ^ 32)
      then negate p.0.value >>= (λ value. ok ((as_u64 value, c.0 + 2), c.1))
      else panic)
    else ok ((as_u64 p.0.value, 1), p.1))

abbrev pub new_u64_encoder : Runs ℕ
new_u64_encoder = record { buf = []; key = 0; count = 0 }

abbrev pub new_u64_decoder : List ℕ → Reader ℕ
new_u64_decoder bytes = record { bytes = bytes; key = 0; count = 0 }

unfoldable pub write_u64 : Runs ℕ → ℕ → Result (Runs ℕ)
write_u64 e value = push_run ◌==◌ emit_u64 e value

-- `write_u64` of every value, then `to_vec`.
unfoldable pub encode_u64s : List ℕ → Result (List ℕ)
encode_u64s values = push_all ◌==◌ emit_u64 new_u64_encoder values

unfoldable pub read_u64 : Reader ℕ → Result (ℕ × Reader ℕ)
read_u64 d = next_key take_u64 d

unfoldable pub read_u64s : ℕ → Reader ℕ → Result (List ℕ × Reader ℕ)
read_u64s n d = next_keys take_u64 n d

negate_zero_or_less : (k : ℕ) → negate (pos k) ≡ ok ((numeral true k).value)
negate_zero_or_less zero = refl
negate_zero_or_less (suc k) = refl

negate-numeral : (k : ℕ) → k < 2 ^ 63 → negate ((numeral true k).value) ≡ ok (pos k)
negate-numeral zero h = refl
negate-numeral (suc k) h = let e : (suc k == 2 ^ 63) ≡ false = ground arith in rw e refl

numeral-true :
    (k : ℕ) → record { value = (numeral true k).value; is_negative = true } ≡ numeral true k
numeral-true zero = refl
numeral-true (suc k) = refl

is_negative-numeral : (k : ℕ) → (numeral true k).is_negative ≡ true
is_negative-numeral zero = refl
is_negative-numeral (suc k) = refl

written : (k : ℕ) → k < 2 ^ 63 → write_var_i64 (pos k) ≡ ok (write_magnitude false (pos k))
unfolding write_var_i64
written k h = refl

pub take_u64-emit_u64 :
    (k c : ℕ)
    → k < 2 ^ 63
    → 0 < c
    → c < 2 ^ 32
    → (bytes : List ℕ) × (emit_u64 k c ≡ ok bytes)
      × ((rest : List ℕ) → take_u64 (bytes ++ rest) ≡ ok ((k, c), rest))
unfolding emit_u64 take_u64
take_u64-emit_u64 k c h pos_c g =
    let fits : ltb k (2 ^ 63) ≡ true = omega tests in
    elim (Bool-cases (c == 1)) [
      | inl e ↦ (
        write_magnitude false (pos k),
        rw (e, fits) (written k h),
        λ rest. rw (read_signed-write_magnitude false k rest h, (==_iff c 1).0 e) refl,
      )
      | inr e ↦
          let room : ltb (c - 2 + 2) (2 ^ 32) ≡ true = ground arith in
          let count : c - 2 + 2 ≡ c = ground arith in
          (
            write_magnitude true (pos k) ++ write_var_u32 (c - 2),
            rw (e, fits, negate_zero_or_less k, numeral-true k, write_signed-numeral true k h) refl,
            λ rest.
                rw
                  (
                    append_assoc (write_magnitude true (pos k)) (write_var_u32 (c - 2)) rest,
                    read_signed-write_magnitude true k (write_var_u32 (c - 2) ++ rest) h,
                  )
                  (rw
                    (
                      is_negative-numeral k,
                      read_var_u32-write_var_u32 (c - 2) rest (omega arith),
                      room,
                      count,
                      negate-numeral k h,
                    )
                    refl),
          )
    ]

-- Fewer than 2 ^ 32 numbers below 2 ^ 63 are written without an overflow as runs of numbers, and
-- are read back from them, with nothing left.
pub read_u64s-encode_u64s :
    (values : List ℕ)
    → AllKeys (λ v. v < 2 ^ 63) values
    → length values < 2 ^ 32
    → (bytes : List ℕ) × (encode_u64s values ≡ ok bytes)
      × ((d : Reader ℕ) × (read_u64s (length values) (new_u64_decoder bytes) ≡ ok (values, d))
          × (d.bytes ≡ []))
unfolding encode_u64s read_u64s
read_u64s-encode_u64s values h n =
    let (bytes, written, reads) =
      push_all-Reads ◌==◌ emit_u64 take_u64 (λ v. v < 2 ^ 63) ==_iff take_u64-emit_u64 values
        new_u64_encoder (omega arith) h (omega arith) in
    let (d, run, none_left, tail) =
      reads [] (new_u64_decoder bytes) refl (sym (append-nil bytes)) in
    (bytes, written, (d, run, tail))
