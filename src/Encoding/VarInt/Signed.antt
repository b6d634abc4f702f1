-- ===== src/Encoding/VarInt/Signed.antt =====
-- yrs/src/encoding/varint.rs: `write_var_i64`, `read_var_i64` and the `Signed` numbers, with the sign
-- in the first byte. Arithmetic is checked: negating the least number, and a shift by 64 bits or
-- more, panic.
pub mod Correct
pub mod Narrow
use y_crdt.Common.{
  ℕ, zero, suc, ◌+◌, ◌*◌, ◌-◌, ◌/◌, ◌%◌, ◌^◌, Bool, true, false, List, [], ◌∷◌, ltb, leb, ◌==◌,
  if◌then◌else◌,
}
use Prim.Native.Nat.{bit_and, bit_or}
use y_crdt.Encoding.{Result, Error, ok, err, panic, invalid_var_int, end_of_buffer, read_u8, ◌>>=◌}

-- Integers over the native numbers: `negsuc n` is `-(n + 1)`.
pub data ℤ : Type 0 where
  pos : ℕ → ℤ
  negsuc : ℕ → ℤ

-- `Signed<i64>`: a number whose sign is kept beside it, so that `-0` is not `0`.
pub record Signed : Type 0 where
  pub value : ℤ
  pub is_negative : Bool

abbrev pub is_below_zero : ℤ → Bool
is_below_zero (pos n) = false
is_below_zero (negsuc n) = true

-- `-value`, of a number of 64 bits.
abbrev pub negate : ℤ → Result ℤ
negate (pos zero) = ok (pos zero)
negate (pos (suc n)) = ok (negsuc n)
negate (negsuc n) = if suc n == 2 ^ 63 then panic else ok (pos (suc n))

-- `while value > 0`: the groups behind the first byte.
unfoldable pub write_groups : ℕ → ℕ → List ℕ
write_groups zero value = []
write_groups (suc fuel) value = elim (ltb 0 value) [
  | true ↦
      bit_or (if ltb 127 value then 128 else 0) (bit_and 127 value)
      ∷ write_groups fuel (value / 128)
  | false ↦ []
]

abbrev pub sign_bit : Bool → ℕ
sign_bit true = 64
sign_bit false = 0

-- What is written of a number with its sign taken off. A number below 0, which a wrong sign leaves,
-- has no continuation, its low six bits in the first byte, and no groups.
unfoldable pub write_magnitude : Bool → ℤ → List ℕ
write_magnitude is_negative (pos n) =
    bit_or (bit_or (if ltb 63 n then 128 else 0) (sign_bit is_negative)) (bit_and 63 n)
    ∷ write_groups 9 (n / 64)
write_magnitude is_negative (negsuc n) = bit_or (bit_or 0 (sign_bit is_negative)) (63 - n % 64) ∷ []

unfoldable pub write_signed : Signed → Result (List ℕ)
write_signed s =
    (if s.is_negative then negate s.value else ok s.value)
    >>= (λ value. ok (write_magnitude s.is_negative value))

unfoldable pub write_var_i64 : ℤ → Result (List ℕ)
write_var_i64 value =
    (if is_below_zero value then negate value else ok value)
    >>= (λ magnitude. ok (write_magnitude (is_below_zero value) magnitude))

-- `num |= (r as i64 & 0b01111111) << len` on the 64 bits of `num`.
abbrev pub add_bits : ℕ → ℕ → ℕ → Result ℕ
add_bits num r len =
    if leb 64 len then panic else ok (bit_or num (bit_and r 127 * 2 ^ len % 2 ^ 64))

-- The number that 64 bits stand for.
abbrev pub to_i64 : ℕ → ℤ
to_i64 bits = if ltb bits (2 ^ 63) then pos bits else negsuc (2 ^ 64 - 1 - bits)

abbrev pub apply_sign : Bool → ℕ → Result ℤ
apply_sign is_negative bits = if is_negative then negate (to_i64 bits) else ok (to_i64 bits)

abbrev pub signed : Bool → List ℕ → ℤ → Result (Signed × List ℕ)
signed is_negative bytes value = ok (record { value = value; is_negative = is_negative }, bytes)

-- The loop of `read_var_i64` and `read_signed`.
unfoldable pub read_groups : Bool → List ℕ → ℕ → ℕ → Result (Signed × List ℕ)
read_groups is_negative [] num len = err (end_of_buffer 1)
read_groups is_negative (r ∷ bytes) num len = add_bits num r len >>= (λ bits.
    let more = read_groups is_negative bytes bits (len + 7) in
    if ltb r 128
    then apply_sign is_negative bits >>= signed is_negative bytes
    else if ltb 70 (len + 7)
    then err invalid_var_int
    else more)

unfoldable pub read_signed : List ℕ → Result (Signed × List ℕ)
read_signed [] = err (end_of_buffer 1)
read_signed (r ∷ bytes) =
    let num = bit_and r 63 in
    let is_negative = ltb 0 (bit_and r 64) in
    if bit_and r 128 == 0
    then apply_sign is_negative num >>= signed is_negative bytes
    else read_groups is_negative bytes num 6

-- `read_var_i64` has the body of `read_signed` and gives the value alone.
abbrev pub forget_sign : Signed × List ℕ → Result (ℤ × List ℕ)
forget_sign (s, bytes) = ok (s.value, bytes)

unfoldable pub read_var_i64 : List ℕ → Result (ℤ × List ℕ)
read_var_i64 bytes = read_signed bytes >>= forget_sign

-- `value.try_into()` for the signed types.
abbrev pub fits : ℕ → ℤ → Bool
fits w (pos n) = ltb n (2 ^ (w - 1))
fits w (negsuc n) = ltb n (2 ^ (w - 1))

abbrev pub narrow_signed : ℕ → ℤ × List ℕ → Result (ℤ × List ℕ)
narrow_signed w (value, bytes) = if fits w value then ok (value, bytes) else err invalid_var_int

unfoldable pub read_i32 : List ℕ → Result (ℤ × List ℕ)
read_i32 bytes = read_var_i64 bytes >>= narrow_signed 32

unfoldable pub read_isize : List ℕ → Result (ℤ × List ℕ)
read_isize bytes = read_var_i64 bytes >>= narrow_signed 64

unfoldable pub read_i16 : List ℕ → Result (ℤ × List ℕ)
read_i16 bytes = read_var_i64 bytes >>= narrow_signed 16

unfoldable pub read_i8 : List ℕ → Result (ℤ × List ℕ)
read_i8 bytes = read_var_i64 bytes >>= narrow_signed 8

-- `read_signed` of the narrower types keeps the sign beside the value.
abbrev pub keep_fitting : ℕ → Signed × List ℕ → Result (Signed × List ℕ)
keep_fitting w (s, bytes) = if fits w s.value then ok (s, bytes) else err invalid_var_int

unfoldable pub read_signed_isize : List ℕ → Result (Signed × List ℕ)
read_signed_isize bytes = read_signed bytes >>= keep_fitting 64

unfoldable pub read_signed_i32 : List ℕ → Result (Signed × List ℕ)
read_signed_i32 bytes = read_signed bytes >>= keep_fitting 32

unfoldable pub read_signed_i16 : List ℕ → Result (Signed × List ℕ)
read_signed_i16 bytes = read_signed bytes >>= keep_fitting 16

unfoldable pub read_signed_i8 : List ℕ → Result (Signed × List ℕ)
read_signed_i8 bytes = read_signed bytes >>= keep_fitting 8
