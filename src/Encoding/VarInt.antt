-- ===== src/Encoding/VarInt.antt =====
-- yrs/src/encoding/varint.rs: numbers in groups of seven bits, the lowest first.
pub mod RoundTrip
pub mod Signed
use y_crdt.Common.{
  ℕ, zero, suc, ◌+◌, ◌*◌, ◌/◌, ◌%◌, ◌^◌, Bool, true, false, List, [], ◌∷◌, ◌++◌, ltb, if◌then◌else◌,
}
use Prim.Native.Nat.{bit_and, bit_or}
use y_crdt.Encoding.{Result, Error, ok, err, panic, invalid_var_int, end_of_buffer, read_u8, ◌>>=◌}

-- `while value >= 0b10000000`, then the last byte. Every round divides the value by 128, so a
-- value of `w` bits needs less than `w / 7 + 1` rounds; without fuel nothing is written.
unfoldable pub write_loop : ℕ → ℕ → List ℕ
write_loop zero value = []
write_loop (suc fuel) value = elim (ltb value 128) [
  | false ↦ bit_or (bit_and value 127) 128 ∷ write_loop fuel (value / 128)
  | true ↦ bit_and value 127 ∷ []
]

-- `num |= wrapping_shl((r & 0b01111111), len)` at a width of `w` bits.
abbrev pub add_group : ℕ → ℕ → ℕ → ℕ → ℕ
add_group w num r len = bit_or num (bit_and r 127 * 2 ^ (len % w) % 2 ^ w)

-- The loop of `read_var_u64` and `read_var_u32` (`limit` is 70) and of `u128::read` (180).
unfoldable pub read_loop : ℕ → ℕ → List ℕ → ℕ → ℕ → Result (ℕ × List ℕ)
read_loop w limit [] num len = err (end_of_buffer 1)
read_loop w limit (r ∷ bytes) num len =
    let more = read_loop w limit bytes (add_group w num r len) (len + 7) in
    if ltb r 128
    then ok (add_group w num r len, bytes)
    else if ltb limit (len + 7)
    then err invalid_var_int
    else more

unfoldable pub write_var_u64 : ℕ → List ℕ
write_var_u64 value = write_loop 10 value

unfoldable pub write_var_u32 : ℕ → List ℕ
write_var_u32 value = write_loop 5 value

unfoldable pub write_u128 : ℕ → List ℕ
write_u128 value = write_loop 19 value

unfoldable pub read_var_u64 : List ℕ → Result (ℕ × List ℕ)
read_var_u64 bytes = read_loop 64 70 bytes 0 0

unfoldable pub read_var_u32 : List ℕ → Result (ℕ × List ℕ)
read_var_u32 bytes = read_loop 32 70 bytes 0 0

unfoldable pub read_u128 : List ℕ → Result (ℕ × List ℕ)
read_u128 bytes = read_loop 128 180 bytes 0 0

-- `value.try_into()` of a number that is not negative.
abbrev pub narrow : ℕ → ℕ × List ℕ → Result (ℕ × List ℕ)
narrow w (value, bytes) = if ltb value (2 ^ w) then ok (value, bytes) else err invalid_var_int

unfoldable pub read_u16 : List ℕ → Result (ℕ × List ℕ)
read_u16 bytes = read_var_u32 bytes >>= narrow 16

unfoldable pub read_u8_var : List ℕ → Result (ℕ × List ℕ)
read_u8_var bytes = read_var_u32 bytes >>= narrow 8
