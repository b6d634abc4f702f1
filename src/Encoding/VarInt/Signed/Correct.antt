-- ===== src/Encoding/VarInt/Signed/Correct.antt =====
-- Reading back signed numbers.
use y_crdt.Encoding.VarInt.Signed.{
  fits, add_bits, ℤ, pos, negsuc, Signed, write_groups, write_magnitude, sign_bit, write_signed,
  write_var_i64, read_groups, read_signed, read_var_i64, signed, apply_sign,
}
use y_crdt.Encoding.Bits.{
  and_63, sign_and, top_and, low_63, set_64, or_zero, set_192, set_128, low_127, and_127, or-shift,
}
use y_crdt.Encoding.VarInt.RoundTrip.{group_below, shift_below, split_group}
use native.Mathlib.Nat.{pow-succ', mod-eq_of_lt}
use y_crdt.Common.{
  ℕ, zero, suc, ◌+◌, ◌*◌, ◌/◌, ◌%◌, ◌^◌, ◌≤◌, ◌<◌, ◌≡◌, refl, ap, ◌∙◌, Bool, true, false, List, [],
  ◌∷◌, ◌++◌, ltb, leb, ◌==◌, if◌then◌else◌, arith, tests, Bool-cases, inl, inr,
}
use Prim.Native.Nat.{bit_and, bit_or}
use y_crdt.Encoding.{ok, panic, ◌>>=◌}

-- The groups behind the first byte are those of an unsigned number.
write_groups-last : (k x : ℕ) → 0 < x → x < 128 → write_groups (suc k) x ≡ x ∷ write_groups k 0
unfolding write_groups
write_groups-last k x h g =
    let e : ltb 0 x ≡ true = omega tests in
    let f : ltb 127 x ≡ false = omega tests in
    let small : x % 128 ≡ x = mod-eq_of_lt g in
    let done : x / 128 ≡ 0 = omega arith in
    rw (write_groups, e, f, low_127 x, small, done, or_zero x) refl

write_groups-more :
    (k x : ℕ) → 128 ≤ x → write_groups (suc k) x ≡ (128 + x % 128) ∷ write_groups k (x / 128)
unfolding write_groups
write_groups-more k x h =
    let e : ltb 0 x ≡ true = omega tests in
    let f : ltb 127 x ≡ true = omega tests in
    rw (write_groups, e, f, low_127 x, set_128 (x % 128) (omega arith)) refl

write_groups_zero : (k : ℕ) → write_groups k 0 ≡ []
unfolding write_groups
write_groups_zero zero = refl
write_groups_zero (suc k) = refl

add_bits_lem :
    (num r len : ℕ)
    → len < 64
    → num < 2 ^ len
    → r % 128 * 2 ^ len < 2 ^ 64
    → add_bits num r len ≡ ok (num + r % 128 * 2 ^ len)
add_bits_lem num r len h g fits =
    let e : leb 64 len ≡ false = omega tests in
    rw (e, and_127 r, mod-eq_of_lt fits, or-shift len num (r % 128) g) refl

read_groups-last :
    (b : Bool) (x num len : ℕ) (rest : List ℕ)
    → x < 128
    → num < 2 ^ len
    → len < 64
    → x * 2 ^ len < 2 ^ 64
    → read_groups b (x ∷ rest) num len ≡ (apply_sign b (num + x * 2 ^ len) >>= signed b rest)
unfolding read_groups
read_groups-last b x num len rest hx g h fits =
    let small : x % 128 ≡ x = mod-eq_of_lt hx in
    let group = add_bits_lem num x len h g (rw small fits) in
    let e : ltb x 128 ≡ true = omega tests in rw (group, e, small) refl

read_groups-more :
    (b : Bool) (x num len : ℕ) (bytes : List ℕ)
    → num < 2 ^ len
    → len < 64
    → x % 128 * 2 ^ len < 2 ^ 64
    → len + 7 ≤ 70
    → read_groups b ((128 + x % 128) ∷ bytes) num len
      ≡ read_groups b bytes (num + x % 128 * 2 ^ len) (len + 7)
unfolding read_groups
read_groups-more b x num len bytes g h fits l =
    let low : (128 + x % 128) % 128 ≡ x % 128 = omega arith in
    let group = add_bits_lem num (128 + x % 128) len h g (rw low fits) in
    let long : ltb (128 + x % 128) 128 ≡ false = omega tests in
    let room : ltb 70 (len + 7) ≡ false = omega tests in rw (group, long, room, low) refl

-- The loop reads back the groups behind the first byte.
read_groups-write_groups :
    (b : Bool) (k x num len : ℕ) (rest : List ℕ)
    → 0 < x
    → x < 128 ^ suc k
    → num < 2 ^ len
    → num + x * 2 ^ len < 2 ^ 64
    → len + 7 * k ≤ 70
    → read_groups b (write_groups (suc k) x ++ rest) num len
      ≡ (apply_sign b (num + x * 2 ^ len) >>= signed b rest)
read_groups-write_groups b zero x num len rest hp hx g fits l =
    rw (write_groups-last 0 x hp (omega arith), write_groups_zero 0)
      (read_groups-last b x num len rest (omega arith) g (shift_below 64 len x hp (omega arith))
        (omega arith))
read_groups-write_groups b (suc k) x num len rest hp hx g fits l =
    let h = shift_below 64 len x hp (omega arith) in
    elim (Bool-cases (ltb x 128)) [
      | inl e ↦
          rw (write_groups-last (suc k) x hp (omega tests), write_groups_zero (suc k))
            (read_groups-last b x num len rest (omega tests) g h (omega arith))
      | inr e ↦
          let parts = split_group x len in
          let tail = write_groups (suc k) (x / 128) ++ rest in
          let inner = read_groups-more b x num len tail g h (omega arith) (omega arith) in
          let total : num + x % 128 * 2 ^ len + x / 128 * 2 ^ (len + 7) ≡ num + x * 2 ^ len =
            omega arith in
          let ih =
            read_groups-write_groups b k (x / 128) (num + x % 128 * 2 ^ len) (len + 7) rest
              (omega tests) (omega (arith, pow-succ' 128 (suc k))) (group_below num x len g)
              (omega arith) (omega arith) in
          rw (write_groups-more (suc k) x (omega tests), inner, ih, total) refl
    ]

abbrev pub is_least : ℤ → Bool
is_least (pos n) = false
is_least (negsuc n) = suc n == 2 ^ 63

-- A number of the sign and the size, `-0` among them.
abbrev pub numeral : Bool → ℕ → Signed
numeral false n = record { value = pos n; is_negative = false }
numeral true zero = record { value = pos zero; is_negative = true }
numeral true (suc n) = record { value = negsuc n; is_negative = true }

apply_sign-numeral :
    (b : Bool) (n : ℕ) (rest : List ℕ)
    → n < 2 ^ 63
    → (apply_sign b n >>= signed b rest) ≡ ok (numeral b n, rest)
apply_sign-numeral false n rest h = let e : ltb n (2 ^ 63) ≡ true = omega tests in rw e refl
apply_sign-numeral true zero rest h = refl
apply_sign-numeral true (suc n) rest h =
    let e : ltb (suc n) (2 ^ 63) ≡ true = omega tests in rw e refl

abbrev top_bit : Bool → ℕ
top_bit true = 128
top_bit false = 0

write_magnitude_byte :
    (b : Bool) (n : ℕ)
    → write_magnitude b (pos n)
      ≡ (top_bit (ltb 63 n) + sign_bit b + n % 64) ∷ write_groups 9 (n / 64)
unfolding write_magnitude
write_magnitude_byte b n =
    ap (λ (r : ℕ). r ∷ write_groups 9 (n / 64))
      (rw (low_63 n) (byte (ltb 63 n) b (n % 64) (omega arith)))
  where
    byte :
        (c b : Bool) (l : ℕ)
        → l < 64
        → bit_or (bit_or (if c then 128 else 0) (sign_bit b)) l ≡ top_bit c + sign_bit b + l
    byte true true l h = set_192 l h
    byte true false l h = set_128 l (omega arith)
    byte false true l h = set_64 l h
    byte false false l h = or_zero l ∙ omega arith

sign_read : (c b : Bool) (l : ℕ) → l < 64 → ltb 0 (bit_and (top_bit c + sign_bit b + l) 64) ≡ b
sign_read true true l h = rw (sign_and (192 + l) (omega arith)) (omega tests)
sign_read true false l h = rw (sign_and (128 + l) (omega arith)) (omega tests)
sign_read false true l h = rw (sign_and (64 + l) (omega arith)) (omega tests)
sign_read false false l h = rw (sign_and (0 + l) (omega arith)) (omega tests)

low_read : (c b : Bool) (l : ℕ) → l < 64 → bit_and (top_bit c + sign_bit b + l) 63 ≡ l
low_read true true l h = and_63 (192 + l) ∙ omega arith
low_read true false l h = and_63 (128 + l) ∙ omega arith
low_read false true l h = and_63 (64 + l) ∙ omega arith
low_read false false l h = and_63 (0 + l) ∙ omega arith

top_read : (c b : Bool) (l : ℕ) → l < 64 → bit_and (top_bit c + sign_bit b + l) 128 ≡ top_bit c
top_read true true l h = top_and (192 + l) (omega arith) ∙ omega arith
top_read true false l h = top_and (128 + l) (omega arith) ∙ omega arith
top_read false true l h = top_and (64 + l) (omega arith) ∙ omega arith
top_read false false l h = top_and (0 + l) (omega arith) ∙ omega arith

read_signed-first :
    (c b : Bool) (l : ℕ) (bytes : List ℕ)
    → l < 64
    → read_signed ((top_bit c + sign_bit b + l) ∷ bytes)
      ≡ (if c then read_groups b bytes l 6 else apply_sign b l >>= signed b bytes)
unfolding read_signed
read_signed-first true b l bytes h =
    rw (sign_read true b l h, low_read true b l h, top_read true b l h) refl
read_signed-first false b l bytes h =
    rw (sign_read false b l h, low_read false b l h, top_read false b l h) refl

pub read_signed-write_magnitude :
    (b : Bool) (n : ℕ) (rest : List ℕ)
    → n < 2 ^ 63
    → read_signed (write_magnitude b (pos n) ++ rest) ≡ ok (numeral b n, rest)
read_signed-write_magnitude b n rest h =
    rw
      (
        write_magnitude_byte b n,
        read_signed-first (ltb 63 n) b (n % 64) (write_groups 9 (n / 64) ++ rest) (omega arith),
      )
      (elim (Bool-cases (ltb 63 n)) [
        | inl e ↦
            let total : n % 64 + n / 64 * 2 ^ 6 ≡ n = omega arith in
            rw
              (
                e,
                read_groups-write_groups b 8 (n / 64) (n % 64) 6 rest (omega tests) (omega arith)
                    (omega arith) (omega arith) (omega arith),
                total,
              )
              (apply_sign-numeral b n rest h)
        | inr e ↦
            let small : n % 64 ≡ n = mod-eq_of_lt (omega tests) in
            let none_left : n / 64 ≡ 0 = omega tests in
            rw (e, none_left, write_groups_zero 9, small) (apply_sign-numeral b n rest h)
      ])

pub write_signed-numeral :
    (b : Bool) (n : ℕ) → n < 2 ^ 63 → write_signed (numeral b n) ≡ ok (write_magnitude b (pos n))
unfolding write_signed
write_signed-numeral false n h = refl
write_signed-numeral true zero h = refl
write_signed-numeral true (suc n) h =
    let e : (suc n == 2 ^ 63) ≡ false = ground arith in rw (write_signed, e) refl

-- A number with its sign, of size below 2 ^ 63 and -0 included, is read back from what
-- write_signed wrote, and the bytes behind it are left.
pub read_signed-write_signed :
    (is_negative : Bool) (n : ℕ) (rest : List ℕ)
    → n < 2 ^ 63
    → (write_signed (numeral is_negative n) >>= (λ bytes. read_signed (bytes ++ rest)))
      ≡ ok (numeral is_negative n, rest)
read_signed-write_signed b n rest h =
    rw (write_signed-numeral b n h) (read_signed-write_magnitude b n rest h)

-- The bytes of a number that can be negated, and their read.
pub written_i64 :
    (value : ℤ)
    → fits 64 value ≡ true
    → is_least value ≡ false
    → (bytes : List ℕ) × (write_var_i64 value ≡ ok bytes)
      × ((rest : List ℕ) → read_var_i64 (bytes ++ rest) ≡ ok (value, rest))
unfolding write_var_i64 read_var_i64
written_i64 (pos n) h g = (
  write_magnitude false (pos n),
  refl,
  λ rest. rw (read_signed-write_magnitude false n rest (omega tests)) refl,
)
written_i64 (negsuc n) h g = (
  write_magnitude true (pos (suc n)),
  rw (write_var_i64, g) refl,
  λ rest. rw (read_signed-write_magnitude true (suc n) rest (ground arith)) refl,
)

-- A number of 64 bits is read back from what write_var_i64 wrote, and the bytes behind it are
-- left, but the least number panics, since its negation overflows.
pub read_var_i64-write_var_i64 :
    (value : ℤ) (rest : List ℕ)
    → fits 64 value ≡ true
    → (write_var_i64 value >>= (λ bytes. read_var_i64 (bytes ++ rest)))
      ≡ (if is_least value then panic else ok (value, rest))
unfolding write_var_i64 read_var_i64
read_var_i64-write_var_i64 (pos n) rest h =
    rw (read_signed-write_magnitude false n rest (omega tests)) refl
read_var_i64-write_var_i64 (negsuc n) rest h = elim (Bool-cases (suc n == 2 ^ 63)) [
  | inl e ↦ rw (write_var_i64, e) refl
  | inr e ↦ rw (write_var_i64, e, read_signed-write_magnitude true (suc n) rest (ground arith)) refl
]
