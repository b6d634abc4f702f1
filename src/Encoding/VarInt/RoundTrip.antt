-- ===== src/Encoding/VarInt/RoundTrip.antt =====
-- Reading back what was written, the size of what is written, and reads of truncated input.
use y_crdt.Common.{
  ◌↔◌, ℕ, zero, suc, ◌+◌, ◌*◌, ◌/◌, ◌%◌, ◌^◌, ◌≤◌, ◌<◌, ◌≡◌, refl, ap, ◌∙◌, true, false, List, [],
  ◌∷◌, ◌++◌, length, take, ltb, if◌then◌else◌, arith, tests, Bool-cases, inl, inr,
}
use native.Mathlib.Nat.{div-add-mod, mul-le-mul_right, mod-eq_of_lt, pow-succ', pow-le-pow_right}
use native.Mathlib.Numerals.{towards_suc}
use y_crdt.Encoding.{ok, err, invalid_var_int, end_of_buffer}
use y_crdt.Encoding.Bits.{and_127, or_128, or-shift}
use y_crdt.Encoding.VarInt.{
  write_loop, add_group, read_loop, write_var_u64, read_var_u64, write_var_u32, read_var_u32,
  write_u128, read_u128, read_u16,
}

pub shift_seven : (s : ℕ) → 2 ^ (s + 7) ≡ 128 * 2 ^ s
shift_seven s = simp towards_suc (omega arith)

grows : (x t : ℕ) → 0 < x → t ≤ x * t
grows zero t h = absurd (omega arith)
grows (suc x) t h = omega arith

-- A number that is not 0 and fits when shifted has a shift below the width.
pub shift_below : (w s x : ℕ) → 0 < x → x * 2 ^ s < 2 ^ w → s < w
shift_below w s x hx h = elim (Bool-cases (ltb s w)) [
  | inl e ↦ omega tests
  | inr e ↦
      let big : 2 ^ w ≤ 2 ^ s = pow-le-pow_right (omega arith) (omega tests) in
      let more : 2 ^ s ≤ x * 2 ^ s = grows x (2 ^ s) hx in absurd (omega arith)
]

-- The lowest group of `x` and the rest, both shifted by `s`.
pub split_group : (x s : ℕ) → x * 2 ^ s ≡ x % 128 * 2 ^ s + x / 128 * 2 ^ (s + 7)
split_group x s = omega (
  arith,
  ap (λ (t : ℕ). t * 2 ^ s) (div-add-mod x 128),
  ap (λ (t : ℕ). x / 128 * t) (shift_seven s),
)

-- One group is added, where it fits.
pub add_group_lem :
    (w num r len : ℕ)
    → len < w
    → num < 2 ^ len
    → r % 128 * 2 ^ len < 2 ^ w
    → add_group w num r len ≡ num + r % 128 * 2 ^ len
add_group_lem w num r len h g fits =
    rw (and_127 r, mod-eq_of_lt h, mod-eq_of_lt fits) (or-shift len num (r % 128) g)

-- One round of the loop on a last byte, and on a byte with the top bit set.
read_last :
    (w limit x num len : ℕ) (rest : List ℕ)
    → x < 128
    → num < 2 ^ len
    → len < w
    → num + x * 2 ^ len < 2 ^ w
    → read_loop w limit (x ∷ rest) num len ≡ ok (num + x * 2 ^ len, rest)
unfolding read_loop
read_last w limit x num len rest hx g h fits =
    let small : x % 128 ≡ x = mod-eq_of_lt hx in
    let group = add_group_lem w num x len h g (rw small (omega arith)) in
    let e : ltb x 128 ≡ true = omega tests in rw (e, group, small) refl

read_inner :
    (w limit x num len : ℕ) (bytes : List ℕ)
    → num < 2 ^ len
    → len < w
    → num + x % 128 * 2 ^ len < 2 ^ w
    → len + 7 ≤ limit
    → read_loop w limit ((x % 128 + 128) ∷ bytes) num len
      ≡ read_loop w limit bytes (num + x % 128 * 2 ^ len) (len + 7)
unfolding read_loop
read_inner w limit x num len bytes g h fits l =
    let low : (x % 128 + 128) % 128 ≡ x % 128 = omega arith in
    let group = add_group_lem w num (x % 128 + 128) len h g (rw low (omega arith)) in
    let long : ltb (x % 128 + 128) 128 ≡ false = omega tests in
    let room : ltb limit (len + 7) ≡ false = omega tests in rw (long, room, group, low) refl

pub write_last : (k x : ℕ) → x < 128 → write_loop (suc k) x ≡ x ∷ []
unfolding write_loop
write_last k x h =
    let e : ltb x 128 ≡ true = omega tests in
    let small : x % 128 ≡ x = mod-eq_of_lt h in rw (write_loop, e, and_127 x, small) refl

pub write_more :
    (k x : ℕ) → 128 ≤ x → write_loop (suc k) x ≡ (x % 128 + 128) ∷ write_loop k (x / 128)
unfolding write_loop
write_more k x h =
    let e : ltb x 128 ≡ false = omega tests in
    rw (write_loop, e, and_127 x, or_128 (x % 128) (omega arith)) refl

-- The group that is read fills the bits below the next shift.
pub group_below : (num x len : ℕ) → num < 2 ^ len → num + x % 128 * 2 ^ len < 2 ^ (len + 7)
group_below num x len h =
    let most : x % 128 * 2 ^ len ≤ 127 * 2 ^ len = mul-le-mul_right (2 ^ len) (omega arith) in
    omega (arith, shift_seven len)

-- The loop reads back what the other loop wrote, and adds it from bit `len` on.
pub read_loop-write_loop :
    (w limit k x num len : ℕ) (rest : List ℕ)
    → x < 128 ^ suc k
    → num < 2 ^ len
    → len < w
    → num + x * 2 ^ len < 2 ^ w
    → len + 7 * k ≤ limit
    → read_loop w limit (write_loop (suc k) x ++ rest) num len ≡ ok (num + x * 2 ^ len, rest)
read_loop-write_loop w limit zero x num len rest hx g h fits l =
    rw (write_last 0 x (omega arith)) (read_last w limit x num len rest (omega arith) g h fits)
read_loop-write_loop w limit (suc k) x num len rest hx g h fits l = elim (Bool-cases (ltb x 128)) [
  | inl e ↦
      rw (write_last (suc k) x (omega tests))
        (read_last w limit x num len rest (omega tests) g h fits)
  | inr e ↦
      let parts = split_group x len in
      let tail = write_loop (suc k) (x / 128) ++ rest in
      let below = shift_below w (len + 7) (x / 128) (omega tests) (omega arith) in
      let inner = read_inner w limit x num len tail g h (omega arith) (omega arith) in
      let ih =
        read_loop-write_loop w limit k (x / 128) (num + x % 128 * 2 ^ len) (len + 7) rest
          (omega (arith, pow-succ' 128 (suc k))) (group_below num x len g) below (omega arith)
          (omega arith) in
      rw (write_more (suc k) x (omega tests), inner, ih)
        (ap (λ (v : ℕ). ok (v, rest)) (omega arith))
]

-- A number below 2 ^ 64 is read back from what write_var_u64 wrote, and the bytes behind it are
-- left.
pub read_var_u64-write_var_u64 :
    (value : ℕ) (rest : List ℕ)
    → value < 2 ^ 64
    → read_var_u64 (write_var_u64 value ++ rest) ≡ ok (value, rest)
unfolding read_var_u64 write_var_u64
read_var_u64-write_var_u64 value rest h =
    read_loop-write_loop 64 70 9 value 0 0 rest (omega arith) (omega arith) (omega arith)
      (omega arith) (omega arith)
    ∙ ap (λ (v : ℕ). ok (v, rest)) (omega arith)

-- A number below 2 ^ 32 is read back from what write_var_u32 wrote, and the bytes behind it are
-- left.
pub read_var_u32-write_var_u32 :
    (value : ℕ) (rest : List ℕ)
    → value < 2 ^ 32
    → read_var_u32 (write_var_u32 value ++ rest) ≡ ok (value, rest)
unfolding read_var_u32 write_var_u32
read_var_u32-write_var_u32 value rest h =
    read_loop-write_loop 32 70 4 value 0 0 rest (omega arith) (omega arith) (omega arith)
      (omega arith) (omega arith)
    ∙ ap (λ (v : ℕ). ok (v, rest)) (omega arith)

-- A number below 2 ^ 128 is read back from what was written of it, and the bytes behind it are
-- left.
pub read_u128-write_u128 :
    (value : ℕ) (rest : List ℕ)
    → value < 2 ^ 128
    → read_u128 (write_u128 value ++ rest) ≡ ok (value, rest)
unfolding read_u128 write_u128
read_u128-write_u128 value rest h =
    read_loop-write_loop 128 180 18 value 0 0 rest (omega arith) (omega arith) (omega arith)
      (omega arith) (omega arith)
    ∙ ap (λ (v : ℕ). ok (v, rest)) (omega arith)

-- A number that a read of 16 bits takes for too large is refused, and no other.
pub read_u16-write_var_u32 :
    (value : ℕ) (rest : List ℕ)
    → value < 2 ^ 32
    → read_u16 (write_var_u32 value ++ rest)
      ≡ (if ltb value (2 ^ 16) then ok (value, rest) else err invalid_var_int)
unfolding read_u16
read_u16-write_var_u32 value rest h = rw (read_var_u32-write_var_u32 value rest h) refl

-- Input that ends inside a number is refused.
pub write_loop-cut :
    (w limit k x num len n : ℕ)
    → x < 128 ^ suc k
    → len + 7 * k ≤ limit
    → n < length (write_loop (suc k) x)
    → read_loop w limit (take n (write_loop (suc k) x)) num len ≡ err (end_of_buffer 1)
unfolding read_loop
write_loop-cut w limit k x num len zero hx l h = refl
write_loop-cut w limit zero x num len (suc n) hx l h =
    absurd (omega (arith, rw (write_last 0 x (omega arith)) at h))
write_loop-cut w limit (suc k) x num len (suc n) hx l h = elim (Bool-cases (ltb x 128)) [
  | inl e ↦ absurd (omega (arith, rw (write_last (suc k) x (omega tests)) at h))
  | inr e ↦
      let more = write_more (suc k) x (omega tests) in
      let long : ltb (x % 128 + 128) 128 ≡ false = omega tests in
      let room : ltb limit (len + 7) ≡ false = omega tests in
      let ih =
        write_loop-cut w limit k (x / 128) (add_group w num (x % 128 + 128) len) (len + 7) n
          (omega (arith, pow-succ' 128 (suc k))) (omega arith) (omega (arith, rw more at h)) in
      rw (more, long, room) ih
]

-- Reading a strict prefix of what write_var_u64 wrote of a number below 2 ^ 64 gives the error of
-- an ended buffer.
pub read_var_u64-cut :
    (value n : ℕ)
    → value < 2 ^ 64
    → n < length (write_var_u64 value)
    → read_var_u64 (take n (write_var_u64 value)) ≡ err (end_of_buffer 1)
unfolding read_var_u64 write_var_u64
read_var_u64-cut value n h g = write_loop-cut 64 70 9 value 0 0 n (omega arith) (omega arith) g

write_loop-pos : (k x : ℕ) → 0 < length (write_loop (suc k) x)
write_loop-pos k x = elim (Bool-cases (ltb x 128)) [
  | inl e ↦ rw (write_last k x (omega tests)) (omega arith)
  | inr e ↦ rw (write_more k x (omega tests)) (omega arith)
]

one_byte : (k x j : ℕ) → x < 128 → (length (write_loop (suc k) x) ≤ suc j) ↔ (x < 128 ^ suc j)
one_byte k x j h =
    let most : 128 ^ 1 ≤ 128 ^ suc j =
      pow-le-pow_right (omega arith) {i = 1} {j = suc j} (omega arith) in
    rw (write_last k x h) (λ _. omega arith, λ _. omega arith)

-- `j` bytes hold exactly the numbers below 128 ^ j.
pub length-write_loop :
    (k x j : ℕ) → x < 128 ^ suc k → (length (write_loop (suc k) x) ≤ suc j) ↔ (x < 128 ^ suc j)
length-write_loop zero x j h = one_byte 0 x j (omega arith)
length-write_loop (suc k) x j h = elim (Bool-cases (ltb x 128)) [
  | inl e ↦ one_byte (suc k) x j (omega tests)
  | inr e ↦ rw (write_more (suc k) x (omega tests)) (
      more j (omega tests) (write_loop-pos k (x / 128))
        (λ i. length-write_loop k (x / 128) i (omega (arith, pow-succ' 128 (suc k)))))
]
  where
    more :
        (j : ℕ)
        → 128 ≤ x
        → 0 < length (write_loop (suc k) (x / 128))
        → ((i : ℕ) → (length (write_loop (suc k) (x / 128)) ≤ suc i) ↔ (x / 128 < 128 ^ suc i))
        → (suc (length (write_loop (suc k) (x / 128))) ≤ suc j) ↔ (x < 128 ^ suc j)
    more zero g pos ih = (λ l. absurd (omega arith), λ l. absurd (omega arith))
    more (suc j) g pos ih = (
      λ l. let b = (ih j).0 (omega arith) in omega (arith, pow-succ' 128 (suc j)),
      λ l. let b = (ih j).1 (omega (arith, pow-succ' 128 (suc j))) in omega arith,
    )

-- For a number below 2 ^ 64, write_var_u64 writes at most j + 1 bytes if and only if the number is
-- below 128 ^ (j + 1).
pub length-write_var_u64 :
    (value j : ℕ) → value < 2 ^ 64 → (length (write_var_u64 value) ≤ suc j) ↔ (value < 128 ^ suc j)
unfolding write_var_u64
length-write_var_u64 value j h = length-write_loop 9 value j (omega arith)
