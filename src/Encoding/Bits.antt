-- ===== src/Encoding/Bits.antt =====
-- Masks and disjoint sums of binary digits as arithmetic.
use y_crdt.Common.{
  false, ◌==◌, if◌then◌else◌, Bool, true, ℕ, zero, suc, ◌+◌, ◌*◌, ◌/◌, ◌%◌, ◌^◌, ◌≤◌, ◌<◌, ◌≡◌,
  refl, ap, ◌∙◌, max, min, arith,
}
use Prim.Native.Nat.{bit_and, bit_or, digits, bit_and-bitwise, bit_or-bitwise}
use native.Mathlib.Nat.{pow-succ'}

-- A mask of one more digit.
mask_step :
    (p q : ℕ)
    → q / 2 ≡ p
    → q % 2 ≡ 1
    → ((a : ℕ) → a / 2 % suc p * 2 + a % 2 ≡ a % suc q)
    → ((n a : ℕ) → a ≤ n → digits (λ b. zero) min n a p ≡ a % suc p)
    → (n a : ℕ) → a ≤ n
    → digits (λ b. zero) min n a q ≡ a % suc q
mask_step p q half odd ar ih zero zero h = omega arith
mask_step p q half odd ar ih zero (suc a) h = absurd (omega arith)
mask_step p q half odd ar ih (suc n) zero h = omega arith
mask_step p q half odd ar ih (suc n) (suc a) h =
    let rest = ih n (suc a / 2) (omega arith) in rw (half, odd, rest) (omega (arith, ar (suc a)))

mask_zero : (n a : ℕ) → a ≤ n → digits (λ b. zero) min n a 0 ≡ a % 1
mask_zero zero a h = omega arith
mask_zero (suc n) zero h = omega arith
mask_zero (suc n) (suc a) h = rw (mask_zero n (suc a / 2) (omega arith)) (omega arith)

mask_six : (n a : ℕ) → a ≤ n → digits (λ b. zero) min n a 63 ≡ a % 64
mask_six =
    mask_step 31 63 refl refl (λ a. omega arith)
      (mask_step 15 31 refl refl (λ a. omega arith)
        (mask_step 7 15 refl refl (λ a. omega arith)
          (mask_step 3 7 refl refl (λ a. omega arith)
            (mask_step 1 3 refl refl (λ a. omega arith)
              (mask_step 0 1 refl refl (λ a. omega arith) mask_zero)))))

pub and_127 : (a : ℕ) → bit_and a 127 ≡ a % 128
and_127 a =
    bit_and-bitwise a 127 ∙ mask_step 63 127 refl refl (λ a. omega arith) mask_six a a (omega arith)

pub and_63 : (a : ℕ) → bit_and a 63 ≡ a % 64
and_63 a = bit_and-bitwise a 63 ∙ mask_six a a (omega arith)

digits-or : (s n a x : ℕ) → a ≤ n → a < 2 ^ s → digits (λ b. b) max n a (x * 2 ^ s) ≡ a + x * 2 ^ s
digits-or zero zero zero x h g = omega arith
digits-or zero (suc n) zero x h g = omega arith
digits-or zero n (suc a) x h g = absurd (omega arith)
digits-or (suc s) zero zero x h g = omega arith
digits-or (suc s) zero (suc a) x h g = absurd (omega arith)
digits-or (suc s) (suc n) zero x h g = omega arith
digits-or (suc s) (suc n) (suc a) x h g =
    let y = x * 2 ^ s in
    let double : x * 2 ^ suc s ≡ y * 2 = omega (arith, ap (λ (t : ℕ). x * t) (pow-succ' 2 s)) in
    let half : y * 2 / 2 ≡ y = omega arith in
    let even : y * 2 % 2 ≡ 0 = omega arith in
    let rest = digits-or s n (suc a / 2) x (omega arith) (omega (arith, pow-succ' 2 s)) in
    rw double (rw (half, even, rest) (omega arith))

-- The shifted number has no digit in common with one below the shift.
pub or-shift : (s a x : ℕ) → a < 2 ^ s → bit_or a (x * 2 ^ s) ≡ a + x * 2 ^ s
or-shift s a x h = bit_or-bitwise a (x * 2 ^ s) ∙ digits-or s a a x (omega arith) h

pub or_128 : (a : ℕ) → a < 128 → bit_or a 128 ≡ a + 128
or_128 a h = or-shift 7 a 1 h

-- Two functions that agree on the first numbers.
module _ (f g : ℕ → ℕ) where
  agree_below : ℕ → Bool
  agree_below zero = true
  agree_below (suc n) = if f n == g n then agree_below n else false

  agree_below→eq : (n : ℕ) → agree_below n ≡ true → (i : ℕ) → i < n → f i ≡ g i
  unfolding agree_below
  agree_below→eq zero e i h = absurd (omega arith)
  agree_below→eq (suc n) e i h = ground (arith, agree_below→eq n (ground arith) i)

pub low_127 : (a : ℕ) → bit_and 127 a ≡ a % 128
low_127 a = bit_and-bitwise 127 a ∙ omega arith

pub low_63 : (a : ℕ) → bit_and 63 a ≡ a % 64
low_63 a = bit_and-bitwise 63 a ∙ omega arith

pub sign_and : (b : ℕ) → b < 256 → bit_and b 64 ≡ b / 64 % 2 * 64
unfolding agree_below
sign_and = agree_below→eq _ _ 256 refl

pub top_and : (b : ℕ) → b < 256 → bit_and b 128 ≡ b / 128 * 128
unfolding agree_below
top_and = agree_below→eq _ _ 256 refl

pub set_128 : (b : ℕ) → b < 128 → bit_or 128 b ≡ 128 + b
unfolding agree_below
set_128 = agree_below→eq _ _ 128 refl

pub set_64 : (b : ℕ) → b < 64 → bit_or 64 b ≡ 64 + b
unfolding agree_below
set_64 = agree_below→eq _ _ 64 refl

pub set_192 : (b : ℕ) → b < 64 → bit_or 192 b ≡ 192 + b
unfolding agree_below
set_192 = agree_below→eq _ _ 64 refl

pub or_zero : (b : ℕ) → bit_or 0 b ≡ b
or_zero b = bit_or-bitwise 0 b

digits-or_zero : (n a : ℕ) → a ≤ n → digits (λ b. b) max n a 0 ≡ a
digits-or_zero zero zero h = refl
digits-or_zero zero (suc a) h = absurd (omega arith)
digits-or_zero (suc n) zero h = refl
digits-or_zero (suc n) (suc a) h = rw (digits-or_zero n (suc a / 2) (omega arith)) (omega arith)

digits-or_one : (n a : ℕ) → a ≤ n → digits (λ b. b) max n a 1 ≡ a / 2 * 2 + 1
digits-or_one zero zero h = refl
digits-or_one zero (suc a) h = absurd (omega arith)
digits-or_one (suc n) zero h = refl
digits-or_one (suc n) (suc a) h = rw (digits-or_zero n (suc a / 2) (omega arith)) (omega arith)

pub or_none : (a : ℕ) → bit_or a 0 ≡ a
or_none a = bit_or-bitwise a 0 ∙ digits-or_zero a a (omega arith)

pub or_one : (a : ℕ) → bit_or (2 * a) 1 ≡ 2 * a + 1
or_one a = bit_or-bitwise (2 * a) 1 ∙ digits-or_one (2 * a) (2 * a) (omega arith) ∙ omega arith

pub and_one : (a : ℕ) → bit_and a 1 ≡ a % 2
and_one a =
    bit_and-bitwise a 1 ∙ mask_step 0 1 refl refl (λ a. omega arith) mask_zero a a (omega arith)
