-- ===== src/Encoding/VarInt/Signed/Narrow.antt =====
-- Reads of signed numbers into narrower types.
use y_crdt.Common.{ℕ, ◌≡◌, refl, ◌∙◌, true, List, ◌++◌, if◌then◌else◌, Bool-cases, inl, inr}
use y_crdt.Encoding.{Result, ok, err, panic, invalid_var_int, ◌>>=◌}
use y_crdt.Encoding.VarInt.Signed.{ℤ, fits, narrow_signed, write_var_i64, read_var_i64, read_i32}
use y_crdt.Encoding.VarInt.Signed.Correct.{is_least, read_var_i64-write_var_i64}

bind_assoc :
    {A B C : Type 0} (r : Result A) (f : A → Result B) (g : B → Result C)
    → (r >>= (λ a. f a >>= g)) ≡ (r >>= f) >>= g
bind_assoc (ok a) f g = refl
bind_assoc (err e) f g = refl
bind_assoc panic f g = refl

narrow-write_var_i64 :
    (w : ℕ) (value : ℤ) (rest : List ℕ)
    → fits 64 value ≡ true
    → (write_var_i64 value >>= (λ bytes. read_var_i64 (bytes ++ rest) >>= narrow_signed w)) ≡ (
        if is_least value
        then panic
        else if fits w value
        then ok (value, rest)
        else err invalid_var_int)
narrow-write_var_i64 w value rest h =
    bind_assoc (write_var_i64 value) (λ bytes. read_var_i64 (bytes ++ rest)) (narrow_signed w)
    ∙ rw (read_var_i64-write_var_i64 value rest h)
        (elim (Bool-cases (is_least value)) [ inl e ↦ rw e refl | inr e ↦ rw e refl ])

-- A number of 64 bits that write_var_i64 wrote is read as an i32 if it fits and refused as an
-- invalid number if not; the least number panics when it is written.
pub read_i32-write_var_i64 :
    (value : ℤ) (rest : List ℕ)
    → fits 64 value ≡ true
    → (write_var_i64 value >>= (λ bytes. read_i32 (bytes ++ rest))) ≡ (
        if is_least value
        then panic
        else if fits 32 value
        then ok (value, rest)
        else err invalid_var_int)
unfolding read_i32
read_i32-write_var_i64 value rest h = narrow-write_var_i64 32 value rest h
