-- ===== src/Encoding.antt =====
-- yrs/src/encoding: results of reads, and numbers of variable length.
-- A `Cursor` is the list of the bytes that it has not read yet.
pub mod Bits
pub mod VarInt
pub mod Buffers
pub mod Client
use y_crdt.Common.{ℕ, ◌+◌, List, [], ◌∷◌, length, take, drop, ltb, if◌then◌else◌}

-- The errors of `encoding::read::Error` that reads of bytes and numbers give.
pub data Error : Type 0 where
  invalid_var_int : Error
  end_of_buffer : ℕ → Error
  unexpected_value : Error
  malformed_utf8 : Error
  empty_block : Error
  not_enough_memory : Error

-- Rust's `Result`. `panic` is the trap of checked arithmetic, where a shift or a negation overflows.
pub data Result {ℓ} (A : Type ℓ) : Type ℓ where
  ok : A → Result A
  err : Error → Result A
  panic : Result A

infixl 5 ◌>>=◌
abbrev pub ◌>>=◌ {ℓ κ} : {A : Type ℓ} {B : Type κ} → Result A → (A → Result B) → Result B
ok a >>= f = f a
err e >>= f = err e
panic >>= f = panic

-- `Cursor::read_u8`: the byte and what is left.
abbrev pub read_u8 : List ℕ → Result (ℕ × List ℕ)
read_u8 [] = err (end_of_buffer 1)
read_u8 (b ∷ bytes) = ok (b, bytes)

-- `Cursor::read_exact`
abbrev pub read_exact : ℕ → List ℕ → Result (List ℕ × List ℕ)
read_exact len bytes =
    if ltb (length bytes) len then err (end_of_buffer len) else ok (take len bytes, drop len bytes)
