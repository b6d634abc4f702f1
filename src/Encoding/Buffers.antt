-- ===== src/Encoding/Buffers.antt =====
-- yrs/src/encoding/write.rs and yrs/src/encoding/read.rs: byte strings with their length before them.
use y_crdt.Common.{
  ℕ, ◌^◌, ◌<◌, ◌≡◌, refl, ◌∙◌, ap, false, List, [], ◌∷◌, ◌++◌, append_assoc, length, length-append,
  take, drop, ltb, arith, tests,
}
use y_crdt.Encoding.{Result, ok, read_exact, ◌>>=◌}
use y_crdt.Encoding.VarInt.{write_var_u64, read_var_u32}
use y_crdt.Encoding.VarInt.RoundTrip.{read_loop-write_loop}

-- `Write::write_buf` of a `Vec<u8>`.
unfoldable pub write_buf : List ℕ → List ℕ
write_buf buf = write_var_u64 (length buf) ++ buf

-- `Read::read_buf`
unfoldable pub read_buf : List ℕ → Result (List ℕ × List ℕ)
read_buf bytes = read_var_u32 bytes >>= (λ p. read_exact p.0 p.1)

take-append : (xs ys : List ℕ) → take (length xs) (xs ++ ys) ≡ xs
take-append [] ys = refl
take-append (x ∷ xs) ys = ap (λ r. x ∷ r) (take-append xs ys)

drop-append : (xs ys : List ℕ) → drop (length xs) (xs ++ ys) ≡ ys
drop-append [] ys = refl
drop-append (x ∷ xs) ys = drop-append xs ys

pub read_exact-append : (xs ys : List ℕ) → read_exact (length xs) (xs ++ ys) ≡ ok (xs, ys)
read_exact-append xs ys =
    let room : ltb (length (xs ++ ys)) (length xs) ≡ false = omega (tests, length-append xs ys) in
    rw (room, take-append xs ys, drop-append xs ys) refl

-- A length is written with 64 bits and read with 32.
pub read_var_u32-write_var_u64 :
    (n : ℕ) (rest : List ℕ) → n < 2 ^ 32 → read_var_u32 (write_var_u64 n ++ rest) ≡ ok (n, rest)
unfolding read_var_u32 write_var_u64
read_var_u32-write_var_u64 n rest h =
    read_loop-write_loop 32 70 9 n 0 0 rest (omega arith) (omega arith) (omega arith) (omega arith)
      (omega arith)
    ∙ ap (λ (v : ℕ). ok (v, rest)) (omega arith)

pub read_buf-write_buf :
    (buf rest : List ℕ) → length buf < 2 ^ 32 → read_buf (write_buf buf ++ rest) ≡ ok (buf, rest)
unfolding read_buf write_buf
read_buf-write_buf buf rest h =
    rw
      (
        append_assoc (write_var_u64 (length buf)) buf rest,
        read_var_u32-write_var_u64 (length buf) (buf ++ rest) h,
      )
      (read_exact-append buf rest)
