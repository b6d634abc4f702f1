-- ===== src/Columns/Usize.antt =====
-- `DecoderV2::read_usize` and `DecoderV2::read_buf` of yrs/src/updates/decoder.rs, which read the columns.
use y_crdt.Common.{
  ℕ, zero, suc, ◌+◌, ◌*◌, ◌/◌, ◌%◌, ◌^◌, ◌<◌, ◌≡◌, refl, ◌∙◌, ap, true, false, List, [], ◌∷◌, ◌++◌,
  append_assoc, length, ltb, leb, if◌then◌else◌, arith, tests, Bool-cases, inl, inr,
}
use Prim.Native.Nat.{bit_and, bit_or}
use native.Mathlib.Nat.{mod-eq_of_lt, pow-succ'}
use y_crdt.Encoding.{Result, ok, err, invalid_var_int, read_exact, ◌>>=◌}
use y_crdt.Encoding.Buffers.{write_buf, read_exact-append}
use y_crdt.Encoding.VarInt.{write_loop, write_var_u64}
use y_crdt.Encoding.VarInt.RoundTrip.{
  add_group_lem, write_last, write_more, group_below, split_group, shift_below,
}

-- `DecoderV2::read_usize`
unfoldable pub usize_loop : List ℕ → ℕ → ℕ → Result (ℕ × List ℕ)
usize_loop [] num len = err invalid_var_int
usize_loop (r ∷ bytes) num len =
    let num' = bit_or num (bit_and r 127 * 2 ^ len % 2 ^ 64) in
    let more = usize_loop bytes num' (len + 7) in
    if leb 64 len then err invalid_var_int else if ltb r 128 then ok (num', bytes) else more

unfoldable pub read_usize : List ℕ → Result (ℕ × List ℕ)
read_usize bytes = usize_loop bytes 0 0

-- `DecoderV2::read_buf` of the frame.
unfoldable pub read_column : List ℕ → Result (List ℕ × List ℕ)
read_column bytes = read_usize bytes >>= (λ p. read_exact p.0 p.1)

usize_loop-last :
    (x num len : ℕ) (rest : List ℕ)
    → x < 128
    → num < 2 ^ len
    → len < 64
    → num + x * 2 ^ len < 2 ^ 64
    → usize_loop (x ∷ rest) num len ≡ ok (num + x * 2 ^ len, rest)
unfolding usize_loop
usize_loop-last x num len rest hx g h fits =
    let small : x % 128 ≡ x = mod-eq_of_lt hx in
    let e : ltb x 128 ≡ true = omega tests in
    let bounded : leb 64 len ≡ false = omega tests in
    let group = add_group_lem 64 num x len h g (rw small (omega arith)) in
    let here : len % 64 ≡ len = mod-eq_of_lt h in rw (bounded, e, rw (here, small) at group) refl

usize_loop-more :
    (x num len : ℕ) (bytes : List ℕ)
    → num < 2 ^ len
    → len < 64
    → num + x % 128 * 2 ^ len < 2 ^ 64
    → usize_loop ((x % 128 + 128) ∷ bytes) num len
      ≡ usize_loop bytes (num + x % 128 * 2 ^ len) (len + 7)
unfolding usize_loop
usize_loop-more x num len bytes g h fits =
    let low : (x % 128 + 128) % 128 ≡ x % 128 = omega arith in
    let long : ltb (x % 128 + 128) 128 ≡ false = omega tests in
    let bounded : leb 64 len ≡ false = omega tests in
    let group = add_group_lem 64 num (x % 128 + 128) len h g (rw low (omega arith)) in
    let here : len % 64 ≡ len = mod-eq_of_lt h in rw (bounded, long, rw (here, low) at group) refl

usize_loop-write_loop :
    (k x num len : ℕ) (rest : List ℕ)
    → x < 128 ^ suc k
    → num < 2 ^ len
    → len < 64
    → num + x * 2 ^ len < 2 ^ 64
    → usize_loop (write_loop (suc k) x ++ rest) num len ≡ ok (num + x * 2 ^ len, rest)
usize_loop-write_loop zero x num len rest hx g h fits =
    rw (write_last 0 x (omega arith)) (usize_loop-last x num len rest (omega arith) g h fits)
usize_loop-write_loop (suc k) x num len rest hx g h fits = elim (Bool-cases (ltb x 128)) [
  | inl e ↦
      rw (write_last (suc k) x (omega tests))
        (usize_loop-last x num len rest (omega tests) g h fits)
  | inr e ↦
      let parts = split_group x len in
      let tail = write_loop (suc k) (x / 128) ++ rest in
      let below = shift_below 64 (len + 7) (x / 128) (omega tests) (omega arith) in
      let inner = usize_loop-more x num len tail g h (omega arith) in
      let ih =
        usize_loop-write_loop k (x / 128) (num + x % 128 * 2 ^ len) (len + 7) rest
          (omega (arith, pow-succ' 128 (suc k))) (group_below num x len g) below (omega arith) in
      rw (write_more (suc k) x (omega tests), inner, ih)
        (ap (λ (v : ℕ). ok (v, rest)) (omega arith))
]

read_usize-write_var_u64 :
    (n : ℕ) (rest : List ℕ) → n < 2 ^ 64 → read_usize (write_var_u64 n ++ rest) ≡ ok (n, rest)
unfolding read_usize write_var_u64
read_usize-write_var_u64 n rest h =
    usize_loop-write_loop 9 n 0 0 rest (omega arith) (omega arith) (omega arith) (omega arith)
    ∙ ap (λ (v : ℕ). ok (v, rest)) (omega arith)

pub read_column-write_buf :
    (buf rest : List ℕ) → length buf < 2 ^ 64 → read_column (write_buf buf ++ rest) ≡ ok (buf, rest)
unfolding read_column write_buf
read_column-write_buf buf rest h =
    rw
      (
        append_assoc (write_var_u64 (length buf)) buf rest,
        read_usize-write_var_u64 (length buf) (buf ++ rest) h,
      )
      (read_exact-append buf rest)
