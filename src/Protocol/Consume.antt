-- ===== src/Protocol/Consume.antt =====
-- yrs/src/encoding/read.rs and yrs/src/sync/protocol.rs: how many bytes a read leaves.
use y_crdt.Common.{
  ◌^◌, ℕ, ◌+◌, ◌≤◌, ◌<◌, ap, Bool, true, false, List, [], ◌∷◌, length, ltb, ◌==◌, if◌then◌else◌,
  arith, Bool-cases, inl, inr, take-append-drop, length-append, take, drop,
}
use y_crdt.Encoding.{Result, ok, err, panic, ◌>>=◌, read_exact, end_of_buffer, invalid_var_int}
use y_crdt.Encoding.Buffers.{read_buf}
use y_crdt.Encoding.VarInt.{read_u8_var, read_var_u32, read_loop, add_group, narrow}
use y_crdt.StateVector.Codec.{decode}
use y_crdt.Protocol.{sync_step_1, decode_sync}

-- A read that succeeds leaves no more bytes than there were, or fewer.
abbrev pub Keeps : {A : Type 0} → List ℕ → Result (A × List ℕ) → Type 0
Keeps bytes (ok (a, rest)) = length rest ≤ length bytes
Keeps bytes (err e) = Unit
Keeps bytes panic = Unit

abbrev pub Shrinks : {A : Type 0} → List ℕ → Result (A × List ℕ) → Type 0
Shrinks bytes (ok (a, rest)) = length rest < length bytes
Shrinks bytes (err e) = Unit
Shrinks bytes panic = Unit

module _ {A B : Type 0} (bytes : List ℕ) where
  pub then-Keeps :
      (m : Result (A × List ℕ)) (f : A × List ℕ → Result (B × List ℕ))
      → Keeps bytes m
      → ((a : A) (rest : List ℕ) → Keeps rest (f (a, rest)))
      → Keeps bytes (m >>= f)
  then-Keeps (ok (a, rest)) f k h = weaken (f (a, rest)) (h a rest)
    where
      weaken : (r : Result (B × List ℕ)) → Keeps rest r → Keeps bytes r
      weaken (ok (b, left)) g = omega arith
      weaken (err e) g = tt
      weaken panic g = tt
  then-Keeps (err e) f k h = tt
  then-Keeps panic f k h = tt

  pub then-Shrinks :
      (m : Result (A × List ℕ)) (f : A × List ℕ → Result (B × List ℕ))
      → Shrinks bytes m
      → ((a : A) (rest : List ℕ) → Keeps rest (f (a, rest)))
      → Shrinks bytes (m >>= f)
  then-Shrinks (ok (a, rest)) f k h = weaken (f (a, rest)) (h a rest)
    where
      weaken : (r : Result (B × List ℕ)) → Keeps rest r → Shrinks bytes r
      weaken (ok (b, left)) g = omega arith
      weaken (err e) g = tt
      weaken panic g = tt
  then-Shrinks (err e) f k h = tt
  then-Shrinks panic f k h = tt

  -- A result that is made of a value, and leaves the same bytes.
  pub value-Keeps : (m : Result A) (f : A → B) → Keeps bytes (m >>= (λ x. ok (f x, bytes)))
  value-Keeps (ok a) f = omega arith
  value-Keeps (err e) f = tt
  value-Keeps panic f = tt

pub if-Keeps :
    {A : Type 0} (bytes : List ℕ) (b : Bool) (x y : Result (A × List ℕ))
    → Keeps bytes x
    → Keeps bytes y
    → Keeps bytes (if b then x else y)
if-Keeps bytes true x y h k = h
if-Keeps bytes false x y h k = k

pub Keeps-Shrinks :
    {A : Type 0} (bytes : List ℕ) (m : Result (A × List ℕ)) → Shrinks bytes m → Keeps bytes m
Keeps-Shrinks bytes (ok (a, rest)) h = omega arith
Keeps-Shrinks bytes (err e) h = tt
Keeps-Shrinks bytes panic h = tt

read_loop-Shrinks :
    (w limit : ℕ) (bytes : List ℕ) (num len : ℕ) → Shrinks bytes (read_loop w limit bytes num len)
unfolding read_loop
read_loop-Shrinks w limit [] num len = tt
read_loop-Shrinks w limit (r ∷ bytes) num len = elim (Bool-cases (ltb r 128)) [
  | inl e ↦ rw e (omega arith)
  | inr e ↦ elim (Bool-cases (ltb limit (len + 7))) [
    | inl f ↦ rw (e, f) tt
    | inr f ↦
        rw (e, f)
          (weaken (read_loop w limit bytes (add_group w num r len) (len + 7))
            (read_loop-Shrinks w limit bytes (add_group w num r len) (len + 7)))
  ]
]
  where
    weaken : (m : Result (ℕ × List ℕ)) → Shrinks bytes m → Shrinks (r ∷ bytes) m
    weaken (ok (v, rest)) h = omega arith
    weaken (err e) h = tt
    weaken panic h = tt

pub read_u8_var-Shrinks : (bytes : List ℕ) → Shrinks bytes (read_u8_var bytes)
unfolding read_u8_var read_var_u32
read_u8_var-Shrinks bytes =
    then-Shrinks bytes (read_loop 32 70 bytes 0 0) (narrow 8) (read_loop-Shrinks 32 70 bytes 0 0)
      (λ a rest. narrowed a rest)
  where
    narrowed : (a : ℕ) (rest : List ℕ) → Keeps rest (narrow 8 (a, rest))
    narrowed a rest =
        if-Keeps rest (ltb a (2 ^ 8)) (ok (a, rest)) (err invalid_var_int) (omega arith) tt

read_exact-Keeps : (len : ℕ) (bytes : List ℕ) → Keeps bytes (read_exact len bytes)
read_exact-Keeps len bytes =
    if-Keeps bytes (ltb (length bytes) len) (err (end_of_buffer len))
      (ok (take len bytes, drop len bytes)) tt (shorter)
  where
    shorter : length (drop len bytes) ≤ length bytes
    shorter =
        let whole = ap (λ xs. length xs) (take-append-drop len bytes) in
        omega (arith, whole, length-append (take len bytes) (drop len bytes))

pub read_buf-Keeps : (bytes : List ℕ) → Keeps bytes (read_buf bytes)
unfolding read_buf read_var_u32
read_buf-Keeps bytes =
    then-Keeps bytes (read_var_u32 bytes) (λ p. read_exact p.0 p.1)
      (Keeps-Shrinks bytes (read_var_u32 bytes) (read_loop-Shrinks 32 70 bytes 0 0))
      (λ a rest. read_exact-Keeps a rest)

pub decode_sync-Keeps : (bytes : List ℕ) → Keeps bytes (decode_sync bytes)
unfolding decode_sync
decode_sync-Keeps bytes =
    then-Keeps bytes (read_u8_var bytes) _
      (Keeps-Shrinks bytes (read_u8_var bytes) (read_u8_var-Shrinks bytes))
      (λ tag rest.
        if-Keeps rest (tag == 0) _ _
          (then-Keeps rest (read_buf rest) _ (read_buf-Keeps rest)
            (λ buf left. value-Keeps left (decode buf) (λ sv. sync_step_1 sv.0)))
          (if-Keeps rest (tag == 1) _ _
            (then-Keeps rest (read_buf rest) _ (read_buf-Keeps rest) (λ buf left. omega arith))
            (if-Keeps rest (tag == 2) _ _
              (then-Keeps rest (read_buf rest) _ (read_buf-Keeps rest) (λ buf left. omega arith))
              tt)))
