-- ===== src/Columns/Rle.antt =====
-- `RleEncoder` and `RleDecoder`: a byte, then how often it is repeated; the count of the last run is
-- not written, and the last byte is read for ever.
use y_crdt.Common.{
  ℕ, zero, suc, ◌+◌, ◌-◌, ◌^◌, ◌<◌, ◌≡◌, refl, ◌∙◌, ap, Bool, true, false, Option, none, some, List,
  [], ◌∷◌, ◌++◌, append_assoc, append-nil, length, ltb, ◌==◌, ==_iff, if◌then◌else◌, arith, tests,
  Bool-cases, inl, inr,
}
use y_crdt.Encoding.{Result, ok, panic, ◌>>=◌}
use y_crdt.Encoding
use y_crdt.Encoding.VarInt.{write_var_u32, read_var_u32}
use y_crdt.Encoding.VarInt.RoundTrip.{read_var_u32-write_var_u32}
use y_crdt.Encoding.VarInt.Signed.{ℤ, pos, negsuc}
use y_crdt.Columns.Runs.{repeat, repeat_alike, length-repeat}
use y_crdt.Columns.IntDiff.{as_i32, plus, check_i32, same_int}

pub record RleEncoder : Type 0 where
  pub buf : List ℕ
  pub last : Option ℕ
  pub count : ℕ

pub record RleDecoder : Type 0 where
  pub bytes : List ℕ
  pub last : ℕ
  pub count : ℤ

abbrev pub is_last : Option ℕ → ℕ → Bool
is_last none value = false
is_last (some last) value = last == value

unfoldable pub write_byte : RleEncoder → ℕ → Result RleEncoder
write_byte e value =
    if is_last e.last value
    then if ltb (e.count + 1) (2 ^ 32) then ok (record e { count = e.count + 1 }) else panic
    else (let counted : List ℕ =
          if ltb 0 e.count then e.buf ++ write_var_u32 (e.count - 1) else e.buf in
        ok (record { buf = counted ++ (value ∷ []); last = some value; count = 1 }))

-- `write_u8` of every byte, then `to_vec`.
unfoldable pub encode_bytes : RleEncoder → List ℕ → Result (List ℕ)
encode_bytes e [] = ok e.buf
encode_bytes e (v ∷ vs) = write_byte e v >>= (λ e'. encode_bytes e' vs)

abbrev pub new_rle_encoder : RleEncoder
new_rle_encoder = record { buf = []; last = none; count = 0 }

abbrev pub new_rle_decoder : List ℕ → RleDecoder
new_rle_decoder bytes = record { bytes = bytes; last = 0; count = pos 0 }

-- The count behind a byte, if the input goes on.
unfoldable pub read_count : ℕ → List ℕ → Result RleDecoder
read_count last [] = ok (record { bytes = []; last = last; count = negsuc 0 })
read_count last (b ∷ bytes) = read_var_u32 (b ∷ bytes) >>= (λ c.
    check_i32 (plus (as_i32 c.0) (pos 1))
    >>= (λ count. ok (record { bytes = c.1; last = last; count = count })))

unfoldable pub read_byte : RleDecoder → Result (ℕ × RleDecoder)
read_byte d =
    (if same_int d.count (pos 0)
      then Encoding.read_u8 d.bytes >>= (λ b. read_count b.0 b.1)
      else ok d)
    >>= (λ e.
        check_i32 (plus e.count (negsuc 0)) >>= (λ count. ok (e.last, record e { count = count })))

unfoldable pub read_bytes : ℕ → RleDecoder → Result (List ℕ × RleDecoder)
read_bytes zero d = ok ([], d)
read_bytes (suc n) d = read_byte d >>= (λ p. read_bytes n p.1 >>= (λ q. ok (p.0 ∷ q.0, q.1)))

-- A decoder at these bytes, with no count left, reads the values.
abbrev Reads : List ℕ → List ℕ → Type 0
Reads t vs =
    (d : RleDecoder)
    → d.count ≡ pos 0
    → d.bytes ≡ t
    → (e : RleDecoder) × (read_bytes (length vs) d ≡ ok (vs, e))

-- Behind the last byte the count never comes back to 0.
read_on :
    (n m : ℕ) (d : RleDecoder)
    → d.count ≡ negsuc m
    → m + n < 2 ^ 31
    → (e : RleDecoder) × (read_bytes n d ≡ ok (repeat n d.last, e))
unfolding read_bytes read_byte
read_on zero m d hc h = (d, refl)
read_on (suc n) m d hc h =
    let small : ltb (suc (m + 0)) (2 ^ 31) ≡ true = omega tests in
    let (e, read) =
      read_on n (suc (m + 0)) (record d { count = negsuc (suc (m + 0)) }) refl (omega arith) in
    (e, rw (hc, small, read) refl)

read_counted :
    (c : ℕ) (t vs : List ℕ) (d : RleDecoder)
    → Reads t vs
    → d.count ≡ pos c
    → d.bytes ≡ t
    → c < 2 ^ 31
    → (e : RleDecoder) × (read_bytes (length (repeat c d.last ++ vs)) d
        ≡ ok (repeat c d.last ++ vs, e))
unfolding read_bytes read_byte
read_counted zero t vs d reads hc hb h = reads d hc hb
read_counted (suc c) t vs d reads hc hb h =
    let some_left : (suc c == 0) ≡ false = ground arith in
    let positive : ltb 0 (suc c) ≡ true = omega tests in
    let fewer : suc c - 1 ≡ c = omega arith in
    let small' : ltb (suc c - 1) (2 ^ 31) ≡ true = omega tests in
    let (e, read) =
      read_counted c t vs (record d { count = pos (suc c - 1) }) reads (ap (λ (k : ℕ). pos k) fewer)
        hb (omega arith) in
    (e, rw (hc, some_left, positive, small', read) refl)

Reads-nil : Reads [] []
unfolding read_bytes
Reads-nil d hc hb = (d, refl)

-- One run that is the last one.
read_last_run : (v n : ℕ) → n < 2 ^ 31 → Reads (v ∷ []) (repeat n v)
unfolding read_bytes read_byte read_count
read_last_run v zero h d hc hb = (d, refl)
read_last_run v (suc n) h d hc hb =
    let (e, read) =
      read_on n 1 (record { bytes = []; last = v; count = negsuc 1 }) refl (omega arith) in
    (e, rw (hc, hb, length-repeat n v, read) refl)

read_count-more :
    (v w : ℕ) (xs t : List ℕ)
    → read_count v (xs ++ (w ∷ t)) ≡ (
        read_var_u32 (xs ++ (w ∷ t)) >>= (λ c.
          check_i32 (plus (as_i32 c.0) (pos 1))
          >>= (λ count. ok (record { bytes = c.1; last = v; count = count }))))
unfolding read_count
read_count-more v w [] t = refl
read_count-more v w (x ∷ xs) t = refl

-- One run with its count, and more behind it.
read_run :
    (v n w : ℕ) (t vs : List ℕ)
    → suc n < 2 ^ 31
    → Reads (w ∷ t) vs
    → Reads (v ∷ (write_var_u32 n ++ (w ∷ t))) (repeat (suc n) v ++ vs)
unfolding read_bytes read_byte
read_run v n w t vs h reads d hc hb =
    let counted : read_count v (write_var_u32 n ++ (w ∷ t))
        ≡ ok (record { bytes = w ∷ t; last = v; count = pos (n + 1) }) =
      let low : ltb n (2 ^ 31) ≡ true = omega tests in
      let up : ltb (n + 1) (2 ^ 31) ≡ true = omega tests in
      rw
        (
          read_count-more v w (write_var_u32 n) t,
          read_var_u32-write_var_u32 n (w ∷ t) (omega arith),
          low,
          up,
        )
        refl in
    let positive : ltb 0 (n + 1) ≡ true = omega tests in
    let small : ltb (n + 1 - 1) (2 ^ 31) ≡ true = omega tests in
    let fewer : n + 1 - 1 ≡ n = omega arith in
    let (e, read) =
      read_counted n (w ∷ t) vs (record { bytes = w ∷ t; last = v; count = pos (n + 1 - 1) }) reads
        (ap (λ (k : ℕ). pos k) fewer) refl (omega arith) in
    (e, rw (hc, hb, counted, positive, small, read) refl)

-- What the encoder writes behind the byte of its last run.
abbrev in_run : List ℕ → ℕ → ℕ → RleEncoder
in_run buf last count = record { buf = buf; last = some last; count = count }

-- A run of at least one byte, and what follows.
read_ended :
    (v c w : ℕ) (t vs : List ℕ)
    → 0 < c
    → c < 2 ^ 31
    → Reads (w ∷ t) vs
    → Reads (v ∷ (write_var_u32 (c - 1) ++ (w ∷ t))) (repeat c v ++ vs)
read_ended v zero w t vs p h reads = absurd (omega arith)
read_ended v (suc c) w t vs p h reads =
    let less : suc c - 1 ≡ c = omega arith in rw less (read_run v c w t vs h reads)

written :
    (vs buf : List ℕ) (last count : ℕ)
    → 0 < count
    → count + length vs < 2 ^ 31
    → (bytes : List ℕ) × (encode_bytes (in_run buf last count) vs ≡ ok (buf ++ bytes))
      × Reads (last ∷ bytes) (repeat count last ++ vs)
unfolding encode_bytes write_byte
written [] buf last count hc h = (
  [],
  rw (append-nil buf) refl,
  rw (append-nil (repeat count last)) (read_last_run last count (omega arith)),
)
written (v ∷ vs) buf last count hc h = elim (Bool-cases (last == v)) [
  | inl q ↦
      let room : ltb (count + 1) (2 ^ 32) ≡ true = omega tests in
      let (bytes, whole, reads) = written vs buf last (count + 1) (omega arith) (omega arith) in
      (bytes, rw (q, room) whole, rw (repeat_alike count last v vs ((==_iff last v).0 q)) at reads)
  | inr q ↦
      let some_count : ltb 0 count ≡ true = omega tests in
      let run = write_var_u32 (count - 1) in
      let (bytes, whole, reads) =
        written vs ((buf ++ run) ++ (v ∷ [])) v 1 (omega arith) (omega arith) in
      (
        run ++ (v ∷ bytes),
        rw (q, some_count) (whole ∙ ap (λ (r : List ℕ). ok r) (three buf run (v ∷ []) bytes)),
        read_ended last count v bytes (v ∷ vs) hc (omega arith) reads,
      )
]
  where
    three : (a b c d : List ℕ) → ((a ++ b) ++ c) ++ d ≡ a ++ (b ++ (c ++ d))
    three a b c d = append_assoc (a ++ b) c d ∙ append_assoc a b (c ++ d)

-- Fewer than 2 ^ 31 bytes are written without an overflow as runs of bytes, and are read back from
-- them.
pub read_bytes-encode_bytes :
    (values : List ℕ)
    → length values < 2 ^ 31
    → (bytes : List ℕ) × (encode_bytes new_rle_encoder values ≡ ok bytes)
      × ((d : RleDecoder) × (read_bytes (length values) (new_rle_decoder bytes) ≡ ok (values, d)))
unfolding encode_bytes write_byte
read_bytes-encode_bytes [] h = ([], refl, Reads-nil (new_rle_decoder []) refl refl)
read_bytes-encode_bytes (v ∷ vs) h =
    let (bytes, whole, reads) = written vs (v ∷ []) v 1 (omega arith) (omega arith) in
    (v ∷ bytes, whole, reads (new_rle_decoder (v ∷ bytes)) refl refl)
