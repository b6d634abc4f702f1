-- ===== src/Columns/Strings.antt =====
-- `StringEncoder` and `StringDecoder`: all strings joined, and their lengths in UTF-16 units. A string
-- is the list of its code points; `utf8` and `from_utf8` stand for the standard library's conversions.
use y_crdt.Common.{
  ==_iff, ℕ, zero, suc, ◌+◌, ◌-◌, ◌^◌, ◌<◌, ◌≡◌, refl, sym, ◌∙◌, ap, false, Option, none, some,
  List, [], ◌∷◌, ◌++◌, append_assoc, append-nil, length, ltb, ◌==◌, if◌then◌else◌, arith,
}
use y_crdt.Encoding.{Result, ok, err, panic, unexpected_value, ◌>>=◌}
use y_crdt.Encoding.Buffers.{write_buf}
use y_crdt.Columns.Usize.{read_column, read_column-write_buf}
use y_crdt.Columns.Runs.{
  Runs, Reader, flush, push_run, push_all, next_key, next_keys, AllKeys, push_all-Reads,
}
use y_crdt.Columns.UIntOpt.{
  emit_u64, take_u64, new_u64_encoder, new_u64_decoder, write_u64, read_u64, take_u64-emit_u64,
}
use y_crdt.Columns.IntDiff.Correct.{bind_ok, split_ok}

-- `len_utf16` of a character, which is never 0.
abbrev pub len_utf16 : ℕ → ℕ
len_utf16 c = if ltb c (2 ^ 16) then 1 else 2

-- `encode_utf16().count()`
abbrev pub utf16_len : List ℕ → ℕ
utf16_len [] = 0
utf16_len (c ∷ s) = len_utf16 c + utf16_len s

pub record StringEncoder : Type 0 where
  pub text : List ℕ
  pub lens : Runs ℕ

pub record StringDecoder : Type 0 where
  pub text : List ℕ
  pub lens : Reader ℕ

abbrev pub new_string_encoder : StringEncoder
new_string_encoder = record { text = []; lens = new_u64_encoder }

unfoldable pub write_str : StringEncoder → List ℕ → Result StringEncoder
write_str e s =
    write_u64 e.lens (utf16_len s) >>= (λ lens. ok (record { text = e.text ++ s; lens = lens }))

unfoldable pub write_strs : StringEncoder → List (List ℕ) → Result StringEncoder
write_strs e [] = ok e
write_strs e (s ∷ ss) = write_str e s >>= (λ e'. write_strs e' ss)

-- The characters of the first `remaining` units, and the others.
unfoldable pub split_units : ℕ → List ℕ → Result (List ℕ × List ℕ)
split_units remaining [] = ok ([], [])
split_units remaining (c ∷ text) =
    let rest = split_units (remaining - len_utf16 c) text in
    if remaining == 0
    then ok ([], c ∷ text)
    else if ltb remaining (len_utf16 c)
    then panic
    else (rest >>= (λ p. ok (c ∷ p.0, p.1)))

unfoldable pub read_str : StringDecoder → Result (List ℕ × StringDecoder)
read_str d =
    read_u64 d.lens
    >>= (λ n. split_units n.0 d.text >>= (λ s. ok (s.0, record { text = s.1; lens = n.1 })))

unfoldable pub read_strs : ℕ → StringDecoder → Result (List (List ℕ) × StringDecoder)
read_strs zero d = ok ([], d)
read_strs (suc n) d = read_str d >>= (λ p. read_strs n p.1 >>= (λ q. ok (p.0 ∷ q.0, q.1)))

module _ (utf8 : List ℕ → List ℕ) (from_utf8 : List ℕ → Option (List ℕ)) where
  -- `StringEncoder::to_vec`
  unfoldable pub string_to_vec : StringEncoder → Result (List ℕ)
  string_to_vec e = flush ◌==◌ emit_u64 e.lens >>= (λ lens. ok (write_buf (utf8 e.text) ++ lens))

  -- `StringDecoder::new`
  unfoldable pub open_strings : List ℕ → Result StringDecoder
  open_strings bytes = read_column bytes >>= (λ p. elim (from_utf8 p.0) [
    | some text ↦ ok (record { text = text; lens = new_u64_decoder p.1 })
    | none ↦ err unexpected_value
  ])

split_units-append : (s text : List ℕ) → split_units (utf16_len s) (s ++ text) ≡ ok (s, text)
unfolding split_units
split_units-append [] [] = refl
split_units-append [] (c ∷ text) = refl
split_units-append (c ∷ s) text =
    let ih = split_units-append s text in
    let some_left : (utf16_len (c ∷ s) == 0) ≡ false = ground arith in
    let enough : ltb (utf16_len (c ∷ s)) (len_utf16 c) ≡ false = ground arith in
    let less : utf16_len (c ∷ s) - len_utf16 c ≡ utf16_len s = omega arith in
    rw (some_left, enough, less, ih) refl

abbrev pub join : List (List ℕ) → List ℕ
join [] = []
join (s ∷ ss) = s ++ join ss

abbrev pub units : List (List ℕ) → List ℕ
units [] = []
units (s ∷ ss) = utf16_len s ∷ units ss

length-units : (ss : List (List ℕ)) → length (units ss) ≡ length ss
length-units [] = refl
length-units (s ∷ ss) = ap suc (length-units ss)

module _ (utf8 : List ℕ → List ℕ) (from_utf8 : List ℕ → Option (List ℕ)) where
  write_strs-push_all :
      (ss : List (List ℕ)) (e : StringEncoder)
      → (write_strs e ss >>= string_to_vec utf8 from_utf8) ≡ (
          push_all ◌==◌ emit_u64 e.lens (units ss)
          >>= (λ lens. ok (write_buf (utf8 (e.text ++ join ss)) ++ lens)))
  unfolding write_strs write_str write_u64 push_all string_to_vec
  write_strs-push_all [] e = rw (append-nil e.text) refl
  write_strs-push_all (s ∷ ss) e =
      go
        (λ lens.
          write_strs-push_all ss (record { text = e.text ++ s; lens = lens })
          ∙ rw (append_assoc e.text s (join ss)) refl)
        (push_run ◌==◌ emit_u64 e.lens (utf16_len s))
    where
      go :
          ((lens : Runs ℕ)
            → (write_strs (record { text = e.text ++ s; lens = lens }) ss
                >>= string_to_vec utf8 from_utf8)
              ≡ (push_all ◌==◌ emit_u64 lens (units ss)
                  >>= (λ l. ok (write_buf (utf8 (e.text ++ (s ++ join ss))) ++ l))))
          → (r : Result (Runs ℕ))
          → (((r >>= (λ lens. ok (record { text = e.text ++ s; lens = lens })))
                >>= (λ e'. write_strs e' ss))
              >>= string_to_vec utf8 from_utf8)
            ≡ ((r >>= (λ r'. push_all ◌==◌ emit_u64 r' (units ss)))
                >>= (λ l. ok (write_buf (utf8 (e.text ++ (s ++ join ss))) ++ l)))
      go ih (ok lens) = ih lens
      go ih (err x) = refl
      go ih panic = refl

read_strs-next_keys :
    (ss : List (List ℕ)) (d : StringDecoder) (r : Reader ℕ)
    → d.text ≡ join ss
    → next_keys take_u64 (length ss) d.lens ≡ ok (units ss, r)
    → (d' : StringDecoder) × (read_strs (length ss) d ≡ ok (ss, d')) × (d'.lens ≡ r)
unfolding next_keys read_strs read_str read_u64
read_strs-next_keys [] d r t e = (d, refl, cc)
read_strs-next_keys (s ∷ ss) d r t e =
    let (p, first, later) = bind_ok (next_key take_u64 d.lens) _ _ e in
    let (q, rest, whole) = bind_ok (next_keys take_u64 (length ss) p.1) _ _ later in
    let (same_head, same_tail) = split_ok p.0 _ q.0 (units ss) q.1 r whole in
    let (d', read, left) =
      read_strs-next_keys ss (record { text = join ss; lens = p.1 }) r refl (rest ∙ same_tail) in
    (
      d',
      rw (read_str, read_u64, first, same_head, t, split_units-append s (join ss), read) refl,
      left,
    )

module _ (utf8 : List ℕ → List ℕ) (from_utf8 : List ℕ → Option (List ℕ))
    (from_utf8-utf8 : (s : List ℕ) → from_utf8 (utf8 s) ≡ some s) where
  -- Where the conversion from UTF-8 inverts the one to it, fewer than 2 ^ 32 strings, each with
  -- fewer than 2 ^ 63 units and all together with fewer than 2 ^ 64 bytes, are written without an
  -- overflow and read back.
  pub read_strs-write_strs :
      (ss : List (List ℕ))
      → AllKeys (λ s. utf16_len s < 2 ^ 63) ss
      → length ss < 2 ^ 32
      → length (utf8 (join ss)) < 2 ^ 64
      → (bytes : List ℕ) × ((write_strs new_string_encoder ss >>= string_to_vec utf8 from_utf8)
          ≡ ok bytes)
        × ((d : StringDecoder) × ((open_strings utf8 from_utf8 bytes >>= read_strs (length ss))
              ≡ ok (ss, d)))
  unfolding open_strings
  read_strs-write_strs ss fit n m =
      let (bytes, written, reads) =
        push_all-Reads ◌==◌ emit_u64 take_u64 (λ v. v < 2 ^ 63) ==_iff take_u64-emit_u64 (units ss)
          new_u64_encoder (omega arith) (short ss fit) (rw (length-units ss) (omega arith)) in
      let (r, run, none_left, tail) =
        reads [] (new_u64_decoder bytes) refl (sym (append-nil bytes)) in
      let (d, read, left) =
        read_strs-next_keys ss (record { text = join ss; lens = new_u64_decoder bytes }) r refl
          (rw (length-units ss) at run) in
      (
        write_buf (utf8 (join ss)) ++ bytes,
        write_strs-push_all utf8 from_utf8 ss new_string_encoder ∙ rw written refl,
        (d, rw (read_column-write_buf (utf8 (join ss)) bytes m, from_utf8-utf8 (join ss)) read),
      )
    where
      short :
          (ss : List (List ℕ))
          → AllKeys (λ s. utf16_len s < 2 ^ 63) ss
          → AllKeys (λ v. v < 2 ^ 63) (units ss)
      short [] f = tt
      short (s ∷ ss) f = (f.0, short ss f.1)
