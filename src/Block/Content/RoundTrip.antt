-- ===== src/Block/Content/RoundTrip.antt =====
-- yrs/src/block.rs: contents come back from the bytes that encode them, but for JSON texts.
use y_crdt.Common.{
  ℕ, suc, ◌<◌, ◌≡◌, refl, sym, ap, ◌∙◌, true, List, [], ◌∷◌, ◌++◌, length, ltb, arith, tests, ◌^◌,
  ◌%◌, append_assoc, append-nil, length-append,
}
use y_crdt.Encoding.{ok}
use y_crdt.Encoding.Buffers.{write_buf, read_buf-write_buf}
use y_crdt.Encoding.VarInt.{write_var_u32}
use y_crdt.Encoding.VarInt.RoundTrip.{read_var_u32-write_var_u32}
use y_crdt.Awareness.Codec.{read_string-write_buf}
use y_crdt.Block.Content.{
  Options, ItemContent, deleted, json, binary, string, embed, format, type, any, doc, Codecs,
  get_ref_number, write_strings, write_values, encode_content, read_strings, read_values, loaded,
  decode_json, decode_content,
}

-- The nested codecs read back what they write, for the values that they support.
pub record Laws {A T R : Type 0} (c : Codecs A T R) : Type 1 where
  pub IsAny : A → Type 0
  pub IsJson : A → Type 0
  pub IsType : T → Type 0
  pub IsOptions : Options R → Type 0
  pub read_any-write_any :
      (v : A) (rest : List ℕ) → IsAny v → c.read_any (c.write_any v ++ rest) ≡ ok (v, rest)
  pub read_json-write_json :
      (v : A) (rest : List ℕ) → IsJson v → c.read_json (c.write_json v ++ rest) ≡ ok (v, rest)
  pub read_type_ref-write_type_ref :
      (t : T) (rest : List ℕ)
      → IsType t
      → c.read_type_ref (c.write_type_ref t ++ rest) ≡ ok (t, rest)
  pub read_options-write_options :
      (o : Options R) (rest : List ℕ)
      → IsOptions o
      → c.read_options (c.write_options o ++ rest) ≡ ok (o, rest)

module _ {A T R : Type 0} (c : Codecs A T R) where
  -- A text has a length of 32 bits.
  abbrev pub IsText : List ℕ → Type 0
  IsText s = (length s < 2 ^ 32) × (c.is_utf8 s ≡ true)

  abbrev pub AllTexts : List (List ℕ) → Type 0
  AllTexts [] = Unit
  AllTexts (s ∷ ss) = IsText s × AllTexts ss

  read_strings-write_strings :
      (ss acc : List (List ℕ)) (rest : List ℕ)
      → AllTexts ss
      → read_strings c (length ss) acc (write_strings c ss ++ rest) ≡ ok (acc ++ ss, rest)
  unfolding read_strings
  read_strings-write_strings [] acc rest f = rw (append-nil acc) refl
  read_strings-write_strings (s ∷ ss) acc rest f =
      rw
        (
          append_assoc (write_buf s) (write_strings c ss) rest,
          read_string-write_buf c.is_utf8 s (write_strings c ss ++ rest) f.0.0 f.0.1,
        )
        (read_strings-write_strings ss (acc ++ s ∷ []) rest f.1
          ∙ ap (λ (r : List (List ℕ)). ok (r, rest)) (append_assoc acc (s ∷ []) ss))

  write_strings-last :
      (ss : List (List ℕ)) (next rest : List ℕ)
      → write_strings c (ss ++ next ∷ []) ++ rest ≡ write_strings c ss ++ (write_buf next ++ rest)
  write_strings-last [] next rest = append_assoc (write_buf next) [] rest
  write_strings-last (s ∷ ss) next rest =
      append_assoc (write_buf s) (write_strings c (ss ++ next ∷ [])) rest
      ∙ ap (λ r. write_buf s ++ r) (write_strings-last ss next rest)
      ∙ sym (append_assoc (write_buf s) (write_strings c ss) (write_buf next ++ rest))

  AllTexts-last :
      (ss : List (List ℕ)) (next : List ℕ) → AllTexts ss → IsText next → AllTexts (ss ++ next ∷ [])
  AllTexts-last [] next f g = (g, tt)
  AllTexts-last (s ∷ ss) next f g = (f.0, AllTexts-last ss next f.1 g)

  -- JSON texts, fewer than 2 ^ 31, with a text behind them, are decoded with that text as one text
  -- too many.
  pub decode_json-encode_content :
      (ss : List (List ℕ)) (next : List ℕ) (rest : List ℕ)
      → AllTexts ss
      → IsText next
      → length ss < 2 ^ 31
      → decode_content c (encode_content c (json ss) ++ (write_buf next ++ rest)) 2
        ≡ ok (json (ss ++ next ∷ []), rest)
  unfolding decode_content encode_content decode_json
  decode_json-encode_content ss next rest f g h =
      let whole : length ss % 2 ^ 32 ≡ length ss = omega arith in
      let small : ltb (length ss) (2 ^ 31) ≡ true = omega tests in
      let more = length-append ss (next ∷ []) in
      let count : length (ss ++ next ∷ []) ≡ suc (length ss) = omega (arith, more) in
      let bytes = write_strings-last ss next rest in
      let strings : read_strings c (suc (length ss)) []
            (write_strings c ss ++ (write_buf next ++ rest))
          ≡ ok (ss ++ next ∷ [], rest) =
        rw (sym count, sym bytes)
          (read_strings-write_strings (ss ++ next ∷ []) [] rest (AllTexts-last ss next f g)) in
      rw
        (
          whole,
          append_assoc (write_var_u32 (length ss)) (write_strings c ss) (write_buf next ++ rest),
          read_var_u32-write_var_u32 (length ss) (write_strings c ss ++ (write_buf next ++ rest))
              (omega arith),
          small,
          strings,
        )
        refl

module _ {A T R : Type 0} (c : Codecs A T R) (laws : Laws c) where
  abbrev pub AllValues : List A → Type 0
  AllValues [] = Unit
  AllValues (v ∷ vs) = laws.IsAny v × AllValues vs

  abbrev pub ContentFits : ItemContent A T R → Type 0
  ContentFits (deleted n) = n < 2 ^ 32
  ContentFits (json s) = ⊥
  ContentFits (binary b) = length b < 2 ^ 32
  ContentFits (string s) = IsText c s
  ContentFits (embed v) = laws.IsJson v
  ContentFits (format k v) = IsText c k × laws.IsJson v
  ContentFits (type t) = laws.IsType t
  ContentFits (any v) = (length v < 2 ^ 32) × AllValues v
  ContentFits (doc o) = laws.IsOptions o × (loaded c o ≡ o)

  read_values-write_values :
      (vs acc : List A) (rest : List ℕ)
      → AllValues vs
      → read_values c (length vs) acc (write_values c vs ++ rest) ≡ ok (acc ++ vs, rest)
  unfolding read_values
  read_values-write_values [] acc rest f = rw (append-nil acc) refl
  read_values-write_values (v ∷ vs) acc rest f =
      rw
        (
          append_assoc (c.write_any v) (write_values c vs) rest,
          laws.read_any-write_any v (write_values c vs ++ rest) f.0,
        )
        (read_values-write_values vs (acc ++ v ∷ []) rest f.1
          ∙ ap (λ (r : List A). ok (r, rest)) (append_assoc acc (v ∷ []) vs))

  pub decode_content-encode_content :
      (x : ItemContent A T R) (rest : List ℕ)
      → ContentFits x
      → decode_content c (encode_content c x ++ rest) (get_ref_number c x) ≡ ok (x, rest)
  unfolding decode_content encode_content
  decode_content-encode_content (deleted n) rest f = rw (read_var_u32-write_var_u32 n rest f) refl
  decode_content-encode_content (json s) rest f = absurd f
  decode_content-encode_content (binary b) rest f = rw (read_buf-write_buf b rest f) refl
  decode_content-encode_content (string s) rest f =
      rw (read_string-write_buf c.is_utf8 s rest f.0 f.1) refl
  decode_content-encode_content (embed v) rest f = rw (laws.read_json-write_json v rest f) refl
  decode_content-encode_content (format k v) rest f =
      rw
        (
          append_assoc (write_buf k) (c.write_json v) rest,
          read_string-write_buf c.is_utf8 k (c.write_json v ++ rest) f.0.0 f.0.1,
          laws.read_json-write_json v rest f.1,
        )
        refl
  decode_content-encode_content (type t) rest f =
      rw (laws.read_type_ref-write_type_ref t rest f) refl
  decode_content-encode_content (any v) rest f =
      let whole : length v % 2 ^ 32 ≡ length v = omega arith in
      rw
        (
          whole,
          append_assoc (write_var_u32 (length v)) (write_values c v) rest,
          read_var_u32-write_var_u32 (length v) (write_values c v ++ rest) f.0,
          read_values-write_values v [] rest f.1,
        )
        refl
  decode_content-encode_content (doc o) rest f =
      rw (laws.read_options-write_options o rest f.0, f.1) refl
