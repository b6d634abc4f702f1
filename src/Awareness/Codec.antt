-- ===== src/Awareness/Codec.antt =====
-- yrs/src/sync/awareness.rs: `Encode` and `Decode` of an update, with the first version of the
-- encoding. `is_utf8` stands for the standard library's test of the bytes of a text. Running out of
-- memory in `try_reserve` is not modelled.
use y_crdt.Common.{
  ℕ, zero, suc, ◌^◌, ◌<◌, ◌≡◌, refl, ◌∙◌, Bool, true, List, [], ◌∷◌, ◌++◌, append_assoc, length,
  if◌then◌else◌,
}
use y_crdt.Encoding.{Result, ok, err, malformed_utf8, ◌>>=◌}
use y_crdt.Encoding.Buffers.{write_buf, read_buf, read_buf-write_buf}
use y_crdt.Encoding.Client.{read_client, read_client-write_var_u64}
use y_crdt.Encoding.VarInt.{write_var_u64, write_var_u32, read_var_u64, read_var_u32}
use y_crdt.Encoding.VarInt.RoundTrip.{read_var_u64-write_var_u64, read_var_u32-write_var_u32}
use y_crdt.BTree.{get}
use y_crdt.HashMap.{put, IsUnique, add_all, get-add_all, or_old-none, add_all-append}
use y_crdt.Awareness.{AwarenessUpdate}

unfoldable pub encode_all_entries : AwarenessUpdate → List ℕ
encode_all_entries [] = []
encode_all_entries ((client, e) ∷ u) =
    write_var_u64 client ++ (write_var_u32 e.clock ++ (write_buf e.json ++ encode_all_entries u))

unfoldable pub encode_update : AwarenessUpdate → List ℕ
encode_update u = write_var_u64 (length u) ++ encode_all_entries u

module _ (is_utf8 : List ℕ → Bool) where
  unfoldable pub read_string : List ℕ → Result (List ℕ × List ℕ)
  read_string bytes = read_buf bytes >>= (λ p. if is_utf8 p.0 then ok p else err malformed_utf8)

  -- The loop of `decode`, on the number of rounds that are left.
  unfoldable pub decode_entries : ℕ → AwarenessUpdate → List ℕ → Result (AwarenessUpdate × List ℕ)
  decode_entries zero u bytes = ok (u, bytes)
  decode_entries (suc n) u bytes = read_client bytes >>= (λ c. read_var_u32 c.1 >>= (λ d.
      read_string d.1
      >>= (λ s. decode_entries n (put c.0 (record { clock = d.0; json = s.0 }) u) s.1)))

  unfoldable pub decode_update : List ℕ → Result (AwarenessUpdate × List ℕ)
  decode_update bytes = read_var_u64 bytes >>= (λ l. decode_entries l.0 [] l.1)

  -- Clients of 53 bits, clocks of 32, and texts with lengths of 32.
  abbrev pub AllFit : AwarenessUpdate → Type 0
  AllFit [] = Unit
  AllFit ((k, e) ∷ u) =
      (k < 2 ^ 53)
      × (e.clock < 2 ^ 32)
      × (length e.json < 2 ^ 32)
      × (is_utf8 e.json ≡ true)
      × AllFit u

  pub read_string-write_buf :
      (text rest : List ℕ)
      → length text < 2 ^ 32
      → is_utf8 text ≡ true
      → read_string (write_buf text ++ rest) ≡ ok (text, rest)
  unfolding read_string
  read_string-write_buf text rest h valid = rw (read_buf-write_buf text rest h, valid) refl

  decode_entries-encode_all_entries :
      (u acc : AwarenessUpdate) (rest : List ℕ)
      → AllFit u
      → decode_entries (length u) acc (encode_all_entries u ++ rest) ≡ ok (add_all acc u, rest)
  unfolding decode_entries encode_all_entries
  decode_entries-encode_all_entries [] acc rest f = refl
  decode_entries-encode_all_entries ((k, e) ∷ u) acc rest f =
      let tail = encode_all_entries u ++ rest in
      rw
        (
          append_assoc (write_var_u64 k)
              (write_var_u32 e.clock ++ (write_buf e.json ++ encode_all_entries u)) rest,
          append_assoc (write_var_u32 e.clock) (write_buf e.json ++ encode_all_entries u) rest,
          append_assoc (write_buf e.json) (encode_all_entries u) rest,
          read_client-write_var_u64 k (write_var_u32 e.clock ++ (write_buf e.json ++ tail)) f.0,
          read_var_u32-write_var_u32 e.clock (write_buf e.json ++ tail) f.1,
          read_string-write_buf e.json tail f.2 f.3,
        )
        (decode_entries-encode_all_entries u (put k e acc) rest f.4)

  -- An update that lists every client once, with clients of 53 bits, clocks of 32, fewer than 2 ^
  -- 64 entries, and texts that are valid and shorter than 2 ^ 32 bytes, is decoded from what
  -- encode_update wrote to an update with the same entry for every client, and the bytes behind it
  -- are left.
  pub decode_update-encode_update :
      (u : AwarenessUpdate) (rest : List ℕ)
      → IsUnique u
      → AllFit u
      → length u < 2 ^ 64
      → (decoded : AwarenessUpdate) × (decode_update (encode_update u ++ rest) ≡ ok (decoded, rest))
        × ((client : ℕ) → get client decoded ≡ get client u)
  unfolding decode_update encode_update get
  decode_update-encode_update u rest unique f h = (
    add_all [] u,
    rw
        (
          append_assoc (write_var_u64 (length u)) (encode_all_entries u) rest,
          read_var_u64-write_var_u64 (length u) (encode_all_entries u ++ rest) h,
        )
        (decode_entries-encode_all_entries u [] rest f),
    λ j. get-add_all [] u j unique ∙ or_old-none (get j u),
  )

  -- The entries come back in their order.
  pub decode_update-encode_update_exact :
      (u : AwarenessUpdate) (rest : List ℕ)
      → IsUnique u
      → AllFit u
      → length u < 2 ^ 64
      → decode_update (encode_update u ++ rest) ≡ ok (u, rest)
  unfolding decode_update encode_update
  decode_update-encode_update_exact u rest unique f h =
      rw
        (
          append_assoc (write_var_u64 (length u)) (encode_all_entries u) rest,
          read_var_u64-write_var_u64 (length u) (encode_all_entries u ++ rest) h,
          decode_entries-encode_all_entries u [] rest f,
          add_all-append [] u unique,
        )
        refl
