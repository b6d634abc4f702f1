-- ===== src/Update/Codec/RoundTrip.antt =====
-- yrs/src/update.rs: an update comes back from the bytes that encode it for an empty replica.
use y_crdt.Common.{
  ℕ, ◌+◌, ◌-◌, ◌<◌, ◌≡◌, ◌⊎◌, refl, sym, ap, ◌∙◌, true, Option, none, some, List, [], ◌∷◌, ◌++◌,
  length, ltb, ◌==◌, arith, tests, ==_iff, Bool-cases, inl, inr, ◌^◌, append-nil, append_assoc,
}
use y_crdt.Encoding.{ok}
use y_crdt.Encoding.Client.{read_client-write_var_u64}
use y_crdt.Update.Codec.Sent.{IsBelow, IsDescending, sent, sorted_diffs-sent}
use y_crdt.Encoding.VarInt.{write_var_u32, write_var_u64}
use y_crdt.Encoding.VarInt.RoundTrip.{read_var_u32-write_var_u32}
use y_crdt.Encoding.Buffers.{read_var_u32-write_var_u64}
use mathlib.Core.Path.{subst}
use y_crdt.BTree.{get, IsSorted}
use y_crdt.HashMap.{put, get-put, IsUnique, add_all, add_all-append}
use y_crdt.IdMap.Codec.{encode_set, SetFits, decode_set-encode_set}
use y_crdt.StateVector.{clock_of}
use y_crdt.Block.Content.{Codecs}
use y_crdt.Block.Content.RoundTrip.{Laws}
use y_crdt.Block.Wire.{WireBlock, item, gc, skip, can_copy}
use y_crdt.Block.Wire.RoundTrip.{wire_block, decode_block-encode_block}
use y_crdt.Block.Wire.Fields.{wire_item}
use y_crdt.Update.Codec.{
  Placed, Blocks, Update, block_len, encode_with_offset, sorted_diffs, encode_blocks,
  encode_clients, encode_diff, decode_blocks, decode_clients, decode_update,
}
use y_crdt.Update.Codec.Sorted.{IsRun, AllRuns, UpdateFits, sorted_diffs-AllRuns}
use y_crdt.Update.Codec.Slices.{encode_with_offset-whole}

module _ {A T R : Type 0} (c : Codecs A T R) (laws : Laws c) (split : List ℕ → ℕ → List ℕ × List ℕ)
    (split-whole : (s : List ℕ) → split s (c.len_utf16 s) ≡ (s, [])) where
  -- What the bytes keep of the blocks.
  abbrev pub wire_blocks : List (Placed A T R) → List (Placed A T R)
  wire_blocks [] = []
  wire_blocks (b ∷ bs) =
      record { clock = b.clock; block = wire_block c laws b.block } ∷ wire_blocks bs

  abbrev pub wire_all : Blocks A T R → Blocks A T R
  wire_all [] = []
  wire_all ((client, bs) ∷ m) = (client, wire_blocks bs) ∷ wire_all m

  block_len-wire_block :
      (b : WireBlock A T R) → block_len c split (wire_block c laws b) ≡ block_len c split b
  unfolding wire_item
  block_len-wire_block (item it) = elim (Bool-cases (can_copy it.origin it.right_origin)) [
    | inl e ↦ rw (wire_item, e) refl
    | inr e ↦ rw (wire_item, e) refl
  ]
  block_len-wire_block (gc len) = refl
  block_len-wire_block (skip len) = refl

  decode_blocks-encode_blocks :
      (client clock : ℕ) (bs acc : List (Placed A T R)) (rest : List ℕ)
      → IsRun c laws split clock bs
      → (bytes : List ℕ) × (encode_blocks c split client 0 bs ≡ some bytes)
        × (decode_blocks c split (length bs) clock acc (bytes ++ rest)
            ≡ ok (acc ++ wire_blocks bs, rest))
  unfolding encode_blocks decode_blocks
  decode_blocks-encode_blocks client clock [] acc rest f = ([], refl, rw (append-nil acc) refl)
  decode_blocks-encode_blocks client clock (b ∷ bs) acc rest (same, size, room, fits, f) =
      let len = block_len-wire_block b.block in
      let next : Placed A T R = record { clock = clock; block = wire_block c laws b.block } in
      let (later, written, read) =
        decode_blocks-encode_blocks client (clock + block_len c split b.block) bs (acc ++ next ∷ [])
          rest f in
      let (bytes, one, back) = decode_block-encode_block c laws b.block (later ++ rest) fits in
      let first : encode_with_offset c split client b.clock b.block 0 ≡ some bytes =
        encode_with_offset-whole c laws split split-whole client b.clock b.block fits ∙ one in
      let below : ltb (clock + block_len c split b.block) (2 ^ 32) ≡ true = omega tests in
      (
        bytes ++ later,
        rw (first, written) refl,
        rw (append_assoc bytes later rest, back, len, below)
            (read
              ∙ ap (λ (xs : List (Placed A T R)). ok (xs, rest))
                  (append_assoc acc (next ∷ []) (wire_blocks bs))
              ∙ ap
                  (λ (k : ℕ). ok (
                    acc ++ record { clock = k; block = wire_block c laws b.block } ∷ wire_blocks bs,
                    rest,
                  ))
                  (sym same)),
      )

  put-Apart :
      (m acc : Blocks A T R) (client : ℕ) (bs new : List (Placed A T R))
      → get client m ≡ none
      → ((k : ℕ) → (get k acc ≡ none) ⊎ (get k ((client, bs) ∷ m) ≡ none))
      → (k : ℕ) → (get k (put client new acc) ≡ none) ⊎ (get k m ≡ none)
  unfolding get
  put-Apart m acc client bs new once apart k = elim (Bool-cases (client == k)) [
    | inl e ↦ let same = (==_iff client k).0 e in inr (subst (λ j. get j m ≡ none) same once)
    | inr e ↦ elim (apart k) [
      | inl n ↦ inl (rw (get-put acc client k new, e) n)
      | inr n ↦ inr (rw e at n)
    ]
  ]

  fresh_client :
      (client : ℕ) (bs : List (Placed A T R)) (m acc : Blocks A T R)
      → ((k : ℕ) → (get k acc ≡ none) ⊎ (get k ((client, bs) ∷ m) ≡ none))
      → get client acc ≡ none
  unfolding get
  fresh_client client bs m acc apart = elim (apart client) [
    | inl n ↦ n
    | inr n ↦ absurd (ground arith)
  ]

  zero_offset : (client clock : ℕ) → clock_of [] client - clock ≡ 0
  unfolding get
  zero_offset client clock = omega arith

  decode_clients-encode_clients :
      (m acc : Blocks A T R) (rest : List ℕ)
      → IsUnique m
      → ((k : ℕ) → (get k acc ≡ none) ⊎ (get k m ≡ none))
      → AllRuns c laws split m
      → (bytes : List ℕ) × (encode_clients c split [] m ≡ some bytes)
        × (decode_clients c split (length m) acc (bytes ++ rest)
            ≡ ok (add_all acc (wire_all m), rest))
  unfolding encode_clients decode_clients
  decode_clients-encode_clients [] acc rest u apart f = ([], refl, refl)
  decode_clients-encode_clients ((client, []) ∷ m) acc rest u apart f = absurd f
  decode_clients-encode_clients ((client, b ∷ bs) ∷ m) acc rest (once, u) apart
        (small, many, run, f) =
      let new = wire_blocks (b ∷ bs) in
      let (later, written, read) =
        decode_clients-encode_clients m (put client new acc) rest u
          (put-Apart m acc client (b ∷ bs) new once apart) f in
      let (bytes, one, back) =
        decode_blocks-encode_blocks client b.clock (b ∷ bs) [] (later ++ rest) run in
      let fresh = fresh_client client (b ∷ bs) m acc apart in
      let offset = zero_offset client b.clock in
      let start : b.clock + 0 ≡ b.clock = omega arith in
      let clocks = write_var_u32 b.clock in
      let head = write_var_u64 (length (b ∷ bs)) ++ (write_var_u64 client ++ clocks) in
      let tail = bytes ++ (later ++ rest) in
      (
        head ++ (bytes ++ later),
        rw (offset, one, written, start) refl,
        rw
            (
              append_assoc head (bytes ++ later) rest,
              append_assoc bytes later rest,
              append_assoc (write_var_u64 (length (b ∷ bs))) (write_var_u64 client ++ clocks) tail,
              append_assoc (write_var_u64 client) clocks tail,
              read_var_u32-write_var_u64 (length (b ∷ bs))
                  (write_var_u64 client ++ (clocks ++ tail)) many,
              read_client-write_var_u64 client (clocks ++ tail) small,
              read_var_u32-write_var_u32 b.clock tail (omega (arith, run.2)),
              fresh,
              back,
            )
            read,
      )

  wire_all-none : (m : Blocks A T R) (k : ℕ) → get k m ≡ none → get k (wire_all m) ≡ none
  unfolding get
  wire_all-none [] k n = refl
  wire_all-none ((client, bs) ∷ m) k n = ground (arith, wire_all-none m k)

  wire_all-IsUnique : (m : Blocks A T R) → IsUnique m → IsUnique (wire_all m)
  wire_all-IsUnique [] u = tt
  wire_all-IsUnique ((client, bs) ∷ m) u = (wire_all-none m client u.0, wire_all-IsUnique m u.1)

  abbrev pub wire_sent : Option (List (Placed A T R)) → Option (List (Placed A T R))
  wire_sent none = none
  wire_sent (some bs) = some (wire_blocks bs)

  get-wire_all : (m : Blocks A T R) (k : ℕ) → get k (wire_all m) ≡ wire_sent (get k m)
  unfolding get
  get-wire_all [] k = refl
  get-wire_all ((client, bs) ∷ m) k = elim (Bool-cases (client == k)) [
    | inl e ↦ rw e refl
    | inr e ↦ rw e (get-wire_all m k)
  ]

  wire_all-IsBelow : (top : ℕ) (m : Blocks A T R) → IsBelow top m → IsBelow top (wire_all m)
  wire_all-IsBelow top [] b = tt
  wire_all-IsBelow top ((client, bs) ∷ m) b = b

  wire_all-IsDescending : (m : Blocks A T R) → IsDescending m → IsDescending (wire_all m)
  wire_all-IsDescending [] s = tt
  wire_all-IsDescending ((client, bs) ∷ m) s =
      (wire_all-IsBelow client m s.0, wire_all-IsDescending m s.1)

  -- In the first version of the encoding, where the codecs of nested values read back what they
  -- write, and a text is split at its end into itself and nothing: an update that lists every
  -- client once, with fewer than 2 ^ 32 clients, all of 53 bits, blocks that follow each other,
  -- are not empty and can be encoded, and a sorted delete set of 32 bits, is encoded for an empty
  -- replica without a panic. Decoding the bytes gives the same delete set and, with the clients in
  -- descending order, for every client all of its blocks from the first one on that is no skip, as
  -- the bytes keep them, and no client that has no such block; the bytes behind are left.
  pub decode_update-encode_diff :
      (u : Update A T R) (rest : List ℕ)
      → IsUnique u.blocks
      → UpdateFits c laws split u.blocks
      → length u.blocks < 2 ^ 32
      → IsSorted 0 u.delete_set
      → SetFits u.delete_set
      → length u.delete_set < 2 ^ 32
      → (bytes : List ℕ) × (encode_diff c split u [] ≡ some bytes)
        × ((blocks : Blocks A T R) × (decode_update c split (bytes ++ rest)
              ≡ ok (record { blocks = blocks; delete_set = u.delete_set }, rest))
            × IsDescending blocks
            × ((client : ℕ)
                → get client blocks ≡ wire_sent (sent c laws split (get client u.blocks))))
  unfolding encode_diff decode_update
  decode_update-encode_diff u rest unique fits many sorted set_fits set_small =
      let diffs = sorted_diffs c split [] u.blocks in
      let set = encode_set u.delete_set in
      let kept = sorted_diffs-AllRuns c laws split [] u.blocks unique fits in
      let (down, shorter, same) = sorted_diffs-sent c laws split u.blocks unique fits in
      let few : length diffs < 2 ^ 32 = omega (arith, shorter) in
      let (bytes, written, read) =
        decode_clients-encode_clients diffs [] (set ++ rest) kept.0 (λ k. inl (unfold get in refl))
          kept.1 in
      let whole = add_all-append [] (wire_all diffs) (wire_all-IsUnique diffs kept.0) in
      (
        write_var_u64 (length diffs) ++ (bytes ++ set),
        rw (encode_diff, written) refl,
        (
          wire_all diffs,
          rw
              (
                append_assoc (write_var_u64 (length diffs)) (bytes ++ set) rest,
                append_assoc bytes set rest,
                read_var_u32-write_var_u64 (length diffs) (bytes ++ (set ++ rest)) few,
                read,
                whole,
                decode_set-encode_set u.delete_set rest sorted set_fits set_small,
              )
              refl,
          wire_all-IsDescending diffs down,
          λ client. get-wire_all diffs client ∙ ap wire_sent (same client),
        ),
      )
