-- ===== src/IdMap/Codec.antt =====
-- yrs/src/id_set.rs: `Encode` and `Decode` of ranges, of the ranges of a client and of an `IdSet`, with
-- the numbers of the first version of the encoding (`EncoderV1` and `DecoderV1`).
use y_crdt.Common.{
  ℕ, zero, suc, ◌+◌, ◌-◌, ◌^◌, ◌<◌, ◌≡◌, refl, ◌∙◌, ap, true, none, some, Option, List, [], ◌∷◌,
  ◌++◌, append-nil, append_assoc, length, ◌==◌, ltb, if◌then◌else◌, arith, tests, Bool-cases, inl,
  inr, ==_iff,
}
use y_crdt.Encoding.{Result, ok, panic, ◌>>=◌}
use y_crdt.Encoding.Client.{read_client, read_client-write_var_u64}
use y_crdt.Encoding.VarInt.{write_var_u64, write_var_u32, read_var_u32}
use y_crdt.Encoding.VarInt.RoundTrip.{read_var_u32-write_var_u32}
use y_crdt.BTree
use y_crdt.BTree.{get, get-insert, get-IsSorted, insert-IsSorted, sorted_unique, IsSorted}
use y_crdt.Ids.{Entry}
use y_crdt.IdMap.{IdMap}

unfoldable pub encode_range : Entry Unit → List ℕ
encode_range e = write_var_u32 e.start ++ write_var_u32 (e.end - e.start)

-- `clock..(clock + len)`, with the sum of `u32`.
unfoldable pub decode_range : List ℕ → Result (Entry Unit × List ℕ)
decode_range bytes = read_var_u32 bytes >>= (λ c. read_var_u32 c.1 >>= (λ l.
    if ltb (c.0 + l.0) (2 ^ 32)
    then ok (record { start = c.0; end = c.0 + l.0; value = tt }, l.1)
    else panic))

unfoldable pub encode_all : List (Entry Unit) → List ℕ
encode_all [] = []
encode_all (e ∷ r) = encode_range e ++ encode_all r

unfoldable pub encode_ranges : List (Entry Unit) → List ℕ
encode_ranges xs = write_var_u32 (length xs) ++ encode_all xs

-- `for _ in 0..len`, with the ranges pushed so far.
unfoldable pub decode_all : ℕ → List (Entry Unit) → List ℕ → Result (List (Entry Unit) × List ℕ)
decode_all zero ranges bytes = ok (ranges, bytes)
decode_all (suc n) ranges bytes =
    decode_range bytes >>= (λ e. decode_all n (ranges ++ (e.0 ∷ [])) e.1)

unfoldable pub decode_ranges : List ℕ → Result (List (Entry Unit) × List ℕ)
decode_ranges bytes = read_var_u32 bytes >>= (λ l. decode_all l.0 [] l.1)

unfoldable pub encode_clients : IdMap Unit → List ℕ
encode_clients [] = []
encode_clients ((client, ranges) ∷ m) =
    write_var_u64 client ++ (encode_ranges ranges ++ encode_clients m)

unfoldable pub encode_set : IdMap Unit → List ℕ
encode_set m = write_var_u32 (length m) ++ encode_clients m

-- `while i < client_len`, on the number of rounds that are left.
unfoldable pub decode_clients : ℕ → IdMap Unit → List ℕ → Result (IdMap Unit × List ℕ)
decode_clients zero set bytes = ok (set, bytes)
decode_clients (suc n) set bytes =
    read_client bytes
    >>= (λ c. decode_ranges c.1 >>= (λ r. decode_clients n (BTree.insert c.0 r.0 set) r.1))

unfoldable pub decode_set : List ℕ → Result (IdMap Unit × List ℕ)
decode_set bytes = read_var_u32 bytes >>= (λ l. decode_clients l.0 [] l.1)

-- Ranges of 32 bits, none of them reversed.
abbrev pub RangesFit : List (Entry Unit) → Type 0
RangesFit [] = Unit
RangesFit (e ∷ r) = (e.start < e.end) × (e.end < 2 ^ 32) × RangesFit r

-- Clients of 53 bits, and counts and ranges of 32.
abbrev pub SetFits : IdMap Unit → Type 0
SetFits [] = Unit
SetFits ((k, xs) ∷ m) = (k < 2 ^ 53) × (length xs < 2 ^ 32) × RangesFit xs × SetFits m

decode_range-encode_range :
    (e : Entry Unit) (rest : List ℕ)
    → e.start < e.end
    → e.end < 2 ^ 32
    → decode_range (encode_range e ++ rest) ≡ ok (e, rest)
unfolding decode_range encode_range
decode_range-encode_range e rest h g =
    let total : e.start + (e.end - e.start) ≡ e.end = omega arith in
    let room : ltb e.end (2 ^ 32) ≡ true = omega tests in
    rw
      (
        append_assoc (write_var_u32 e.start) (write_var_u32 (e.end - e.start)) rest,
        read_var_u32-write_var_u32 e.start (write_var_u32 (e.end - e.start) ++ rest) (omega arith),
        read_var_u32-write_var_u32 (e.end - e.start) rest (omega arith),
        total,
        room,
      )
      refl

decode_all-encode_all :
    (xs acc : List (Entry Unit)) (rest : List ℕ)
    → RangesFit xs
    → decode_all (length xs) acc (encode_all xs ++ rest) ≡ ok (acc ++ xs, rest)
unfolding decode_all encode_all
decode_all-encode_all [] acc rest f = rw (append-nil acc) refl
decode_all-encode_all (e ∷ xs) acc rest f =
    rw
      (
        append_assoc (encode_range e) (encode_all xs) rest,
        decode_range-encode_range e (encode_all xs ++ rest) f.0 f.1,
      )
      (decode_all-encode_all xs (acc ++ (e ∷ [])) rest f.2
        ∙ ap (λ (r : List (Entry Unit)). ok (r, rest)) (append_assoc acc (e ∷ []) xs))

decode_ranges-encode_ranges :
    (xs : List (Entry Unit)) (rest : List ℕ)
    → length xs < 2 ^ 32
    → RangesFit xs
    → decode_ranges (encode_ranges xs ++ rest) ≡ ok (xs, rest)
unfolding decode_ranges encode_ranges
decode_ranges-encode_ranges xs rest h f =
    rw
      (
        append_assoc (write_var_u32 (length xs)) (encode_all xs) rest,
        read_var_u32-write_var_u32 (length xs) (encode_all xs ++ rest) h,
      )
      (decode_all-encode_all xs [] rest f)

-- The clients of a map inserted one by one.
abbrev insert_all : IdMap Unit → IdMap Unit → IdMap Unit
insert_all acc [] = acc
insert_all acc ((k, xs) ∷ m) = insert_all (BTree.insert k xs acc) m

abbrev or_old : Option (List (Entry Unit)) → Option (List (Entry Unit)) → Option (List (Entry Unit))
or_old none y = y
or_old (some x) y = some x

insert_all-IsSorted : (acc m : IdMap Unit) → IsSorted 0 acc → IsSorted 0 (insert_all acc m)
insert_all-IsSorted acc [] s = s
insert_all-IsSorted acc ((k, xs) ∷ m) s =
    insert_all-IsSorted (BTree.insert k xs acc) m (insert-IsSorted acc 0 k xs (omega arith) s)

get-insert_all :
    (acc m : IdMap Unit) (lo j : ℕ)
    → IsSorted 0 acc
    → IsSorted lo m
    → get j (insert_all acc m) ≡ or_old (get j m) (get j acc)
unfolding get
get-insert_all acc [] lo j s u = refl
get-insert_all acc ((k, xs) ∷ m) lo j s u =
    let ih =
      get-insert_all (BTree.insert k xs acc) m (suc k) j
        (insert-IsSorted acc 0 k xs (omega arith) s) u.1 in
    elim (Bool-cases (k == j)) [
      | inl e ↦
          let same = (==_iff k j).0 e in
          let gone : get j m ≡ none = get-IsSorted m (suc k) j u.1 (omega (arith, same)) in
          let new : get j (BTree.insert k xs acc) ≡ some xs =
            rw (get-insert acc 0 k j xs s, e) refl in
          rw (ih, gone, new, e) refl
      | inr e ↦
          let old : get j (BTree.insert k xs acc) ≡ get j acc =
            rw (get-insert acc 0 k j xs s, e) refl in
          rw (ih, old, e) refl
    ]

insert_all_lem : (m : IdMap Unit) → IsSorted 0 m → insert_all [] m ≡ m
unfolding get
insert_all_lem m s =
    sorted_unique (insert_all [] m) m 0 0 (insert_all-IsSorted [] m tt) s
      (λ j. get-insert_all [] m 0 j tt s ∙ same (get j m))
  where
    same : (o : Option (List (Entry Unit))) → or_old o none ≡ o
    same none = refl
    same (some x) = refl

decode_clients-encode_clients :
    (m acc : IdMap Unit) (rest : List ℕ)
    → SetFits m
    → decode_clients (length m) acc (encode_clients m ++ rest) ≡ ok (insert_all acc m, rest)
unfolding decode_clients encode_clients
decode_clients-encode_clients [] acc rest f = refl
decode_clients-encode_clients ((k, xs) ∷ m) acc rest f =
    let tail = encode_clients m ++ rest in
    rw
      (
        append_assoc (write_var_u64 k) (encode_ranges xs ++ encode_clients m) rest,
        append_assoc (encode_ranges xs) (encode_clients m) rest,
        read_client-write_var_u64 k (encode_ranges xs ++ tail) f.0,
        decode_ranges-encode_ranges xs tail f.1 f.2,
      )
      (decode_clients-encode_clients m (BTree.insert k xs acc) rest f.3)

-- In the first version of the encoding, a set with its clients in order, clients of 53 bits,
-- counts and clocks of 32 bits and no empty range is decoded from what its encoding wrote, and the
-- bytes behind it are left.
pub decode_set-encode_set :
    (m : IdMap Unit) (rest : List ℕ)
    → IsSorted 0 m
    → SetFits m
    → length m < 2 ^ 32
    → decode_set (encode_set m ++ rest) ≡ ok (m, rest)
unfolding decode_set encode_set
decode_set-encode_set m rest s f h =
    rw
      (
        append_assoc (write_var_u32 (length m)) (encode_clients m) rest,
        read_var_u32-write_var_u32 (length m) (encode_clients m ++ rest) h,
      )
      (decode_clients-encode_clients m [] rest f
        ∙ ap (λ (r : IdMap Unit). ok (r, rest)) (insert_all_lem m s))
