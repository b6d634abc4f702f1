-- ===== src/StateVector/Codec.antt =====
-- yrs/src/state_vector.rs: `Encode` and `Decode` of a state vector, with the numbers of the first
-- version of the encoding. Running out of memory in `try_reserve` is not modelled.
use y_crdt.Common.{
  ℕ, zero, suc, ◌^◌, ◌<◌, ◌≡◌, refl, ◌∙◌, List, [], ◌∷◌, ◌++◌, append_assoc, length,
}
use y_crdt.Encoding.{Result, ok, ◌>>=◌}
use y_crdt.Encoding.Client.{read_client, read_client-write_var_u64}
use y_crdt.Encoding.VarInt.{write_var_u64, write_var_u32, read_var_u32}
use y_crdt.Encoding.VarInt.RoundTrip.{read_var_u32-write_var_u32}
use y_crdt.BTree.{get}
use y_crdt.StateVector.{StateVector}
use y_crdt.HashMap.{put, IsUnique, add_all, get-add_all, or_old-none, add_all-append}
use y_crdt.Encoding.Buffers.{read_var_u32-write_var_u64}

unfoldable pub encode_entries : StateVector → List ℕ
encode_entries [] = []
encode_entries ((client, clock) ∷ sv) =
    write_var_u64 client ++ (write_var_u32 clock ++ encode_entries sv)

unfoldable pub encode : StateVector → List ℕ
encode sv = write_var_u64 (length sv) ++ encode_entries sv

-- `while i < len`, on the number of rounds that are left.
unfoldable pub decode_loop : ℕ → StateVector → List ℕ → Result (StateVector × List ℕ)
decode_loop zero sv bytes = ok (sv, bytes)
decode_loop (suc n) sv bytes =
    read_client bytes >>= (λ c. read_var_u32 c.1 >>= (λ d. decode_loop n (put c.0 d.0 sv) d.1))

unfoldable pub decode : List ℕ → Result (StateVector × List ℕ)
decode bytes = read_var_u32 bytes >>= (λ l. decode_loop l.0 [] l.1)

-- Clients of 53 bits and clocks of 32.
abbrev pub AllFit : StateVector → Type 0
AllFit [] = Unit
AllFit ((k, v) ∷ sv) = (k < 2 ^ 53) × (v < 2 ^ 32) × AllFit sv

decode_loop-encode_entries :
    (sv acc : StateVector) (rest : List ℕ)
    → AllFit sv
    → decode_loop (length sv) acc (encode_entries sv ++ rest) ≡ ok (add_all acc sv, rest)
unfolding decode_loop encode_entries
decode_loop-encode_entries [] acc rest f = refl
decode_loop-encode_entries ((k, v) ∷ sv) acc rest f =
    let tail = encode_entries sv ++ rest in
    rw
      (
        append_assoc (write_var_u64 k) (write_var_u32 v ++ encode_entries sv) rest,
        append_assoc (write_var_u32 v) (encode_entries sv) rest,
        read_client-write_var_u64 k (write_var_u32 v ++ tail) f.0,
        read_var_u32-write_var_u32 v tail f.1,
      )
      (decode_loop-encode_entries sv (put k v acc) rest f.2)

-- A state vector that lists every client once, with clients of 53 bits, clocks of 32 and fewer
-- than 2 ^ 32 entries, is decoded from what encode wrote to a vector with the same clock for every
-- client, and the bytes behind it are left.
pub decode-encode :
    (sv : StateVector) (rest : List ℕ)
    → IsUnique sv
    → AllFit sv
    → length sv < 2 ^ 32
    → (decoded : StateVector) × (decode (encode sv ++ rest) ≡ ok (decoded, rest))
      × ((client : ℕ) → get client decoded ≡ get client sv)
unfolding decode encode get
decode-encode sv rest u f h = (
  add_all [] sv,
  rw
      (
        append_assoc (write_var_u64 (length sv)) (encode_entries sv) rest,
        read_var_u32-write_var_u64 (length sv) (encode_entries sv ++ rest) h,
      )
      (decode_loop-encode_entries sv [] rest f),
  λ j. get-add_all [] sv j u ∙ or_old-none (get j sv),
)

-- The entries come back in their order.
pub decode-encode_exact :
    (sv : StateVector) (rest : List ℕ)
    → IsUnique sv
    → AllFit sv
    → length sv < 2 ^ 32
    → decode (encode sv ++ rest) ≡ ok (sv, rest)
unfolding decode encode
decode-encode_exact sv rest u f h =
    rw
      (
        append_assoc (write_var_u64 (length sv)) (encode_entries sv) rest,
        read_var_u32-write_var_u64 (length sv) (encode_entries sv ++ rest) h,
        decode_loop-encode_entries sv [] rest f,
        add_all-append [] sv u,
      )
      refl
