-- ===== src/Examples/Numbers.antt =====
-- Numbers of variable length at concrete inputs.
use y_crdt.Encoding.{ok, err, end_of_buffer, ◌>>=◌}
use y_crdt.Encoding.VarInt.Signed.{negsuc, read_var_i64, write_var_i64}
use y_crdt.Encoding.VarInt.{write_loop, write_var_u64, read_var_u64}
use y_crdt.Common.{◌≡◌, refl, [], ◌∷◌, ◌++◌, take, arith}
use y_crdt.Encoding.VarInt.RoundTrip.{read_var_u64-write_var_u64, read_var_u64-cut}
use y_crdt.Encoding.VarInt.Signed.Correct.{read_var_i64-write_var_i64}

two_bytes : write_var_u64 300 ≡ 172 ∷ 2 ∷ []
unfolding write_var_u64 write_loop
two_bytes = refl

read_var_u64-write_var_u64_example : read_var_u64 (write_var_u64 300 ++ (9 ∷ [])) ≡ ok (300, 9 ∷ [])
read_var_u64-write_var_u64_example = read_var_u64-write_var_u64 300 (9 ∷ []) (omega arith)

read_var_u64-cut_example : read_var_u64 (take 1 (write_var_u64 300)) ≡ err (end_of_buffer 1)
unfolding write_var_u64 write_loop
read_var_u64-cut_example = read_var_u64-cut 300 1 (omega arith) (omega arith)

read_var_i64-write_var_i64_example :
    (write_var_i64 (negsuc 99) >>= (λ bytes. read_var_i64 (bytes ++ (9 ∷ []))))
    ≡ ok (negsuc 99, 9 ∷ [])
read_var_i64-write_var_i64_example = read_var_i64-write_var_i64 (negsuc 99) (9 ∷ []) refl
