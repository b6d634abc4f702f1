-- ===== src/Encoding/Client.antt =====
-- `ClientID::new` of yrs/src/block.rs, without the feature `small-client`, on a number that was read:
-- the assertion that the number has 53 bits is checked, as in a build with debug assertions. A client
-- is the number that `ClientID::get` gives back.
use y_crdt.Common.{ℕ, ◌^◌, ◌<◌, ◌≡◌, refl, true, List, ◌++◌, ltb, if◌then◌else◌, arith, tests}
use y_crdt.Encoding.{Result, ok, panic, ◌>>=◌}
use y_crdt.Encoding.VarInt.{write_var_u64, read_var_u64}
use y_crdt.Encoding.VarInt.RoundTrip.{read_var_u64-write_var_u64}

unfoldable pub new_client : ℕ → Result ℕ
new_client value = if ltb value (2 ^ 53) then ok value else panic

-- `ClientID::new(decoder.read_var()?)`
unfoldable pub read_client : List ℕ → Result (ℕ × List ℕ)
read_client bytes =
    read_var_u64 bytes >>= (λ (value, rest). new_client value >>= (λ client. ok (client, rest)))

pub read_client-write_var_u64 :
    (client : ℕ) (rest : List ℕ)
    → client < 2 ^ 53
    → read_client (write_var_u64 client ++ rest) ≡ ok (client, rest)
unfolding read_client new_client
read_client-write_var_u64 client rest h =
    let fits : ltb client (2 ^ 53) ≡ true = omega tests in
    rw (read_var_u64-write_var_u64 client rest (omega arith), fits) refl
