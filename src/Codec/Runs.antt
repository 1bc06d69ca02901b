-- ===== src/Codec/Runs.antt =====
-- Runs of the coding functions on the examples of RFC 9000, and the theorems applied to bytes.
use quic.Prelude.{ℕ, ◌*◌, ◌%◌, ◌^◌, ◌≡◌, refl, some, List, [], ◌∷◌, ◌++◌, arith}
use quic.Codec.{get_var, put_var, var_len, get_var_switch, put_int, get_num, be_value, be_bytes}
use quic.Codec.Varint.{get_var-put_var}
use quic.Codec.PacketNumber.{get_num-truncated}

-- RFC 9000, A.1.
abbrev two_bytes : List ℕ
two_bytes = 0x7b ∷ 0xbd ∷ []

get_var-two_bytes : get_var two_bytes ≡ some (2, 15293, [])
unfolding get_var get_var_switch be_value
get_var-two_bytes = refl

-- RFC 9000, A.3.
get_num_rfc : get_num 0xa82f30ea 0x9b32 2 ≡ 0xa82f9b32
unfolding get_num
get_num_rfc = refl

get_var-put_var_example : get_var (put_var 15293 ++ (7 ∷ [])) ≡ some (var_len 15293, 15293, 7 ∷ [])
get_var-put_var_example = get_var-put_var 15293 (7 ∷ []) (omega arith)

put_two : put_int 258 2 ≡ some (1 ∷ 2 ∷ [])
unfolding put_int be_bytes
put_two = refl

get_num-truncated_example : get_num 0xa82f30ea (0xa82f9b32 % 2 ^ (2 * 8)) 2 ≡ 0xa82f9b32
get_num-truncated_example =
    get_num-truncated 2 0xa82f30ea 0xa82f9b32 (omega arith) (omega arith) (omega arith)
      (omega arith) (omega arith)
