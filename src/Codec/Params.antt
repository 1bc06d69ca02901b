-- ===== src/Codec/Params.antt =====
-- Fixed-length integers and transport parameters.
use native.Mathlib.Nat.{mod-eq_of_lt}
use quic.Prelude.{
  ℕ, ◌^◌, ◌%◌, ◌<◌, ◌≡◌, refl, ◌∙◌, ap, ◌⊎◌, inl, inr, List, [], ◌∷◌, ◌++◌, some, length-append,
  arith,
}
use quic.Codec.{
  be_bytes, var_len, get_var, put_var, get_int, put_int, get_param, get_param_value, put_param,
}
use quic.Codec.BigEndian.{be_value-be_bytes, take-be_bytes, drop-be_bytes, length-be_bytes}
use quic.Codec.Varint.{get_var-put_var, length-put_var}
use mathlib.Core.List.{append_assoc}

get_int-be_bytes :
    (w n : ℕ) (rest : List ℕ)
    → (w ≡ 1) ⊎ (w ≡ 2) ⊎ (w ≡ 3) ⊎ (w ≡ 4) ⊎ (w ≡ 8)
    → get_int (be_bytes w n ++ rest) w ≡ some (n % 256 ^ w, rest)
unfolding get_int
get_int-be_bytes w n rest hw = ground (
  arith,
  length-append (be_bytes w n) rest,
  length-be_bytes w n,
  take-be_bytes w n rest,
  drop-be_bytes w n rest,
  be_value-be_bytes w n 0,
)

-- The four lengths that `quic_put_int` takes, and what it writes for each.
put_int_cases :
    (n w : ℕ) (bytes : List ℕ)
    → put_int n w ≡ some bytes
    → ((w ≡ 1) × (bytes ≡ (n % 2 ^ 8) ∷ []))
      ⊎ ((w ≡ 2) × (bytes ≡ be_bytes 2 (n % 2 ^ 16)))
      ⊎ ((w ≡ 4) × (bytes ≡ be_bytes 4 (n % 2 ^ 32)))
      ⊎ ((w ≡ 8) × (bytes ≡ be_bytes 8 n))
unfolding put_int
put_int_cases n w bytes e = ground arith

one_byte : (n : ℕ) → n < 2 ^ 8 → (n % 2 ^ 8) ∷ [] ≡ be_bytes 1 n
unfolding be_bytes
one_byte n h = ap (λ (b : ℕ). b ∷ []) (omega arith)

-- A number that `quic_put_int` wrote in a supported length that it fits is read back by
-- `quic_get_int` with the same length, and what follows is left.
pub get_int-put_int :
    (n w : ℕ) (bytes rest : List ℕ)
    → put_int n w ≡ some bytes
    → n < 256 ^ w
    → get_int (bytes ++ rest) w ≡ some (n, rest)
get_int-put_int n w bytes rest e h = read (put_int_cases n w bytes e)
  where
    read_back :
        (k : ℕ)
        → w ≡ k
        → (k ≡ 1) ⊎ (k ≡ 2) ⊎ (k ≡ 3) ⊎ (k ≡ 4) ⊎ (k ≡ 8)
        → bytes ≡ be_bytes k n
        → get_int (bytes ++ rest) w ≡ some (n, rest)
    read_back k p known written =
        rw (p, written, get_int-be_bytes k n rest known, mod-eq_of_lt (rw p at h))

    read :
        ((w ≡ 1) × (bytes ≡ (n % 2 ^ 8) ∷ []))
          ⊎ ((w ≡ 2) × (bytes ≡ be_bytes 2 (n % 2 ^ 16)))
          ⊎ ((w ≡ 4) × (bytes ≡ be_bytes 4 (n % 2 ^ 32)))
          ⊎ ((w ≡ 8) × (bytes ≡ be_bytes 8 n))
        → get_int (bytes ++ rest) w ≡ some (n, rest)
    read (inl (p, q)) = read_back 1 p (inl refl) (q ∙ one_byte n (rw p at h))
    read (inr (inl (p, q))) =
        read_back 2 p (inr (inl refl)) (q ∙ ap (be_bytes 2) (mod-eq_of_lt (rw p at h)))
    read (inr (inr (inl (p, q)))) =
        read_back 4 p (inr (inr (inr (inl refl)))) (q ∙ ap (be_bytes 4) (mod-eq_of_lt (rw p at h)))
    read (inr (inr (inr (p, q)))) = read_back 8 p (inr (inr (inr (inr refl)))) q

var_len-lt : (n : ℕ) → (var_len n < 256) × (var_len n < 2 ^ 62)
unfolding var_len
var_len-lt n = ground arith

-- The value, below 2 ^ 62, of a transport parameter that `quic_put_param` wrote is read back behind its
-- 16-bit identifier, and exactly the bytes behind it are left.
pub get_param-put_param :
    (id value : ℕ) (rest : List ℕ)
    → id < 2 ^ 16
    → value < 2 ^ 62
    → (tail : List ℕ) × (get_var (put_param id value ++ rest) ≡ some (var_len id, id, tail))
      × (get_param tail ≡ record { ret = var_len value; dest = some value; rest = rest })
unfolding put_param get_param get_param_value
get_param-put_param id value rest hid hv = (
  put_var (var_len value) ++ (put_var value ++ rest),
  rw (append_assoc, append_assoc) (get_var-put_var id _ (omega arith)),
  ground (
    arith,
    get_var-put_var (var_len value) (put_var value ++ rest),
    get_var-put_var value rest hv,
    length-append (put_var value) rest,
    length-put_var value,
    var_len-lt value,
  ),
)
