-- ===== src/Codec/Varint.antt =====
-- Variable-length integers: `quic_put_var` against `quic_get_var`.
use Prim.Native.Nat.{bit_or}
use native.Mathlib.Nat.{mod-eq_of_lt, div-eq_of_lt, div-lt_iff_lt-mul, one-le-pow}
use quic.Prelude.{
  ℕ, zero, suc, ◌+◌, ◌*◌, ◌/◌, ◌%◌, ◌^◌, ◌<◌, ◌≤◌, ◌≡◌, refl, ◌∙◌, ap, ◌↔◌, inl, inr, List, [], ◌∷◌,
  ◌++◌, none, some, length, length-append, take, drop, All, ltb, leb, arith, Bool-cases, tests,
  length-drop, ltb→lt, ltb→le, lt→ltb, ◌≢◌,
}
use quic.Prelude.Bits.{bit_and_mask, or_40, or_80, or_c0}
use quic.Codec.{
  IsByte, be_value, be_bytes, or_first, var_len, varint_length, get_var_switch, get_var, put_var,
  varint_1byte_max, varint_2byte_max, varint_4byte_max,
}
use quic.Codec.BigEndian.{be_value-or_first, take-be_bytes, drop-be_bytes, length-be_bytes}

-- What the first byte says of the length, for a number written in `suc w` bytes.
module _ (w n prefix : ℕ) (rest : List ℕ) where
  take-or_first :
      take (suc w) (or_first (be_bytes (suc w) n) prefix ++ rest)
      ≡ or_first (be_bytes (suc w) n) prefix
  unfolding be_bytes
  take-or_first = ap (λ bs. bit_or (n / 256 ^ w % 256) prefix ∷ bs) (take-be_bytes w n rest)

  drop-or_first : drop (suc w) (or_first (be_bytes (suc w) n) prefix ++ rest) ≡ rest
  unfolding be_bytes
  drop-or_first = drop-be_bytes w n rest

-- On a buffer whose first byte announces `len` bytes that are there, the `switch` runs.
pub get_var_enough :
    (b : ℕ) (bs : List ℕ) (len : ℕ)
    → varint_length b ≡ len
    → len ≤ length (b ∷ bs)
    → get_var (b ∷ bs) ≡ get_var_switch len (b ∷ bs)
unfolding get_var
get_var_enough b bs len e h = rw e (ground arith)

first_byte : (q k : ℕ) → q < 64 → k < 4 → (q + k * 64) / 64 ≡ k
first_byte q k hq hk = omega arith

-- A number behind the prefix `k` is read by the branch of its own length.
get_var-prefixed :
    (w k n : ℕ)
    → ((b : ℕ) → b < 64 → bit_or b (k * 64) ≡ b + k * 64)
    → n < 64 * 256 ^ w
    → k < 4
    → 2 ^ k ≡ suc w
    → (rest : List ℕ)
    → get_var (or_first (be_bytes (suc w) n) (k * 64) ++ rest)
      ≡ get_var_switch (suc w) (or_first (be_bytes (suc w) n) (k * 64) ++ rest)
unfolding be_bytes
get_var-prefixed w k n law h hk e rest =
    get_var_enough _ _ (suc w) (rw (top_byte, first_byte (n / 256 ^ w) k small hk) e)
      (omega (arith, length-append (be_bytes w n) rest, length-be_bytes w n))
  where
    small : n / 256 ^ w < 64
    small = (div-lt_iff_lt-mul (one-le-pow w 256 (omega arith))).1 h

    top_byte : bit_or (n / 256 ^ w % 256) (k * 64) ≡ n / 256 ^ w + k * 64
    top_byte =
        rw (mod-eq_of_lt {n = n / 256 ^ w} {m = 256} (omega (arith, small)))
          (law (n / 256 ^ w) small)

get_var-put_1 : (n : ℕ) (rest : List ℕ) → n < 64 → get_var (n ∷ rest) ≡ some (1, n, rest)
unfolding get_var_switch be_value
get_var-put_1 n rest h =
    get_var_enough n rest 1 (ap (λ (k : ℕ). 2 ^ k) (div-eq_of_lt h)) (omega arith) ∙ ground arith

get_var-put_2 :
    (n : ℕ) (rest : List ℕ)
    → n < 2 ^ 14
    → get_var (or_first (be_bytes 2 n) 0x40 ++ rest) ≡ some (2, n, rest)
unfolding get_var_switch
get_var-put_2 n rest h =
    get_var-prefixed 1 1 n or_40 h (omega arith) refl rest
    ∙ rw
        (
          take-or_first 1 n 0x40 rest,
          drop-or_first 1 n 0x40 rest,
          be_value-or_first 1 n 0x40 or_40 h,
        )
        (ap (λ v. some (2, v, rest)) (bit_and_mask 14 (0x40 * 256 ^ 1 + n) ∙ omega arith))

get_var-put_4 :
    (n : ℕ) (rest : List ℕ)
    → n < 2 ^ 30
    → get_var (or_first (be_bytes 4 n) 0x80 ++ rest) ≡ some (4, n, rest)
unfolding get_var_switch
get_var-put_4 n rest h =
    get_var-prefixed 3 2 n or_80 h (omega arith) refl rest
    ∙ rw
        (
          take-or_first 3 n 0x80 rest,
          drop-or_first 3 n 0x80 rest,
          be_value-or_first 3 n 0x80 or_80 h,
        )
        (ap (λ v. some (4, v, rest)) (bit_and_mask 30 (0x80 * 256 ^ 3 + n) ∙ omega arith))

get_var-put_8 :
    (n : ℕ) (rest : List ℕ)
    → n < 2 ^ 62
    → get_var (or_first (be_bytes 8 n) 0xc0 ++ rest) ≡ some (8, n, rest)
unfolding get_var_switch
get_var-put_8 n rest h =
    get_var-prefixed 7 3 n or_c0 h (omega arith) refl rest
    ∙ rw
        (
          take-or_first 7 n 0xc0 rest,
          drop-or_first 7 n 0xc0 rest,
          be_value-or_first 7 n 0xc0 or_c0 h,
        )
        (ap (λ v. some (8, v, rest)) (bit_and_mask 62 (0xc0 * 256 ^ 7 + n) ∙ omega arith))

-- What `quic_put_var` writes for a value of at most 62 bits, `quic_get_var` reads back, with the
-- length that `quic_var_len` foretells, and it leaves whatever follows.
pub get_var-put_var :
    (n : ℕ) (rest : List ℕ) → n < 2 ^ 62 → get_var (put_var n ++ rest) ≡ some (var_len n, n, rest)
unfolding put_var var_len
get_var-put_var n rest h = elim (Bool-cases (leb n varint_1byte_max)) [
  | inl e ↦
      rw (e, mod-eq_of_lt {n = n} {m = 2 ^ 8} (omega tests)) (get_var-put_1 n rest (omega tests))
  | inr e ↦ elim (Bool-cases (leb n varint_2byte_max)) [
    | inl e2 ↦
        rw (e, e2, mod-eq_of_lt {n = n} {m = 2 ^ 16} (omega tests))
          (get_var-put_2 n rest (omega tests))
    | inr e2 ↦ elim (Bool-cases (leb n varint_4byte_max)) [
      | inl e4 ↦
          rw (e, e2, e4, mod-eq_of_lt {n = n} {m = 2 ^ 32} (omega tests))
            (get_var-put_4 n rest (omega tests))
      | inr e4 ↦ rw (e, e2, e4) (get_var-put_8 n rest h)
    ]
  ]
]

pub length-put_var : (n : ℕ) → length (put_var n) ≡ var_len n
unfolding put_var var_len be_bytes
length-put_var n = ground arith

-- The `switch`, by the two bits that announce the length.
get_var_switch_bounds :
    (b : ℕ) (bs : List ℕ) (k len n : ℕ) (rest : List ℕ)
    → k < 4
    → b / 64 ≡ k
    → get_var_switch (2 ^ k) (b ∷ bs) ≡ some (len, n, rest)
    → (n < 2 ^ 62) × (var_len n ≤ len) × (len ≡ 2 ^ k) × (rest ≡ drop (2 ^ k) (b ∷ bs))
unfolding get_var_switch var_len be_value
get_var_switch_bounds b bs zero len n rest hk eb h = ground arith
get_var_switch_bounds b bs (suc zero) len n rest hk eb h =
    ground (arith, bit_and_mask 14 (be_value 0 (take 2 (b ∷ bs))))
get_var_switch_bounds b bs (suc (suc zero)) len n rest hk eb h =
    ground (arith, bit_and_mask 30 (be_value 0 (take 4 (b ∷ bs))))
get_var_switch_bounds b bs (suc (suc (suc zero))) len n rest hk eb h =
    ground (arith, bit_and_mask 62 (be_value 0 (take 8 (b ∷ bs))))
get_var_switch_bounds b bs (suc (suc (suc (suc k)))) len n rest hk eb h = absurd (omega arith)

get_var_switch-ne-none : (p : List ℕ) (k : ℕ) → k < 4 → get_var_switch (2 ^ k) p ≢ none
unfolding get_var_switch
get_var_switch-ne-none p zero hk h = cc
get_var_switch-ne-none p (suc zero) hk h = cc
get_var_switch-ne-none p (suc (suc zero)) hk h = cc
get_var_switch-ne-none p (suc (suc (suc zero))) hk h = cc
get_var_switch-ne-none p (suc (suc (suc (suc k)))) hk h = absurd (omega arith)

-- A successful read gives a 62-bit value, in no fewer bytes than `quic_var_len` says it needs, and
-- consumes exactly the length that it returns.
pub get_var_bounds :
    (p : List ℕ) (len n : ℕ) (rest : List ℕ)
    → All IsByte p
    → get_var p ≡ some (len, n, rest)
    → (n < 2 ^ 62) × (var_len n ≤ len) × (length p ≡ len + length rest)
unfolding get_var
get_var_bounds [] len n rest hp h = cc
get_var_bounds (b ∷ bs) len n rest (hb, hbs) h =
    elim (Bool-cases (ltb (length (b ∷ bs)) (varint_length b))) [
      | inl short ↦ cc (rw short at h)
      | inr enough ↦
          let (small, fits, whole, behind) =
            get_var_switch_bounds b bs (b / 64) len n rest (omega arith) refl (rw enough at h) in
          (
            small,
            fits,
            omega (
              arith,
              whole,
              ap length behind,
              length-drop (varint_length b) (b ∷ bs),
              ltb→le _ _ enough,
            ),
          )
    ]

-- A read fails exactly if the buffer is shorter than its first byte announces.
get_var_fails :
    (b : ℕ) (bs : List ℕ)
    → b < 256
    → (get_var (b ∷ bs) ≡ none) ↔ (length (b ∷ bs) < varint_length b)
unfolding get_var
get_var_fails b bs h = (
  λ failed. elim (Bool-cases (ltb (length (b ∷ bs)) (varint_length b))) [
    | inl short ↦ ltb→lt _ _ short
    | inr enough ↦
        absurd (get_var_switch-ne-none (b ∷ bs) (b / 64) (omega arith) (rw enough at failed))
  ],
  λ short. rw (lt→ltb _ _ short),
)
