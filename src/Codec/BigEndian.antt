-- ===== src/Codec/BigEndian.antt =====
-- Big-endian numbers: reading back what was written, and the sizes.
use Prim.Native.Nat.{bit_or}
use mathlib.Core.Path.{ap}
use native.Mathlib.Nat.{
  pow-suc, div-add-mod, div-div-eq-div-mul, div-lt_iff_lt-mul, mod-eq_of_lt, one-le-pow,
  mul-le-mul_right,
}
use quic.Prelude.{
  ℕ, zero, suc, ◌+◌, ◌*◌, ◌/◌, ◌%◌, ◌^◌, ◌<◌, ◌≡◌, refl, ◌∙◌, List, [], ◌∷◌, ◌++◌, length, take,
  drop, All, arith,
}
use quic.Codec.{be_value, be_bytes, or_first, IsByte}

pub length-be_bytes : (w n : ℕ) → length (be_bytes w n) ≡ w
unfolding be_bytes
length-be_bytes zero n = refl
length-be_bytes (suc w) n = ap suc (length-be_bytes w n)

-- The number formed by the digits of one more byte.
split_top : (a n p : ℕ) → (a * 256 + n / p % 256) * p + n % p ≡ a * (256 * p) + n % (p * 256)
split_top a n p = omega (
  arith,
  div-add-mod n p,
  div-add-mod n (p * 256),
  div-div-eq-div-mul n p 256,
  ap (λ (t : ℕ). p * t) (div-add-mod (n / p) 256),
  ap (λ (t : ℕ). p * 256 * t) (div-div-eq-div-mul n p 256),
)

pub be_value-be_bytes : (w n acc : ℕ) → be_value acc (be_bytes w n) ≡ acc * 256 ^ w + n % 256 ^ w
unfolding be_value be_bytes
be_value-be_bytes zero n acc = omega arith
be_value-be_bytes (suc w) n acc =
    be_value-be_bytes w n (acc * 256 + n / 256 ^ w % 256)
    ∙ rw (pow-suc 256 w) (omega (arith, split_top acc n (256 ^ w)))

pub take-be_bytes : (w n : ℕ) (rest : List ℕ) → take w (be_bytes w n ++ rest) ≡ be_bytes w n
unfolding be_bytes
take-be_bytes zero n rest = refl
take-be_bytes (suc w) n rest = ap (λ bs. (n / 256 ^ w % 256) ∷ bs) (take-be_bytes w n rest)

pub drop-be_bytes : (w n : ℕ) (rest : List ℕ) → drop w (be_bytes w n ++ rest) ≡ rest
unfolding be_bytes
drop-be_bytes zero n rest = refl
drop-be_bytes (suc w) n rest = drop-be_bytes w n rest

-- A prefix in the two top bits of the first byte of a number that leaves them free.
pub be_value-or_first :
    (w n prefix : ℕ)
    → ((b : ℕ) → b < 64 → bit_or b prefix ≡ b + prefix)
    → n < 64 * 256 ^ w
    → be_value 0 (or_first (be_bytes (suc w) n) prefix) ≡ prefix * 256 ^ w + n
unfolding be_value be_bytes
be_value-or_first w n prefix law h =
    let q = n / 256 ^ w in
    let small : q < 64 = (div-lt_iff_lt-mul (one-le-pow w 256 (omega arith))).1 h in
    let or_eq : bit_or (q % 256) prefix ≡ q + prefix =
      rw (mod-eq_of_lt (lt_trans' small)) (law q small) in
    be_value-be_bytes w n (0 * 256 + bit_or (q % 256) prefix)
    ∙ rw or_eq (omega (arith, div-add-mod n (256 ^ w)))
  where
    lt_trans' : {q : ℕ} → q < 64 → q < 256
    lt_trans' h = omega arith

pub be_bytes-IsBytes : (w n : ℕ) → All IsByte (be_bytes w n)
unfolding be_bytes
be_bytes-IsBytes zero n = tt
be_bytes-IsBytes (suc w) n = (omega arith, be_bytes-IsBytes w n)

-- What `w` bytes can express.
pub be_value-lt :
    (bs : List ℕ) (acc : ℕ) → All IsByte bs → be_value acc bs < (acc + 1) * 256 ^ length bs
unfolding be_value
be_value-lt [] acc h = omega arith
be_value-lt (b ∷ bs) acc (hb, h) =
    let scaled = mul-le-mul_right (256 ^ length bs) hb in
    rw (pow-suc 256 (length bs)) (omega (arith, scaled, be_value-lt bs (acc * 256 + b) h))
