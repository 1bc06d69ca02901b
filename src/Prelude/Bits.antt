-- ===== src/Prelude/Bits.antt =====
-- `|` of disjoint fields and `&` with a low mask as arithmetic, at every width.
use Prim.Native.Nat.{bit_and, bit_or, digits, bit_and-bitwise, bit_or-bitwise}
use mathlib.Core.Path.{ap}
use native.Mathlib.Nat.{pow-suc, one-le-pow}
use quic.Prelude.{
  ℕ, zero, suc, ◌+◌, ◌-◌, ◌/◌, ◌*◌, ◌%◌, ◌^◌, ◌≤◌, ◌<◌, min, max, ◌≡◌, refl, Bool, true, ◌&&◌, ◌==◌,
  arith,
}

-- The digit recursion gives one value for every fuel that is enough.
module _ (z : ℕ → ℕ) (f : ℕ → ℕ → ℕ) where
  digits_enough : (n m a b : ℕ) → a ≤ n → a ≤ m → digits z f n a b ≡ digits z f m a b
  digits_enough zero zero a b p q = refl
  digits_enough zero (suc m) zero b p q = refl
  digits_enough zero (suc m) (suc a) b p q = absurd (omega arith)
  digits_enough (suc n) zero zero b p q = refl
  digits_enough (suc n) zero (suc a) b p q = absurd (omega arith)
  digits_enough (suc n) (suc m) zero b p q = refl
  digits_enough (suc n) (suc m) (suc a) b p q =
      omega (arith, digits_enough n m (suc a / 2) (b / 2) (omega arith) (omega arith))

or_nothing : (b : ℕ) → bit_or 0 b ≡ b
or_nothing b = bit_or-bitwise 0 b

and_nothing : (b : ℕ) → bit_and 0 b ≡ 0
and_nothing b = bit_and-bitwise 0 b

-- The lowest digit apart from the rest.
or_halves : (x y : ℕ) → bit_or x y ≡ max (x % 2) (y % 2) + 2 * bit_or (x / 2) (y / 2)
or_halves zero y = omega (arith, or_nothing y, or_nothing (y / 2))
or_halves (suc x) y =
    let whole = bit_or-bitwise (suc x) y in
    let half = bit_or-bitwise (suc x / 2) (y / 2) in
    let same =
      digits_enough (λ c. c) max x (suc x / 2) (suc x / 2) (y / 2) (omega arith) (omega arith) in
    omega (arith, same, whole, half)

and_halves : (x y : ℕ) → bit_and x y ≡ min (x % 2) (y % 2) + 2 * bit_and (x / 2) (y / 2)
and_halves zero y = omega (arith, and_nothing y, and_nothing (y / 2))
and_halves (suc x) y =
    let whole = bit_and-bitwise (suc x) y in
    let half = bit_and-bitwise (suc x / 2) (y / 2) in
    let same =
      digits_enough (λ _. zero) min x (suc x / 2) (suc x / 2) (y / 2) (omega arith) (omega arith) in
    omega (arith, same, whole, half)

-- Both laws with 0 on the right, by halving.
right_zero : (bound x : ℕ) → x ≤ bound → (bit_or x 0 ≡ x) × (bit_and x 0 ≡ 0)
right_zero bound zero h = (or_nothing 0, and_nothing 0)
right_zero zero (suc x) h = absurd (omega arith)
right_zero (suc bound) (suc x) h =
    let (at_or, at_and) = right_zero bound (suc x / 2) (omega arith) in
    (omega (arith, or_halves (suc x) 0, at_or), omega (arith, and_halves (suc x) 0, at_and))

double_pow : (q k : ℕ) → q * 2 ^ suc k ≡ 2 * (q * 2 ^ k)
double_pow q k = omega (arith, ap (λ (t : ℕ). q * t) (pow-suc 2 k))

-- A field above bit `k` or-ed with one below it is their sum.
pub bit_or_disjoint : (k q r : ℕ) → r < 2 ^ k → bit_or (q * 2 ^ k) r ≡ q * 2 ^ k + r
bit_or_disjoint zero q r h = ground (arith, (right_zero q q (omega arith)).0)
bit_or_disjoint (suc k) q r h =
    ground (
      arith,
      or_halves (q * 2 ^ suc k) r,
      double_pow q k,
      bit_or_disjoint k q (r / 2) (omega arith),
    )

bit_and_field : (k q r : ℕ) → r < 2 ^ k → bit_and (q * 2 ^ k + r) (2 ^ k - 1) ≡ r
bit_and_field zero q r h = omega (arith, (right_zero (q * 1 + r) (q * 1 + r) (omega arith)).1)
bit_and_field (suc k) q r h = ground (
  arith,
  and_halves (q * 2 ^ suc k + r) (2 ^ suc k - 1),
  double_pow q k,
  pow-suc 2 k,
  one-le-pow k 2,
  bit_and_field k q (r / 2) (omega arith),
)

-- A mask of `k` low bits is the remainder by `2 ^ k`.
pub bit_and_mask : (k a : ℕ) → bit_and a (2 ^ k - 1) ≡ a % 2 ^ k
bit_and_mask k a = ground (arith, one-le-pow k 2, bit_and_field k (a / 2 ^ k) (a % 2 ^ k))

-- Over a small range a law is checked at every value.
agree_below : (f g : ℕ → ℕ) → ℕ → Bool
agree_below f g zero = true
agree_below f g (suc n) = (f n == g n) && agree_below f g n

agree_below→eq : (f g : ℕ → ℕ) (n : ℕ) → agree_below f g n ≡ true → (i : ℕ) → i < n → f i ≡ g i
unfolding agree_below
agree_below→eq f g zero e i h = absurd (omega arith)
agree_below→eq f g (suc n) e i h = ground (arith, agree_below→eq f g n (ground arith) i)

-- A prefix in the two top bits of a byte that leaves them free.
pub or_40 : (b : ℕ) → b < 64 → bit_or b 0x40 ≡ b + 0x40
unfolding agree_below
or_40 = agree_below→eq _ _ 64 refl

pub or_80 : (b : ℕ) → b < 64 → bit_or b 0x80 ≡ b + 0x80
unfolding agree_below
or_80 = agree_below→eq _ _ 64 refl

pub or_c0 : (b : ℕ) → b < 64 → bit_or b 0xc0 ≡ b + 0xc0
unfolding agree_below
or_c0 = agree_below→eq _ _ 64 refl
