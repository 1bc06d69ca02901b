-- ===== src/Cong/Root.antt =====
-- `cubic_root` of cong.c: Newton's iteration from above, and the integer cube root.
use native.Mathlib.Nat.{
  le-div_iff_mul-le, div-lt_iff_lt-mul, div-le_self, mod-eq_of_lt, mul-le-mul, pow-suc,
  pow-le-pow_right,
}
use quic.Prelude.{
  ℕ, zero, suc, ◌+◌, ◌-◌, ◌*◌, ◌/◌, ◌%◌, ◌^◌, ◌≤◌, ◌<◌, ◌≡◌, refl, ap, ◌∙◌, inl, inr, Option, none,
  some, ltb, ◌==◌, if◌then◌else◌, Bool-cases, ==_iff, arith, lt_or_le, ltb→lt, ltb→le,
}
use quic.Prelude.Words.{u64_mod, mul64}

-- `64 - __builtin_clzll(n)`, the number of binary digits, for `n` below 2 ^ 64 with fuel 64.
unfoldable pub bit_length : ℕ → ℕ → ℕ
bit_length zero n = 0
bit_length (suc fuel) n = let rest = bit_length fuel (n / 2) in if n == 0 then 0 else suc rest

-- The `for` loop; `none` means that the fuel ran out.
unfoldable pub root_loop : ℕ → ℕ → ℕ → Option ℕ
root_loop zero n a = none
root_loop (suc fuel) n a =
    let rest = root_loop fuel n ((mul64 2 a + n / mul64 a a) % u64_mod / 3) in
    if ltb n (mul64 (mul64 a a) a) then rest else some a

-- `BIT_ULL(d + 1)`
unfoldable pub root_start : ℕ → ℕ
root_start n = 2 ^ (bit_length 64 n / 3 + 1)

-- The value falls in every round, so its start is fuel enough.
unfoldable pub cubic_root : ℕ → Option ℕ
cubic_root n = if n == 0 then some 0 else root_loop (suc (root_start n)) n (root_start n)

abbrev cube : ℕ → ℕ
cube a = a * a * a

-- For an estimate above the root `r` the next one is no lower than `r`.
newton_above : (r d : ℕ) → (r + d) * (r + d) * (3 * r) ≤ cube r + 2 * cube (r + d)
newton_above r d = omega arith

cube_mono : (a b : ℕ) → a ≤ b → cube a ≤ cube b
cube_mono a b h = let e : b ≡ a + (b - a) = omega arith in rw e (plus a (b - a))
  where
    plus : (x d : ℕ) → cube x ≤ cube (x + d)
    plus x d = omega arith

cube-lt : (r a n : ℕ) → cube r ≤ n → n < cube a → r < a
cube-lt r a n h k = elim (lt_or_le r a) [
  | inl lt ↦ lt
  | inr ge ↦ absurd (omega (arith, cube_mono a r ge))
]

-- One step of the iteration.
abbrev next_estimate : ℕ → ℕ → ℕ
next_estimate n a = (2 * a + n / (a * a)) / 3

square_pos : (a n : ℕ) → n < cube a → 0 < a * a
square_pos zero n h = absurd (omega arith)
square_pos (suc a) n h = omega arith

next_estimate-lt : (n a : ℕ) → n < cube a → next_estimate n a < a
next_estimate-lt n a h =
    let below : n / (a * a) < a = (div-lt_iff_lt-mul (square_pos a n h)).1 (omega arith) in
    omega (arith, below)

newton_at : (a r d : ℕ) → a ≡ r + d → a * a * (3 * r) ≤ cube r + 2 * cube a
newton_at a r d e = rw e (newton_above r d)

root-le-next : (n a r : ℕ) → n < cube a → cube r ≤ n → r ≤ next_estimate n a
root-le-next n a r h k = elim (lt_or_le (2 * a) (3 * r)) [
  | inl over ↦
      let excess : 3 * r ≡ (3 * r - 2 * a) + 2 * a = omega arith in
      let bound = newton_at a r (a - r) (omega (arith, cube-lt r a n k h)) in
      let product : (3 * r - 2 * a) * (a * a) ≤ n =
        omega (arith, bound, ap (λ (t : ℕ). a * a * t) excess, k) in
      let quotient : 3 * r - 2 * a ≤ n / (a * a) =
        (le-div_iff_mul-le (square_pos a n h)).1 product in
      omega (arith, quotient)
  | inr under ↦ omega arith
]

next_estimate-above : (n a : ℕ) → n < cube a → n < cube (next_estimate n a + 1)
next_estimate-above n a h = elim (lt_or_le n (cube (next_estimate n a + 1))) [
  | inl lt ↦ lt
  | inr ge ↦ absurd (omega (arith, root-le-next n a (next_estimate n a + 1) h ge))
]

cube_bounds : (a : ℕ) → a ≤ 2 ^ 21 → (a * a < 2 ^ 43) × (cube a < u64_mod)
cube_bounds a h =
    let c = cube_mono a (2 ^ 21) h in
    let sq = mul-le-mul h h in (omega (arith, sq), omega (arith, c))

-- Within these bounds the machine arithmetic of a round is exact.
root_loop_step :
    (fuel n a : ℕ)
    → a ≤ 2 ^ 21
    → n < 2 ^ 62
    → root_loop (suc fuel) n a
      ≡ (if ltb n (cube a) then root_loop fuel n (next_estimate n a) else some a)
unfolding root_loop
root_loop_step fuel n a ha hn =
    let (sq, cu) = cube_bounds a ha in
    let e1 : mul64 a a ≡ a * a = mod-eq_of_lt (omega arith) in
    let e2 : mul64 2 a ≡ 2 * a = mod-eq_of_lt (omega arith) in
    let e3 : a * a * a % u64_mod ≡ cube a = mod-eq_of_lt cu in
    let e4 : (2 * a + n / (a * a)) % u64_mod ≡ 2 * a + n / (a * a) =
      mod-eq_of_lt (omega (arith, div-le_self n (a * a))) in
    rw (e1, e2, e3, e4)

root_loop-root :
    (fuel n a : ℕ)
    → a < fuel
    → a ≤ 2 ^ 21
    → n < 2 ^ 62
    → n < cube (a + 1)
    → (r : ℕ) × (root_loop fuel n a ≡ some r) × (cube r ≤ n) × (n < cube (r + 1))
root_loop-root zero n a hf ha hn above = absurd (omega arith)
root_loop-root (suc fuel) n a hf ha hn above = elim (Bool-cases (ltb n (cube a))) [
  | inl more ↦
      let lower = next_estimate-lt n a (ltb→lt _ _ more) in
      let (r, e, lo, hi) =
        root_loop-root fuel n (next_estimate n a) (omega (arith, lower)) (omega (arith, lower)) hn
          (next_estimate-above n a (ltb→lt _ _ more)) in
      (r, root_loop_step fuel n a ha hn ∙ rw more e, lo, hi)
  | inr stop ↦ (a, root_loop_step fuel n a ha hn ∙ rw stop, ltb→le _ _ stop, above)
]

bit_length-lt : (fuel n : ℕ) → n < 2 ^ fuel → n < 2 ^ bit_length fuel n
unfolding bit_length
bit_length-lt zero n h = h
bit_length-lt (suc fuel) n h = elim (Bool-cases (n == 0)) [
  | inl is_zero ↦ rw is_zero (omega (arith, (==_iff n 0).0 is_zero))
  | inr positive ↦
      let ih = bit_length-lt fuel (n / 2) (omega (arith, pow-suc 2 fuel)) in
      rw positive (omega (arith, ih, pow-suc 2 (bit_length fuel (n / 2))))
]

bit_length-le : (fuel n k : ℕ) → n < 2 ^ k → bit_length fuel n ≤ k
unfolding bit_length
bit_length-le zero n k h = omega arith
bit_length-le (suc fuel) n zero h = ground arith
bit_length-le (suc fuel) n (suc k) h =
    ground (arith, bit_length-le fuel (n / 2) k (omega (arith, pow-suc 2 k)))

cube_pow : (m : ℕ) → cube (2 ^ m) ≡ 2 ^ (3 * m)
cube_pow zero = refl
cube_pow (suc m) =
    let e : 3 * suc m ≡ suc (suc (suc (3 * m))) = omega arith in
    rw (e, pow-suc 2 m)
      (omega (
        arith,
        cube_pow m,
        pow-suc 2 (3 * m),
        pow-suc 2 (suc (3 * m)),
        pow-suc 2 (suc (suc (3 * m))),
      ))

-- The loop's start lies above the root, and small enough for the machine arithmetic.
root_start_bounds : (n : ℕ) → n < 2 ^ 62 → (root_start n ≤ 2 ^ 21) × (n < cube (root_start n))
unfolding root_start
root_start_bounds n h =
    let len = bit_length 64 n in
    let short = bit_length-le 64 n 62 h in
    let below = bit_length-lt 64 n (omega arith) in
    let under =
      pow-le-pow_right {n = 2} (omega arith) {i = len} {j = 3 * (len / 3 + 1)} (omega arith) in
    (
      pow-le-pow_right {n = 2} (omega arith) {i = len / 3 + 1} {j = 21} (omega (arith, short)),
      omega (arith, below, under, cube_pow (len / 3 + 1)),
    )

-- For every `n` below 2 ^ 62 the loop ends, with the integer cube root of `n`.
pub cubic_root-root :
    (n : ℕ)
    → n < 2 ^ 62
    → (r : ℕ) × (cubic_root n ≡ some r) × (r * r * r ≤ n) × (n < (r + 1) * (r + 1) * (r + 1))
unfolding cubic_root
cubic_root-root n h = elim (Bool-cases (n == 0)) [
  | inl is_zero ↦ rw is_zero (0, refl, omega arith, ground arith)
  | inr positive ↦
      let (small, above) = root_start_bounds n h in
      rw positive (
        root_loop-root (suc (root_start n)) n (root_start n) (omega arith) small h
          (omega (arith, above, cube_mono (root_start n) (root_start n + 1) (omega arith))))
]
