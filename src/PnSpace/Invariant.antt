-- ===== src/PnSpace/Invariant.antt =====
-- The invariant of a space whose base is set, through the steps of `quic_pnspace_mark`.
use quic.Prelude.{
  ℕ, ◌+◌, ◌-◌, ◌≤◌, ◌<◌, ◌≡◌, refl, ap, ◌∙◌, inl, inr, Bool, true, false, ◌||◌, List, none, some,
  length, length-set, set, ◌==◌, ltb, leb, arith, lt_or_le, Bool-cases, tests, ltb→le,
}
use native.Mathlib.Nat.{mod-eq_of_lt, le_refl}
use quic.Prelude.Words.{u16_mod}
use quic.PnSpace.{
  PnSpace, test_bit, find_next, shift_right, u16_diff, pnspace_move, note_max, pn_map_size,
}
use quic.PnSpace.Bitmap.{
  find_next-le, le-find_next, find_next_passed, find_next_hit, test_bit_beyond,
  test_bit-shift_right, length-shift_right, test_bit-set,
}

-- The base is the first number that was not received; the largest number received is below the
-- end of the map, and no bit is set behind it.
pub record IsValid (s : PnSpace) (b : ℕ) : Type 0 where
  pub based : s.base_pn ≡ some b
  pub fits : length s.pn_map ≤ pn_map_size
  pub reach : s.max_pn_seen < b + length s.pn_map
  pub top : b ≤ s.max_pn_seen + 1
  pub clear : (i : ℕ) → s.max_pn_seen < b + i → test_bit s.pn_map i ≡ false
  pub first : test_bit s.pn_map 0 ≡ false
  pub last : s.last_max_pn_seen ≤ s.max_pn_seen

-- Was `q` received, for a base and a map.
unfoldable pub seen_at : ℕ → List Bool → ℕ → Bool
seen_at b m q = ltb q b || test_bit m (q - b)

unfoldable pub seen : PnSpace → ℕ → Bool
unfolding seen_at
seen s q = elim s.base_pn [ none ↦ false | some b ↦ seen_at b s.pn_map q ]

pub seen-at : (s : PnSpace) (b q : ℕ) → s.base_pn ≡ some b → seen s q ≡ seen_at b s.pn_map q
unfolding seen
seen-at s b q e = rw (e, seen)

pub u16_diff-eq : (a b : ℕ) → b ≤ a → a - b < u16_mod → u16_diff a b ≡ a - b
unfolding u16_diff
u16_diff-eq a b h k = ground arith

-- Where `quic_pnspace_move` stops.
abbrev pub stop_at : List Bool → ℕ → ℕ → ℕ
stop_at m b p = find_next false m (p + 1 - b)

module _ (s : PnSpace) (b p : ℕ) (v : IsValid s b) (lo : b ≤ p + 1) (hi : p ≤ s.max_pn_seen) where
  pub stop_at-le : b + stop_at s.pn_map b p ≤ s.max_pn_seen + 1
  stop_at-le = elim (lt_or_le (s.max_pn_seen + 1 - b) (stop_at s.pn_map b p)) [
    | inl beyond ↦ cc (
      find_next_passed false s.pn_map (p + 1 - b) (s.max_pn_seen + 1 - b) (omega arith) beyond,
      v.clear (s.max_pn_seen + 1 - b) (omega (arith, v.top)),
    )
    | inr near ↦ omega (arith, v.top)
  ]

  pub move-eq : pnspace_move s b p ≡ record s {
    base_pn = some (b + stop_at s.pn_map b p);
    pn_map = shift_right s.pn_map (stop_at s.pn_map b p);
  }
  unfolding pnspace_move
  move-eq = rw (
    u16_diff-eq (p + 1) b lo (omega (arith, v.reach, v.fits)),
    mod-eq_of_lt {n = stop_at s.pn_map b p} {m = u16_mod}
        (omega (arith, v.fits, find_next-le false s.pn_map (p + 1 - b))),
  )

  stop_at_clear : test_bit s.pn_map (stop_at s.pn_map b p + 0) ≡ false
  stop_at_clear =
      let at : stop_at s.pn_map b p + 0 ≡ stop_at s.pn_map b p = omega arith in
      rw at (elim (lt_or_le (stop_at s.pn_map b p) (length s.pn_map)) [
        | inl inside ↦ find_next_hit false s.pn_map (p + 1 - b) inside
        | inr outside ↦ test_bit_beyond s.pn_map (stop_at s.pn_map b p) outside
      ])

  pub move-IsValid : IsValid (pnspace_move s b p) (b + stop_at s.pn_map b p)
  move-IsValid = rw move-eq (record {
    based = refl;
    fits = rw (length-shift_right s.pn_map (stop_at s.pn_map b p)) v.fits;
    reach = rw (length-shift_right s.pn_map (stop_at s.pn_map b p)) (omega (arith, v.reach));
    top = stop_at-le;
    clear = λ i h. test_bit-shift_right s.pn_map _ i ∙ v.clear _ (omega arith);
    first = test_bit-shift_right s.pn_map _ 0 ∙ stop_at_clear;
    last = v.last;
  })

  seen_at-move :
      (q : ℕ)
      → seen_at (b + stop_at s.pn_map b p) (shift_right s.pn_map (stop_at s.pn_map b p)) q
        ≡ (seen_at b s.pn_map q || leb q p)
  unfolding seen_at
  seen_at-move q = elim (lt_or_le q (b + stop_at s.pn_map b p)) [
    | inl below ↦ elim (lt_or_le p q) [
      | inl above ↦ ground (
        arith,
        λ (h : b ≤ q).
            find_next_passed false s.pn_map (p + 1 - b) (q - b) (omega arith) (omega arith),
      )
      | inr covered ↦ ground arith
    ]
    | inr outside ↦ ground (arith, same_bit q outside, le-find_next false s.pn_map (p + 1 - b) room)
  ]
    where
      room : p + 1 - b ≤ length s.pn_map
      room = omega (arith, v.reach)

      same_bit :
          (r : ℕ)
          → b + stop_at s.pn_map b p ≤ r
          → test_bit (shift_right s.pn_map (stop_at s.pn_map b p)) (r - (b + stop_at s.pn_map b p))
            ≡ test_bit s.pn_map (r - b)
      same_bit r h =
          test_bit-shift_right s.pn_map (stop_at s.pn_map b p) (r - (b + stop_at s.pn_map b p))
          ∙ ap (test_bit s.pn_map) (omega arith)

  -- Besides what was seen before, all numbers up to `p` count as seen.
  pub seen-move : (q : ℕ) → seen (pnspace_move s b p) q ≡ (seen_at b s.pn_map q || leb q p)
  unfolding seen
  seen-move q = rw move-eq (seen_at-move q)

-- Noting a larger number keeps the invariant, if the map reaches it.
pub note_max-IsValid :
    (s : PnSpace) (b p : ℕ)
    → IsValid s b
    → b ≤ p
    → p < b + length s.pn_map
    → IsValid (note_max s p) b × (p ≤ (note_max s p).max_pn_seen)
unfolding note_max
note_max-IsValid s b p v lo hi = elim (Bool-cases (ltb s.max_pn_seen p)) [
  | inl larger ↦ rw larger (
    record {
      based = v.based;
      fits = v.fits;
      reach = hi;
      top = omega arith;
      clear = λ i h. v.clear i (omega tests);
      first = v.first;
      last = omega (tests, v.last);
    },
    le_refl p,
  )
  | inr known ↦ rw known (v, ltb→le s.max_pn_seen p known)
]

-- Setting the bit of a number that is at most the largest.
pub set-IsValid :
    (s : PnSpace) (b p : ℕ)
    → IsValid s b
    → b < p
    → p ≤ s.max_pn_seen
    → IsValid (record s { pn_map = set s.pn_map (p - b) true }) b
set-IsValid s b p v lo hi = record {
  based = v.based;
  fits = rw (length-set s.pn_map (p - b) true) v.fits;
  reach = rw (length-set s.pn_map (p - b) true) v.reach;
  top = v.top;
  clear = λ i h. test_bit-set s.pn_map (p - b) i inside ∙ ground (arith, v.clear i h);
  first = test_bit-set s.pn_map (p - b) 0 inside ∙ ground (arith, v.first);
  last = v.last;
}
  where
    inside : p - b < length s.pn_map
    inside = omega (arith, v.reach)

pub seen_at-set :
    (m : List Bool) (b p q : ℕ)
    → b ≤ p
    → p < b + length m
    → seen_at b (set m (p - b) true) q ≡ (seen_at b m q || (q == p))
unfolding seen_at
seen_at-set m b p q lo hi = ground (arith, test_bit-set m (p - b) (q - b) (omega arith))
