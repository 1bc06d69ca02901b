-- ===== src/PnSpace/Gaps.antt =====
-- The gap blocks that `quic_pnspace_num_gabs` reports for an ACK frame.
use quic.Prelude.{
  ℕ, ◌+◌, ◌-◌, ◌≤◌, ◌<◌, ◌≡◌, sym, ◌∙◌, inl, inr, true, false, none, some, if◌then◌else◌, leb,
  length, arith, lt_or_le,
}
use native.Mathlib.Nat.{mod-eq_of_lt}
use quic.Prelude.Words.{u16_mod}
use quic.PnSpace.{PnSpace, GapBlock, test_bit, find_next, span, next_gap_ack}
use quic.PnSpace.Invariant.{IsValid, seen, seen_at, seen-at}
use quic.PnSpace.Bitmap.{find_next-le, le-find_next, find_next_passed, find_next_hit}

-- A block of numbers that were not received, of which the last is not the largest seen, reported as
-- offsets plus one: the numbers from `b + start - 1` to `b + end - 1`. (`end` is the offset of the
-- first number behind the block.)
pub record IsGap (s : PnSpace) (b : ℕ) (g : GapBlock) : Type 0 where
  pub positive : 1 ≤ g.start
  pub ordered : g.start ≤ g.end
  pub missing : (i : ℕ) → g.start ≤ i + 1 → i < g.end → test_bit s.pn_map i ≡ false
  pub inside : b + g.end ≤ s.max_pn_seen
  pub bounded : test_bit s.pn_map g.end ≡ true

-- The two ends that a round searches for.
abbrev gap_first : PnSpace → ℕ → ℕ
gap_first s iter = find_next false s.pn_map iter

abbrev gap_last : PnSpace → ℕ → ℕ
gap_last s iter = find_next true s.pn_map (gap_first s iter)

module _ (s : PnSpace) (b iter : ℕ) (v : IsValid s b) (small : iter ≤ length s.pn_map) where
  pub next_gap_ack-eq : next_gap_ack s iter ≡ (
      if leb (s.max_pn_seen - b) (gap_first s iter)
      then none
      else if leb (s.max_pn_seen - b + 1) (gap_last s iter)
      then none
      else some (record { start = gap_first s iter + 1; end = gap_last s iter }))
  unfolding next_gap_ack span
  next_gap_ack-eq =
      ground (arith, v.based, v.fits, mod-eq_of_lt {n = iter} {m = u16_mod} (omega (arith, v.fits)))

  newest_bit :
      seen s s.max_pn_seen ≡ true → b ≤ s.max_pn_seen → test_bit s.pn_map (s.max_pn_seen - b) ≡ true
  newest_bit newest h = at (sym (seen-at s b s.max_pn_seen v.based) ∙ newest)
    where
      at : seen_at b s.pn_map s.max_pn_seen ≡ true → test_bit s.pn_map (s.max_pn_seen - b) ≡ true
      at e = unfold seen_at in ground arith

  -- A round that finds nothing passes over no missing number.
  pub next_gap-none :
      seen s s.max_pn_seen ≡ true
      → next_gap_ack s iter ≡ none
      → (i : ℕ) → iter ≤ i
      → b + i < s.max_pn_seen
      → test_bit s.pn_map i ≡ true
  next_gap-none newest e i lo hi = elim (lt_or_le i (gap_first s iter)) [
    | inl before ↦ find_next_passed false s.pn_map iter i lo before
    | inr from ↦ elim (lt_or_le (s.max_pn_seen - b) (gap_last s iter)) [
      | inl open_end ↦ cc (
        newest_bit newest (omega arith),
        find_next_passed true s.pn_map (gap_first s iter) (s.max_pn_seen - b) (omega arith)
            open_end,
      )
      | inr closed ↦ ground (arith, next_gap_ack-eq)
    ]
  ]

  pub next_gap-some :
      (g : GapBlock)
      → next_gap_ack s iter ≡ some g
      → (gap_first s iter < s.max_pn_seen - b)
        × (gap_last s iter ≤ s.max_pn_seen - b)
        × (g.start ≡ gap_first s iter + 1)
        × (g.end ≡ gap_last s iter)
  next_gap-some g e = ground (arith, next_gap_ack-eq)

  first_zero : gap_first s iter < s.max_pn_seen - b → test_bit s.pn_map (gap_first s iter) ≡ false
  first_zero h = find_next_hit false s.pn_map iter (omega (arith, v.reach))

  last_one :
      gap_last s iter ≤ s.max_pn_seen - b
      → b ≤ s.max_pn_seen
      → test_bit s.pn_map (gap_last s iter) ≡ true
  last_one h k = find_next_hit true s.pn_map (gap_first s iter) (omega (arith, v.reach))

  -- A round that finds a gap finds the next one.
  pub next-IsGap :
      (g : GapBlock)
      → next_gap_ack s iter ≡ some g
      → IsGap s b g
        × (iter ≤ g.end)
        × ((i : ℕ) → iter ≤ i → i + 1 < g.start → test_bit s.pn_map i ≡ true)
  next-IsGap g e =
      let (open_first, in_reach, at, until) = next_gap-some g e in
      let zero_bit = first_zero open_first in
      let one_bit = last_one in_reach (omega arith) in
      let ends_after =
        le-find_next true s.pn_map (gap_first s iter) (find_next-le false s.pn_map iter) in
      let starts_after = le-find_next false s.pn_map iter small in
      (
        record {
          positive = omega (arith, at);
          ordered = ordered_ends at until zero_bit one_bit ends_after;
          missing = λ i lo hi.
              find_next_passed true s.pn_map (gap_first s iter) i (omega (arith, at))
                (omega (arith, until));
          inside = omega (arith, open_first, in_reach, until);
          bounded = rw until one_bit;
        },
        omega (arith, starts_after, ends_after, until),
        λ i lo hi. find_next_passed false s.pn_map iter i lo (omega (arith, at)),
      )
    where
      ordered_ends :
          g.start ≡ gap_first s iter + 1
          → g.end ≡ gap_last s iter
          → test_bit s.pn_map (gap_first s iter) ≡ false
          → test_bit s.pn_map (gap_last s iter) ≡ true
          → gap_first s iter ≤ gap_last s iter
          → g.start ≤ g.end
      ordered_ends at until zero_bit one_bit h = ground arith
