-- ===== src/PnSpace/Chain.antt =====
-- The gap blocks of `quic_pnspace_num_gabs` follow each other, with a received number between any
-- two.
use quic.Prelude.{
  ℕ, zero, suc, ◌+◌, ◌-◌, ◌%◌, ◌≤◌, ◌<◌, ◌≡◌, refl, ◌⊎◌, inl, inr, true, false, List, [], ◌∷◌, some,
  ◌==◌, length, arith, Bool-cases, Option-cases, lt_or_le,
}
use quic.Prelude.Words.{u16_mod}
use quic.PnSpace.{
  PnSpace, GapBlock, test_bit, span, next_gap_ack, num_gabs_loop, num_gabs, has_gap,
  pn_map_max_gabs,
}
use quic.PnSpace.Invariant.{IsValid}
use quic.PnSpace.Bitmap.{le-find_next}
use quic.PnSpace.Gaps.{IsGap, next-IsGap, next_gap-some}
use quic.PnSpace.Reports.{span-eq}

-- The blocks start behind `lo`, oldest first, and end at `top` or before.
abbrev pub IsChain : ℕ → List GapBlock → ℕ → Type 0
IsChain lo [] top = lo ≤ top + 1
IsChain lo (g ∷ gs) top =
    (lo < g.start) × (g.start ≤ g.end) × (g.end ≤ top) × IsChain (g.end + 1) gs top

-- Where a round starts, and what bound that gives for the blocks behind.
abbrev Follows : PnSpace → ℕ → ℕ → Type 0
Follows s lo iter = (lo ≡ 0) ⊎ ((lo ≡ iter + 1) × (test_bit s.pn_map iter ≡ true))

module _ (s : PnSpace) (b iter lo : ℕ) (v : IsValid s b) (small : iter ≤ length s.pn_map)
    (at : Follows s lo iter) where
  starts_behind : (g : GapBlock) → next_gap_ack s iter ≡ some g → IsGap s b g → lo < g.start
  starts_behind g e gap =
      let (open_first, in_reach, starts, ends) = next_gap-some s b iter v small g e in
      let after : iter < g.start = omega (arith, starts, le-find_next false s.pn_map iter small) in
      elim at [
        | inl z ↦ omega (arith, gap.positive)
        | inr (at_iter, bit) ↦ elim (lt_or_le (iter + 1) g.start) [
          | inl behind ↦ omega arith
          | inr here ↦ cc (bit, inside g gap after here)
        ]
      ]
    where
      inside :
          (g : GapBlock)
          → IsGap s b g
          → iter < g.start
          → g.start ≤ iter + 1
          → test_bit s.pn_map iter ≡ false
      inside g gap after here = elim (lt_or_le iter g.end) [
        | inl within ↦ gap.missing iter here within
        | inr past ↦ absurd (omega (arith, gap.ordered))
      ]

-- The bound holds at the start of each round.
low_enough :
    (s : PnSpace) (b iter lo : ℕ)
    → IsValid s b
    → Follows s lo iter
    → iter ≤ s.max_pn_seen - b
    → lo ≤ s.max_pn_seen - b + 1
low_enough s b iter lo v (inl z) h = omega arith
low_enough s b iter lo v (inr (e, bit)) h = omega arith

num_gabs_loop-IsChain :
    (fuel : ℕ) (s : PnSpace) (b iter lo n : ℕ)
    → IsValid s b
    → Follows s lo iter
    → iter ≤ s.max_pn_seen - b
    → iter ≤ length s.pn_map
    → IsChain lo (num_gabs_loop fuel s iter n) (s.max_pn_seen - b)
unfolding num_gabs_loop
num_gabs_loop-IsChain zero s b iter lo n v at low small = low_enough s b iter lo v at low
num_gabs_loop-IsChain (suc fuel) s b iter lo n v at low small =
    elim (Option-cases (next_gap_ack s iter)) [
      | inl e ↦ rw (e, num_gabs_loop) (low_enough s b iter lo v at low)
      | inr (g, e) ↦
          let (gap, after, before) = next-IsGap s b iter v small g e in
          let starts = starts_behind s b iter lo v small at g e gap in
          let ends : g.end ≤ s.max_pn_seen - b = omega (arith, gap.inside) in
          let ordered = gap.ordered in
          let full : span s % u16_mod ≡ s.max_pn_seen - b =
            rw (span-eq s b v) (omega (arith, v.reach, v.fits)) in
          rw (e, num_gabs_loop)
            (elim (Bool-cases (n == pn_map_max_gabs - 1)) [
              | inl last ↦
                  rw (last, full)
                    (starts, omega (arith, gap.ordered, gap.inside), omega arith, omega arith)
              | inr more ↦ rw more (
                starts,
                ordered,
                ends,
                num_gabs_loop-IsChain fuel s b g.end (g.end + 1) (n + 1) v (inr (refl, gap.bounded))
                    ends (omega (arith, gap.inside, v.reach)),
              )
            ])
    ]

-- The blocks are in order and do not touch, and none goes beyond the largest number seen.
pub num_gabs-IsChain :
    (s : PnSpace) (b : ℕ) → IsValid s b → IsChain 0 (num_gabs s) (s.max_pn_seen - b)
unfolding num_gabs
num_gabs-IsChain s b v = elim (Bool-cases (has_gap s)) [
  | inl gaps ↦
      rw gaps
        (num_gabs_loop-IsChain pn_map_max_gabs s b 0 0 0 v (inl refl) (omega arith) (omega arith))
  | inr whole ↦ rw whole (omega arith)
]
