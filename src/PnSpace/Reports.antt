-- ===== src/PnSpace/Reports.antt =====
-- All gap blocks that `quic_pnspace_num_gabs` reports for an ACK frame.
use quic.Prelude.{
  ℕ, zero, suc, ◌+◌, ◌-◌, ◌%◌, ◌≤◌, ◌<◌, ◌≡◌, refl, ap, sym, ◌∙◌, ◌⊎◌, inl, inr, true, false, List,
  [], ◌∷◌, ◌==◌, ==_iff, length, All, arith, Bool-cases, Option-cases, lt_or_le,
}
use quic.Prelude.Words.{u16_mod}
use quic.PnSpace.{
  PnSpace, GapBlock, test_bit, span, next_gap_ack, num_gabs_loop, num_gabs, has_gap,
  pn_map_max_gabs,
}
use quic.PnSpace.Invariant.{IsValid, seen, seen_at, seen-at}
use quic.PnSpace.Gaps.{IsGap, next_gap-none, next-IsGap}
use quic.PnSpace.Marking.{Marks}

-- `i` is one of the offsets of a listed block.
abbrev pub Covered : ℕ → List GapBlock → Type 0
Covered i [] = ⊥
Covered i (g ∷ gs) = ((g.start ≤ i + 1) × (i < g.end)) ⊎ Covered i gs

pub span-eq : (s : PnSpace) (b : ℕ) → IsValid s b → span s ≡ s.max_pn_seen - b
unfolding span
span-eq s b v = ground (arith, v.based)

not_last :
    (fuel n : ℕ) → suc fuel + n ≡ pn_map_max_gabs → (n == pn_map_max_gabs - 1) ≡ false → 0 < fuel
not_last fuel n h e = ground arith

length-num_gabs_loop :
    (fuel : ℕ) (s : PnSpace) (iter n : ℕ) → length (num_gabs_loop fuel s iter n) ≤ fuel
unfolding num_gabs_loop
length-num_gabs_loop zero s iter n = omega arith
length-num_gabs_loop (suc fuel) s iter n = elim (Option-cases (next_gap_ack s iter)) [
  | inl e ↦ rw (e, num_gabs_loop) (omega arith)
  | inr (g, e) ↦ rw (e, num_gabs_loop) (ground (arith, length-num_gabs_loop fuel s g.end (n + 1)))
]

num_gabs_loop-Covered :
    (fuel : ℕ) (s : PnSpace) (b iter n : ℕ)
    → IsValid s b
    → seen s s.max_pn_seen ≡ true
    → iter ≤ length s.pn_map
    → fuel + n ≡ pn_map_max_gabs
    → 0 < fuel
    → (i : ℕ) → iter ≤ i
    → b + i < s.max_pn_seen
    → test_bit s.pn_map i ≡ false
    → Covered i (num_gabs_loop fuel s iter n)
unfolding num_gabs_loop
num_gabs_loop-Covered zero s b iter n v newest small sum pos i lo hi bit = absurd (omega arith)
num_gabs_loop-Covered (suc fuel) s b iter n v newest small sum pos i lo hi bit =
    elim (Option-cases (next_gap_ack s iter)) [
      | inl e ↦ cc (next_gap-none s b iter v small newest e i lo hi, bit)
      | inr (g, e) ↦
          let (gap, after, before) = next-IsGap s b iter v small g e in
          let starts : g.start ≤ i + 1 = starts_by g before in
          rw (e, num_gabs_loop)
            (elim (Bool-cases (n == pn_map_max_gabs - 1)) [
              | inl last ↦ rw last (inl (starts, rw (span-eq s b v) hi_span))
              | inr more ↦ rw more (elim (lt_or_le i g.end) [
                | inl within ↦ inl (starts, within)
                | inr behind ↦ inr (
                    num_gabs_loop-Covered fuel s b g.end (n + 1) v newest
                      (omega (arith, gap.inside, v.reach)) (omega arith) (not_last fuel n sum more)
                      i behind hi bit)
              ])
            ])
    ]
  where
    hi_span : i < (s.max_pn_seen - b) % u16_mod
    hi_span = omega (arith, v.reach, v.fits)

    starts_by :
        (g : GapBlock)
        → ((j : ℕ) → iter ≤ j → j + 1 < g.start → test_bit s.pn_map j ≡ true)
        → g.start ≤ i + 1
    starts_by g before = elim (lt_or_le (i + 1) g.start) [
      | inl early ↦ cc (before i lo early, bit)
      | inr late ↦ late
    ]

num_gabs_loop-IsGap :
    (fuel : ℕ) (s : PnSpace) (b iter n : ℕ)
    → IsValid s b
    → iter ≤ length s.pn_map
    → length (num_gabs_loop fuel s iter n) + n < pn_map_max_gabs
    → All (IsGap s b) (num_gabs_loop fuel s iter n)
unfolding num_gabs_loop
num_gabs_loop-IsGap zero s b iter n v small few = tt
num_gabs_loop-IsGap (suc fuel) s b iter n v small few = elim (Option-cases (next_gap_ack s iter)) [
  | inl e ↦ rw (e, num_gabs_loop) tt
  | inr (g, e) ↦
      let (gap, after, before) = next-IsGap s b iter v small g e in
      rw (e, num_gabs_loop)
        (elim (Bool-cases (n == pn_map_max_gabs - 1)) [
          | inl last ↦
              let few' = rw (e, num_gabs_loop, last) at few in
              absurd (omega (arith, (==_iff n (pn_map_max_gabs - 1)).0 last))
          | inr more ↦
              let few' = rw (e, num_gabs_loop, more) at few in
              rw more (
                gap,
                num_gabs_loop-IsGap fuel s b g.end (n + 1) v (omega (arith, gap.inside, v.reach))
                    (omega arith),
              )
        ])
]

gappy :
    (s : PnSpace) (b : ℕ)
    → IsValid s b
    → b ≤ s.max_pn_seen
    → num_gabs s ≡ num_gabs_loop pn_map_max_gabs s 0 0
unfolding num_gabs has_gap
gappy s b v h = ground (arith, v.based)

-- Every number between the base and the largest one seen that was not received is covered by a
-- reported block. The largest number seen must be one that was received.
pub num_gabs-Covered :
    (s : PnSpace) (b q : ℕ)
    → IsValid s b
    → seen s s.max_pn_seen ≡ true
    → b ≤ q
    → q < s.max_pn_seen
    → seen s q ≡ false
    → Covered (q - b) (num_gabs s)
num_gabs-Covered s b q v newest lo hi missing = rw (gappy s b v (omega arith)) (
    num_gabs_loop-Covered pn_map_max_gabs s b 0 0 v newest (omega arith) refl (omega arith) (q - b)
      (omega arith) (omega arith) (at (sym (seen-at s b q v.based) ∙ missing)))
  where
    at : seen_at b s.pn_map q ≡ false → test_bit s.pn_map (q - b) ≡ false
    at e = unfold seen_at in ground arith

-- At most 32 blocks are reported; where there are fewer, each is a run of numbers that were not
-- received, and ends at one that was.
pub num_gabs-IsGap :
    (s : PnSpace) (b : ℕ)
    → IsValid s b
    → (length (num_gabs s) ≤ pn_map_max_gabs)
      × (length (num_gabs s) < pn_map_max_gabs → All (IsGap s b) (num_gabs s))
unfolding num_gabs
num_gabs-IsGap s b v = elim (Bool-cases (has_gap s)) [
  | inl gaps ↦ rw gaps (
    length-num_gabs_loop pn_map_max_gabs s 0 0,
    λ few. num_gabs_loop-IsGap pn_map_max_gabs s b 0 0 v (omega arith) (omega arith),
  )
  | inr whole ↦ rw whole (omega arith, λ few. tt)
]

-- Marking keeps the largest number seen among the received ones.
pub newest-Marks :
    (s t : PnSpace) (pn : ℕ)
    → Marks s pn t
    → seen s s.max_pn_seen ≡ true
    → seen t t.max_pn_seen ≡ true
newest-Marks s t pn (inl adds) h = elim (lt_or_le s.max_pn_seen pn) [
  | inl larger ↦ ap (seen t) (omega (arith, adds.largest)) ∙ adds.added pn ∙ ground arith
  | inr known ↦ ap (seen t) (omega (arith, adds.largest)) ∙ adds.added s.max_pn_seen ∙ rw h
]
newest-Marks s t pn (inr advances) h = elim (lt_or_le s.max_pn_seen pn) [
  | inl larger ↦ ap (seen t) (omega (arith, advances.largest)) ∙ advances.added pn ∙ ground arith
  | inr known ↦ ap (seen t) (omega (arith, advances.largest)) ∙ advances.added s.max_pn_seen ∙ rw h
]
