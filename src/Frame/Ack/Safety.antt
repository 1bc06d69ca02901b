-- ===== src/Frame/Ack/Safety.antt =====
-- The packet numbers that an ACK frame acknowledges, against those that the space has received.
use mathlib.Core.List.{reverse, reverse_aux, Memᴰ}
use quic.Prelude.{
  ℕ, ◌+◌, ◌-◌, ◌≤◌, ◌<◌, ◌≡◌, ◌⊎◌, inl, inr, some, true, false, List, [], ◌∷◌, length, All, arith,
  Bool-cases, lt_or_le,
}
use quic.PnSpace.{PnSpace, GapBlock, num_gabs, test_bit, pn_map_max_gabs}
use quic.PnSpace.Invariant.{IsValid, seen, seen_at, seen-at}
use quic.PnSpace.Gaps.{IsGap}
use quic.PnSpace.Reports.{Covered, num_gabs-Covered, num_gabs-IsGap}
use quic.PnSpace.History.{below_base, Received, Records, Received-Records}
use quic.Frame.Ack.Blocks.{IsDescending, ranges_below}
use quic.Frame.Ack.RoundTrip.{ack_ranges, newest}

-- A number lies in one of the ranges.
abbrev pub IsAcked : ℕ → List (ℕ × ℕ) → Type 0
IsAcked q [] = ⊥
IsAcked q ((largest, smallest) ∷ rs) = ((smallest ≤ q) × (q ≤ largest)) ⊎ IsAcked q rs

Covered-reverse_aux :
    (i : ℕ) (gs acc : List GapBlock) → Covered i gs ⊎ Covered i acc → Covered i (reverse_aux gs acc)
Covered-reverse_aux i [] acc (inl h) = absurd h
Covered-reverse_aux i [] acc (inr h) = h
Covered-reverse_aux i (g ∷ gs) acc (inl (inl h)) = Covered-reverse_aux i gs (g ∷ acc) (inr (inl h))
Covered-reverse_aux i (g ∷ gs) acc (inl (inr h)) = Covered-reverse_aux i gs (g ∷ acc) (inl h)
Covered-reverse_aux i (g ∷ gs) acc (inr h) = Covered-reverse_aux i gs (g ∷ acc) (inr (inr h))

-- And back: what is covered by the reversed blocks is covered.
reverse_aux-Covered :
    (i : ℕ) (gs acc : List GapBlock) → Covered i (reverse_aux gs acc) → Covered i gs ⊎ Covered i acc
reverse_aux-Covered i [] acc h = inr h
reverse_aux-Covered i (g ∷ gs) acc h = elim (reverse_aux-Covered i gs (g ∷ acc) h) [
  | inl later ↦ inl (inr later)
  | inr (inl here) ↦ inl (inl here)
  | inr (inr before) ↦ inr before
]

Covered-below :
    (i bound : ℕ) (gs : List GapBlock) → IsDescending bound gs → Covered i gs → i + 2 < bound + 1
Covered-below i bound [] desc h = absurd h
Covered-below i bound (g ∷ gs) (ends, pos, ordered, desc) (inl h) = omega arith
Covered-below i bound (g ∷ gs) (ends, pos, ordered, desc) (inr h) =
    omega (arith, Covered-below i g.start gs desc h)

tight :
    (b largest : ℕ) (gs : List GapBlock)
    → b ≤ largest + 1
    → IsDescending (largest - b + 2) gs
    → IsDescending (largest + 2 - b) gs
tight b largest [] h desc = tt
tight b largest (g ∷ gs) h (ends, pos, ordered, desc) = (omega arith, pos, ordered, desc)

module _ (b smallest : ℕ) (low : smallest < b) where
  IsAcked-bounds :
      (q largest bound : ℕ) (gs : List GapBlock)
      → IsDescending bound gs
      → smallest ≤ largest
      → largest + 2 ≡ b + bound
      → IsAcked q (ranges_below b smallest largest gs)
      → (smallest ≤ q) × (q ≤ largest)
  IsAcked-bounds q largest bound [] desc le top (inl h) = h
  IsAcked-bounds q largest bound [] desc le top (inr h) = absurd h
  IsAcked-bounds q largest bound (g ∷ gs) (ends, pos, ordered, desc) le top (inl h) =
      (omega arith, h.1)
  IsAcked-bounds q largest bound (g ∷ gs) (ends, pos, ordered, desc) le top (inr h) =
      let (from, to) =
        IsAcked-bounds q (b + g.start - 2) g.start gs desc (omega arith) (omega arith) h in
      (from, omega arith)

  IsAcked-uncovered :
      (q largest bound : ℕ) (gs : List GapBlock)
      → IsDescending bound gs
      → smallest ≤ largest
      → largest + 2 ≡ b + bound
      → IsAcked q (ranges_below b smallest largest gs)
      → b ≤ q
      → ¬ Covered (q - b) gs
  IsAcked-uncovered q largest bound [] desc le top h lo c = c
  IsAcked-uncovered q largest bound (g ∷ gs) (ends, pos, ordered, desc) le top (inl h) lo (inl c) =
      absurd (omega arith)
  IsAcked-uncovered q largest bound (g ∷ gs) (ends, pos, ordered, desc) le top (inl h) lo (inr c) =
      absurd (omega (arith, Covered-below (q - b) g.start gs desc c))
  IsAcked-uncovered q largest bound (g ∷ gs) (ends, pos, ordered, desc) le top (inr h) lo (inl c) =
      let (from, to) =
        IsAcked-bounds q (b + g.start - 2) g.start gs desc (omega arith) (omega arith) h in
      absurd (omega arith)
  IsAcked-uncovered q largest bound (g ∷ gs) (ends, pos, ordered, desc) le top (inr h) lo (inr c) =
      IsAcked-uncovered q (b + g.start - 2) g.start gs desc (omega arith) (omega arith) h lo c

  uncovered-IsAcked :
      (q largest bound : ℕ) (gs : List GapBlock)
      → IsDescending bound gs
      → smallest ≤ q
      → q ≤ largest
      → (b ≤ q → ¬ Covered (q - b) gs)
      → IsAcked q (ranges_below b smallest largest gs)
  uncovered-IsAcked q largest bound [] desc lo hi clear = inl (lo, hi)
  uncovered-IsAcked q largest bound (g ∷ gs) (ends, pos, ordered, desc) lo hi clear =
      elim (lt_or_le q (b + g.end)) [
        | inr above ↦ inl (above, hi)
        | inl below ↦ elim (lt_or_le (q + 1) (b + g.start)) [
          | inl under ↦ inr (
              uncovered-IsAcked q (b + g.start - 2) g.start gs desc lo (omega arith)
                (λ at c. clear at (inr c)))
          | inr within ↦ absurd (clear (omega arith) (inl (omega arith, omega arith)))
        ]
      ]

blocks :
    (s : PnSpace) (b : ℕ)
    → IsValid s b
    → IsDescending (s.max_pn_seen + 2 - b) (reverse (num_gabs s))
blocks s b v = tight b s.max_pn_seen (reverse (num_gabs s)) v.top (newest s b v)

module _ (pns : List ℕ) (s : PnSpace) (b q : ℕ) (r : Records pns s b) where
  pub acked_bounds : IsAcked q (ack_ranges s b) → (s.min_pn_seen ≤ q) × (q ≤ s.max_pn_seen)
  acked_bounds =
      IsAcked-bounds b s.min_pn_seen r.low q s.max_pn_seen (s.max_pn_seen + 2 - b) _
        (blocks s b r.valid) (omega (arith, r.low, r.valid.top)) (omega (arith, r.valid.top))

  pub acked-seen : IsAcked q (ack_ranges s b) → seen s q ≡ true
  acked-seen h = elim (lt_or_le q b) [
    | inl before ↦ below_base s b q r.valid.based before
    | inr behind ↦ elim (Bool-cases (seen s q)) [
      | inl e ↦ e
      | inr missing ↦
          let uncovered =
            IsAcked-uncovered b s.min_pn_seen r.low q s.max_pn_seen (s.max_pn_seen + 2 - b) _
              (blocks s b r.valid) (omega (arith, r.low, r.valid.top)) (omega (arith, r.valid.top))
              h behind in
          absurd (
            uncovered (
              Covered-reverse_aux (q - b) (num_gabs s) []
                (inl (num_gabs-Covered s b q r.valid r.newest behind (inside missing) missing))))
    ]
  ]
    where
      inside : seen s q ≡ false → q < s.max_pn_seen
      inside missing = elim (lt_or_le q s.max_pn_seen) [
        | inl less ↦ less
        | inr more ↦
            let e : q ≡ s.max_pn_seen = omega (arith, acked_bounds h) in cc (e, r.newest, missing)
      ]

Covered-missing :
    (s : PnSpace) (b i : ℕ) (gs : List GapBlock)
    → All (IsGap s b) gs
    → Covered i gs
    → test_bit s.pn_map i ≡ false
Covered-missing s b i [] gaps c = absurd c
Covered-missing s b i (g ∷ gs) (gap, gaps) (inl c) = gap.missing i c.0 c.1
Covered-missing s b i (g ∷ gs) (gap, gaps) (inr c) = Covered-missing s b i gs gaps c

-- Every packet number that an ACK frame acknowledges was received: of a space that has received
-- the numbers `pns`, one after the other, the ranges of the frame hold none but them. They lie
-- between the smallest and the largest number of the space.
ack_ranges-Received :
    {pns : List ℕ} {s : PnSpace}
    → Received pns s
    → (b : ℕ) × (s.base_pn ≡ some b)
      × ((q : ℕ)
          → IsAcked q (ack_ranges s b)
          → Memᴰ q pns × (s.min_pn_seen ≤ q) × (q ≤ s.max_pn_seen))
ack_ranges-Received {pns} {s} before =
    let (b, r) = Received-Records before in
    (
      b,
      r.valid.based,
      λ q h.
          let (lo, hi) = acked_bounds pns s b q r h in
          (r.known q lo (acked-seen pns s b q r h), lo, hi),
    )

-- With fewer than 32 gap blocks nothing is left out: what counts as received between the smallest
-- and the largest number of a space is in the ranges of its ACK frame.
pub seen-ack_ranges :
    (s : PnSpace) (b q : ℕ)
    → IsValid s b
    → length (num_gabs s) < pn_map_max_gabs
    → s.min_pn_seen < b
    → s.min_pn_seen ≤ q
    → q ≤ s.max_pn_seen
    → seen s q ≡ true
    → IsAcked q (ack_ranges s b)
seen-ack_ranges s b q v few low lo hi e =
    uncovered-IsAcked b s.min_pn_seen low q s.max_pn_seen (s.max_pn_seen + 2 - b) _ (blocks s b v)
      lo hi uncovered
  where
    missing : b ≤ q → test_bit s.pn_map (q - b) ≡ false → seen_at b s.pn_map q ≡ false
    missing behind bit = unfold seen_at in ground arith

    uncovered : b ≤ q → ¬ Covered (q - b) (reverse (num_gabs s))
    uncovered behind c = elim (reverse_aux-Covered (q - b) (num_gabs s) [] c) [
      | inl there ↦ cc (
        missing behind
            (Covered-missing s b (q - b) (num_gabs s) ((num_gabs-IsGap s b v).1 few) there),
        seen-at s b q v.based,
        e,
      )
      | inr none_there ↦ none_there
    ]
