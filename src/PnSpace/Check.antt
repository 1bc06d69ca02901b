-- ===== src/PnSpace/Check.antt =====
-- `quic_pnspace_check`, alone and together with `quic_pnspace_mark`.
use quic.Prelude.{
  ℕ, ◌+◌, ◌-◌, ◌≤◌, ◌<◌, ◌≡◌, ◌≢◌, refl, ◌∙◌, ◌↔◌, inl, inr, Bool, true, false, ◌&&◌, ◌||◌, ◌++◌,
  take, replicate, none, some, if◌then◌else◌, ltb, leb, length, arith,
}
use quic.Prelude.Result.{ok, einval, enomem}
use quic.Prelude.Words.{u16_mod}
use quic.PnSpace.{
  PnSpace, done, failed, overrun, fresh, received, out_of_range, test_bit, mark_gap, mark_from,
  mark_bit, pnspace_mark, pnspace_check, pnspace_grow, grow_len, u16_diff, pn_map_size, set_base_pn,
}
use quic.PnSpace.Invariant.{IsValid, seen, seen_at, seen-at, u16_diff-eq}
use quic.PnSpace.Bitmap.{test_bit_beyond, length-grown}
use quic.PnSpace.Marking.{Marks, mark-Marks, mark-based, mark_from-gap}

check-at :
    (s : PnSpace) (b q : ℕ)
    → s.base_pn ≡ some b
    → pnspace_check s q ≡ (
        if ltb q s.min_pn_seen || leb (b + pn_map_size) q
        then out_of_range
        else if ltb q b || (ltb (q - b) (length s.pn_map) && test_bit s.pn_map (q - b))
        then received
        else fresh)
unfolding pnspace_check
check-at s b q e = ground arith

-- A packet number is reported as new exactly if it lies in the window and was not received.
pub check-fresh :
    (s : PnSpace) (b q : ℕ)
    → IsValid s b
    → (pnspace_check s q ≡ fresh)
      ↔ ((s.min_pn_seen ≤ q) × (q < b + pn_map_size) × (seen s q ≡ false))
check-fresh s b q v =
    rw (check-at s b q v.based, seen-at s b q v.based)
      (unfold seen_at in ground (arith, test_bit_beyond s.pn_map (q - b)))

seen-Marks : (s t : PnSpace) (pn : ℕ) → Marks s pn t → seen t pn ≡ true
seen-Marks s t pn (inl adds) = adds.added pn ∙ ground arith
seen-Marks s t pn (inr advances) = advances.added pn ∙ ground arith

-- Once a packet number of the window is marked, it is never reported as new again.
check-mark :
    (s : PnSpace) (b pn : ℕ)
    → IsValid s b
    → pn < b + pn_map_size
    → (t : PnSpace) × (pnspace_mark true s pn ≡ done t) × (pnspace_check t pn ≢ fresh)
check-mark s b pn v h =
    let (t, b', e, w, marks) = mark-Marks s b pn v h in
    (t, e, λ new. cc (seen-Marks s t pn marks, ((check-fresh t b' pn w).0 new).2))

-- The first packet of a space is always new; marking it makes the base the number behind it, and
-- exactly the numbers up to it count as received.
pub mark_first :
    (a : Bool) (s : PnSpace) (pn : ℕ)
    → s.base_pn ≡ none
    → 0 < length s.pn_map
    → length s.pn_map ≤ pn_map_size
    → ((i : ℕ) → test_bit s.pn_map i ≡ false)
    → (pnspace_check s pn ≡ fresh)
      × (t : PnSpace) × (pnspace_mark a s pn ≡ done t)
      × IsValid t (pn + 1)
      × ((q : ℕ) → seen t q ≡ leb q pn)
unfolding pnspace_check pnspace_mark
mark_first a s pn e pos fits zeros = (
  ground arith,
  set_base_pn s (pn + 1),
  ground arith,
  unfold set_base_pn in
      record {
        based = refl;
        fits = fits;
        reach = omega arith;
        top = omega arith;
        clear = λ i _. zeros i;
        first = zeros 0;
        last = omega arith;
      },
  λ q. unfold set_base_pn seen seen_at in ground (arith, zeros (q - (pn + 1))),
)

-- A number whose bit the map does not hold yet is refused with -ENOMEM if the larger map cannot be
-- allocated.
pub mark_no_memory :
    (s : PnSpace) (b pn : ℕ)
    → IsValid s b
    → b + length s.pn_map ≤ pn
    → pn < b + pn_map_size
    → pnspace_mark false s pn ≡ failed enomem
unfolding pnspace_mark mark_from mark_gap pnspace_grow
mark_no_memory s b pn v lo hi =
    ground (arith, v.based, u16_diff-eq pn b (omega arith) (omega arith))

-- Growth to no size at all, which the wrapped gap asks for, leaves at most 4096 bits.
grow-none :
    (s : PnSpace) (b : ℕ)
    → (g : PnSpace) × (pnspace_grow true s b 0 ≡ ok g) × (length g.pn_map ≤ pn_map_size)
unfolding pnspace_grow grow_len
grow-none s b = (
  record s {
    pn_map = take (grow_len 0 (length s.pn_map)) (
        take (u16_diff (s.max_pn_seen + 1) b) s.pn_map
        ++ replicate (grow_len 0 (length s.pn_map)) false);
  },
  refl,
  omega (
    arith,
    length-grown s.pn_map (u16_diff (s.max_pn_seen + 1) b) (grow_len 0 (length s.pn_map)),
  ),
)

-- `quic_pnspace_check` lets no number beyond the window pass. Marking one all the same fails with
-- -EINVAL as long as it is less than 65535 behind the base; at 65535 the 16-bit size of the map wraps
-- to 0, and a bit is set outside the map. (Further on the gap itself wraps; that is left out.)
pub mark_outside :
    (s : PnSpace) (b pn : ℕ)
    → IsValid s b
    → (b + pn_map_size ≤ pn → pn < b + 65535 → pnspace_mark true s pn ≡ failed einval)
      × (pn ≡ b + 65535 → pnspace_mark true s pn ≡ overrun)
      × (b + pn_map_size ≤ pn → pnspace_check s pn ≡ out_of_range)
mark_outside s b pn v = (
  λ lo hi.
      let near : pn - b < u16_mod = omega arith in
      mark-based true s b pn v.based
      ∙ mark_from-gap true s b pn (omega arith) near
      ∙ refused (pn - b) (omega arith) (omega arith),
  λ e. wraps e,
  λ lo. check-at s b pn v.based ∙ ground (arith, lo),
)
  where
    refused : (gap : ℕ) → pn_map_size ≤ gap → gap < 65535 → mark_gap true s b pn gap ≡ failed einval
    refused gap lo hi = unfold mark_gap pnspace_grow in ground (arith, v.fits)

    wraps : pn ≡ b + 65535 → pnspace_mark true s pn ≡ overrun
    wraps e =
        let (g, grows, small) = grow-none s b in
        let at : pn - b ≡ 65535 = omega arith in
        mark-based true s b pn v.based
        ∙ mark_from-gap true s b pn (omega arith) (omega arith)
        ∙ rw at (unfold mark_gap mark_bit in ground (arith, grows, v.fits))
