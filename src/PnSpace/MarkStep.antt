-- ===== src/PnSpace/MarkStep.antt =====
-- The update of the bitmap in `quic_pnspace_mark`: at the base, and inside the map.
use quic.Prelude.{
  ℕ, ◌+◌, ◌-◌, ◌≤◌, ◌<◌, ◌≡◌, refl, ap, ◌∙◌, true, false, ◌||◌, some, ◌==◌, ==_iff, leb, set,
  length, arith, lt→ltb, max,
}
use native.Mathlib.Nat.{le_refl}
use quic.PnSpace.{
  PnSpace, Marked, done, pnspace_move, mark_window, note_max, has_gap, advance_base, mark_rest,
  mark_bit,
}
use quic.PnSpace.Invariant.{
  IsValid, seen, seen_at, seen-at, move-IsValid, seen-move, stop_at, note_max-IsValid, set-IsValid,
  seen_at-set,
}

-- `pn` joins the received numbers, and nothing else changes in what was received.
pub record Adds (s : PnSpace) (pn : ℕ) (t : PnSpace) : Type 0 where
  pub minimum : t.min_pn_seen ≡ s.min_pn_seen
  pub maximum : t.last_max_pn_seen ≡ s.last_max_pn_seen
  pub largest : t.max_pn_seen ≡ max s.max_pn_seen pn
  pub added : (q : ℕ) → seen t q ≡ (seen s q || (q == pn))

-- `pn` joins as the largest, and the numbers up to the last maximum are given up with it.
pub record Advances (s : PnSpace) (pn : ℕ) (t : PnSpace) : Type 0 where
  pub minimum : t.min_pn_seen ≡ s.last_max_pn_seen
  pub maximum : t.last_max_pn_seen ≡ pn
  pub newest : s.max_pn_seen ≤ pn
  pub largest : t.max_pn_seen ≡ max s.max_pn_seen pn
  pub added : (q : ℕ) → seen t q ≡ ((seen s q || (q == pn)) || leb q s.last_max_pn_seen)

-- The space between the update of the bitmap and that of the window.
pub record Middle (s : PnSpace) (pn : ℕ) (r : Marked) (m : PnSpace) (b : ℕ) : Type 0 where
  pub valid : IsValid m b
  pub joins : Adds s pn m
  pub rest : r ≡ done (mark_window m b pn)

fields-note_max :
    (s : PnSpace) (p : ℕ)
    → ((note_max s p).pn_map ≡ s.pn_map)
      × ((note_max s p).base_pn ≡ s.base_pn)
      × ((note_max s p).min_pn_seen ≡ s.min_pn_seen)
      × ((note_max s p).last_max_pn_seen ≡ s.last_max_pn_seen)
      × ((note_max s p).max_pn_seen ≡ max s.max_pn_seen p)
unfolding note_max
fields-note_max s p = ground arith

fields-move :
    (s : PnSpace) (b p : ℕ)
    → ((pnspace_move s b p).min_pn_seen ≡ s.min_pn_seen)
      × ((pnspace_move s b p).last_max_pn_seen ≡ s.last_max_pn_seen)
      × ((pnspace_move s b p).max_pn_seen ≡ s.max_pn_seen)
unfolding pnspace_move
fields-move s b p = (refl, refl, refl)

mark_rest-eq :
    (m : PnSpace) (b pn : ℕ) → m.base_pn ≡ some b → mark_rest m pn ≡ done (mark_window m b pn)
unfolding mark_rest
mark_rest-eq m b pn e = ground arith

-- With the maximum noted, a packet at the base always leaves a gap behind it in the sense of
-- `quic_pnspace_has_gap`: the branch that only increments the base is never taken.
advance_base-move :
    (s : PnSpace) (pn : ℕ)
    → s.base_pn ≡ some pn
    → advance_base (note_max s pn) pn ≡ pnspace_move (note_max s pn) pn pn
unfolding advance_base has_gap note_max
advance_base-move s pn e = ground arith

ne→== : (a b : ℕ) → a < b → (a == b) ≡ false
ne→== a b h = ground arith

module _ (s : PnSpace) (b : ℕ) (v : IsValid s b) (hi : b < b + length s.pn_map) where
  noted_at_base : IsValid (note_max s b) b × (b ≤ (note_max s b).max_pn_seen)
  noted_at_base = note_max-IsValid s b b v (le_refl b) hi

  added_at_base : (q : ℕ) → seen (pnspace_move (note_max s b) b b) q ≡ (seen s q || (q == b))
  added_at_base q =
      let (w, le) = noted_at_base in
      seen-move (note_max s b) b b w (omega arith) le q
      ∙ rw ((fields-note_max s b).0, seen-at s b q v.based) (unfold seen_at in ground arith)

  pub Middle-at_base : (m : PnSpace) × (b' : ℕ) × Middle s b (mark_bit s b b (b - b)) m b'
  unfolding mark_bit
  Middle-at_base =
      let (w, le) = noted_at_base in
      let w' = move-IsValid (note_max s b) b b w (omega arith) le in
      (
        pnspace_move (note_max s b) b b,
        b + stop_at (note_max s b).pn_map b b,
        record {
          valid = w';
          joins = record {
            minimum = (fields-move (note_max s b) b b).0 ∙ (fields-note_max s b).2;
            maximum = (fields-move (note_max s b) b b).1 ∙ (fields-note_max s b).3;
            largest = (fields-move (note_max s b) b b).2 ∙ (fields-note_max s b).4;
            added = added_at_base;
          };
          rest = rw ((==_iff b b).1 refl) (
              ap (λ n. mark_rest n b) (advance_base-move s b v.based)
              ∙ mark_rest-eq _ _ b w'.based);
        },
      )

-- A bit set in the map.
with_bit : PnSpace → ℕ → ℕ → PnSpace
with_bit s b pn = record (note_max s pn) { pn_map = set (note_max s pn).pn_map (pn - b) true }

module _ (s : PnSpace) (b pn : ℕ) (v : IsValid s b) (lo : b < pn)
    (hi : pn < b + length s.pn_map) where
  with_bit-IsValid : IsValid (with_bit s b pn) b
  unfolding with_bit
  with_bit-IsValid =
      let (w, le) = note_max-IsValid s b pn v (omega arith) hi in
      set-IsValid (note_max s pn) b pn w lo le

  added_inside : (q : ℕ) → seen (with_bit s b pn) q ≡ (seen s q || (q == pn))
  added_inside q =
      seen-at (with_bit s b pn) b q with_bit-IsValid.based
      ∙ unfold with_bit in
        rw ((fields-note_max s pn).0, seen-at s b q v.based)
          (seen_at-set s.pn_map b pn q (omega arith) hi)

  pub Middle-inside : (m : PnSpace) × (b' : ℕ) × Middle s pn (mark_bit s b pn (pn - b)) m b'
  unfolding mark_bit with_bit
  Middle-inside = (
    with_bit s b pn,
    b,
    record {
      valid = with_bit-IsValid;
      joins = record {
        minimum = (fields-note_max s pn).2;
        maximum = (fields-note_max s pn).3;
        largest = (fields-note_max s pn).4;
        added = added_inside;
      };
      rest =
          rw (ne→== b pn lo, lt→ltb (pn - b) (length s.pn_map) (omega arith))
            (mark_rest-eq (with_bit s b pn) b pn with_bit-IsValid.based);
    },
  )
