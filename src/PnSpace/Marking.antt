-- ===== src/PnSpace/Marking.antt =====
-- `quic_pnspace_mark` and `quic_pnspace_check` as a set of received packet numbers.
use quic.Prelude.{
  ℕ, ◌+◌, ◌-◌, ◌≤◌, ◌<◌, ◌≡◌, refl, ap, ◌∙◌, ◌⊎◌, inl, inr, Bool, true, false, ◌||◌, some, ◌==◌,
  ==_iff, ltb, leb, length, arith, tests, Bool-cases, ltb→lt, ltb→le, leb→le, le→ltb,
}
use native.Mathlib.Nat.{mod-eq_of_lt}
use quic.Prelude.Words.{u16_mod}
use quic.Prelude.Result.{ok}
use quic.PnSpace.{
  PnSpace, Marked, done, mark_window, mark_bit, mark_gap, mark_from, pnspace_mark, pnspace_grow,
  pn_map_size,
}
use quic.PnSpace.Invariant.{IsValid, seen, seen_at, seen-at, u16_diff-eq}
use quic.PnSpace.Growth.{grown, grow-eq, grow-IsValid, grow-reaches, fields-grown, seen-grown}
use quic.PnSpace.MarkStep.{Adds, Advances, Middle, Middle-at_base, Middle-inside}
use quic.PnSpace.Window.{Moves, mark_window_lem}

-- What a successful mark does to the received numbers.
abbrev pub Marks : PnSpace → ℕ → PnSpace → Type 0
Marks s pn t = Adds s pn t ⊎ Advances s pn t

finish :
    (s : PnSpace) (pn : ℕ) (r : Marked) (m : PnSpace) (b : ℕ)
    → Middle s pn r m b
    → (t : PnSpace) × (b' : ℕ) × (r ≡ done t) × IsValid t b' × Marks s pn t
finish s pn r m b mid = close (mark_window_lem m b mid.valid pn)
  where
    close :
        (b' : ℕ) × IsValid (mark_window m b pn) b'
          × ((mark_window m b pn ≡ m) ⊎ Moves m pn (mark_window m b pn))
        → (t : PnSpace) × (b' : ℕ) × (r ≡ done t) × IsValid t b' × Marks s pn t
    close (b', w, inl same) = (m, b, mid.rest ∙ ap done same, mid.valid, inl mid.joins)
    close (b', w, inr moves) = (
      mark_window m b pn,
      b',
      mid.rest,
      w,
      inr (record {
        minimum = moves.minimum ∙ mid.joins.maximum;
        maximum = moves.maximum;
        newest = omega (arith, moves.newest, mid.joins.largest);
        largest = moves.largest ∙ mid.joins.largest;
        added = λ q. moves.given_up q ∙ rw (mid.joins.added q, mid.joins.maximum);
      }),
    )

-- The bitmap's update, for a number that the map reaches.
mark_bit_lem :
    (s : PnSpace) (b pn : ℕ)
    → IsValid s b
    → b ≤ pn
    → pn < b + length s.pn_map
    → (t : PnSpace) × (b' : ℕ) × (mark_bit s b pn (pn - b) ≡ done t) × IsValid t b' × Marks s pn t
mark_bit_lem s b pn v lo hi = elim (Bool-cases (b == pn)) [
  | inl at ↦
      let e = (==_iff b pn).0 at in
      let (m, b', mid) = Middle-at_base s b v (omega arith) in
      rw (← e) (finish s b (mark_bit s b b (b - b)) m b' mid)
  | inr off ↦
      let (m, b', mid) = Middle-inside s b pn v (ground arith) hi in
      finish s pn (mark_bit s b pn (pn - b)) m b' mid
]

-- What the growth of the map leaves as it was.
grown-Marks :
    (s : PnSpace) (b gap pn : ℕ) (v : IsValid s b) (short : length s.pn_map ≤ gap)
    (small : gap < pn_map_size) (t : PnSpace)
    → Marks (grown s b gap v short small) pn t
    → Marks s pn t
grown-Marks s b gap pn v short small t (inl adds) = inl (record {
  minimum = adds.minimum ∙ (fields-grown s b gap v short small).0;
  maximum = adds.maximum ∙ (fields-grown s b gap v short small).1;
  largest = adds.largest ∙ rw (fields-grown s b gap v short small).2;
  added = λ q. adds.added q ∙ rw (seen-grown s b gap v short small q);
})
grown-Marks s b gap pn v short small t (inr advances) = inr (record {
  minimum = advances.minimum ∙ (fields-grown s b gap v short small).1;
  maximum = advances.maximum;
  newest = omega (arith, advances.newest, (fields-grown s b gap v short small).2);
  largest = advances.largest ∙ rw (fields-grown s b gap v short small).2;
  added = λ q.
      advances.added q
      ∙ rw (seen-grown s b gap v short small q, (fields-grown s b gap v short small).1);
})

mark_gap-reached :
    (a : Bool) (s : PnSpace) (b pn gap : ℕ)
    → leb (length s.pn_map) gap ≡ false
    → mark_gap a s b pn gap ≡ mark_bit s b pn gap
unfolding mark_gap
mark_gap-reached a s b pn gap e = rw e

mark_gap-grown :
    (a : Bool) (s g : PnSpace) (b pn gap : ℕ)
    → leb (length s.pn_map) gap ≡ true
    → gap + 1 < u16_mod
    → pnspace_grow a s b (gap + 1) ≡ ok g
    → mark_gap a s b pn gap ≡ mark_bit g b pn gap
unfolding mark_gap
mark_gap-grown a s g b pn gap e small grows = rw (e, mod-eq_of_lt small, grows)

mark_gap_lem :
    (s : PnSpace) (b pn : ℕ)
    → IsValid s b
    → b ≤ pn
    → pn < b + pn_map_size
    → (t : PnSpace) × (b' : ℕ) × (mark_gap true s b pn (pn - b) ≡ done t)
      × IsValid t b'
      × Marks s pn t
mark_gap_lem s b pn v lo hi = elim (Bool-cases (leb (length s.pn_map) (pn - b))) [
  | inl e ↦
      let short : length s.pn_map ≤ pn - b = leb→le _ _ e in
      let small : pn - b < pn_map_size = omega arith in
      let (t, b', is_done, w, marks) =
        mark_bit_lem (grown s b (pn - b) v short small) b pn
          (grow-IsValid s b (pn - b) v short small) lo
          (omega (arith, grow-reaches s b (pn - b) v short small)) in
      (
        t,
        b',
        mark_gap-grown true s _ b pn (pn - b) e (omega arith) (grow-eq s b (pn - b) v short small)
            ∙ is_done,
        w,
        grown-Marks s b (pn - b) pn v short small t marks,
      )
  | inr e ↦
      let (t, b', is_done, w, marks) = mark_bit_lem s b pn v lo (omega (tests, e)) in
      (t, b', mark_gap-reached true s b pn (pn - b) e ∙ is_done, w, marks)
]

pub mark-based :
    (a : Bool) (s : PnSpace) (b pn : ℕ)
    → s.base_pn ≡ some b
    → pnspace_mark a s pn ≡ mark_from a s b pn
unfolding pnspace_mark
mark-based a s b pn e = ground arith

mark_from-old : (a : Bool) (s : PnSpace) (b pn : ℕ) → ltb pn b ≡ true → mark_from a s b pn ≡ done s
unfolding mark_from
mark_from-old a s b pn e = rw e

pub mark_from-gap :
    (a : Bool) (s : PnSpace) (b pn : ℕ)
    → b ≤ pn
    → pn - b < u16_mod
    → mark_from a s b pn ≡ mark_gap a s b pn (pn - b)
unfolding mark_from
mark_from-gap a s b pn lo small = rw (le→ltb pn b lo, u16_diff-eq pn b lo small)

-- A packet number below the end of the window, which `quic_pnspace_check` requires, is marked with
-- no error and no write outside the map if the allocation succeeds. The invariant is kept, and
-- either exactly this number joins the received ones, or the window also moves on and gives up what
-- was missing up to the last maximum.
pub mark-Marks :
    (s : PnSpace) (b pn : ℕ)
    → IsValid s b
    → pn < b + pn_map_size
    → (t : PnSpace) × (b' : ℕ) × (pnspace_mark true s pn ≡ done t) × IsValid t b' × Marks s pn t
mark-Marks s b pn v hi = elim (Bool-cases (ltb pn b)) [
  | inl old ↦ (
    s,
    b,
    mark-based true s b pn v.based ∙ mark_from-old true s b pn old,
    v,
    inl (record {
      minimum = refl;
      maximum = refl;
      largest = omega (tests, v.top, old);
      added = already_seen (ltb→lt pn b old);
    }),
  )
  | inr here ↦
      let lo : b ≤ pn = ltb→le pn b here in
      let (t, b', e, w, marks) = mark_gap_lem s b pn v lo hi in
      (
        t,
        b',
        mark-based true s b pn v.based ∙ mark_from-gap true s b pn lo (omega arith) ∙ e,
        w,
        marks,
      )
]
  where
    already_seen : pn < b → (q : ℕ) → seen s q ≡ (seen s q || (q == pn))
    already_seen h q = rw (seen-at s b q v.based) (unfold seen_at in ground arith)
