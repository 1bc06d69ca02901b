-- ===== src/PnSpace/History.antt =====
-- The packet numbers that a space has received, one after the other: each is checked, then marked.
use mathlib.Core.List.{Memᴰ}
use quic.Prelude.{
  ℕ, ◌+◌, ◌-◌, ◌≤◌, ◌<◌, ◌≡◌, refl, sym, ap, ◌∙◌, ◌⊎◌, inl, inr, subst, true, false, none, some,
  List, [], ◌∷◌, ◌==◌, ◌||◌, leb, length, arith, Bool-cases, lt_or_le,
}
use quic.PnSpace.{
  PnSpace, test_bit, pnspace_check, pnspace_mark, fresh, Marked, done, pn_map_size, set_base_pn,
}
use quic.PnSpace.Invariant.{IsValid, seen, seen_at, seen-at}
use quic.PnSpace.Marking.{Marks, mark-Marks}
use quic.PnSpace.MarkStep.{Adds, Advances}
use quic.PnSpace.Check.{check-fresh}
use quic.PnSpace.Reports.{newest-Marks}

-- The spaces that receiving the numbers, newest first, leads to; the clock may be set in between.
pub data Received : List ℕ → PnSpace → Type 0 where
  first :
      (s t : PnSpace) (pn : ℕ)
      → s.base_pn ≡ none
      → 0 < length s.pn_map
      → length s.pn_map ≤ pn_map_size
      → ((i : ℕ) → test_bit s.pn_map i ≡ false)
      → pnspace_mark true s pn ≡ done t
      → Received (pn ∷ []) t
  next :
      (pns : List ℕ) (s t : PnSpace) (pn : ℕ)
      → Received pns s
      → pnspace_check s pn ≡ fresh
      → pnspace_mark true s pn ≡ done t
      → Received (pn ∷ pns) t
  clock :
      (pns : List ℕ) (s : PnSpace) (now : ℕ)
      → Received pns s
      → Received pns (record s { time = now })

-- What a space knows of the numbers it has received. Those below its minimum are forgotten.
pub record Records (pns : List ℕ) (s : PnSpace) (b : ℕ) : Type 0 where
  pub valid : IsValid s b
  pub low : s.min_pn_seen < b
  pub newest : seen s s.max_pn_seen ≡ true
  pub ordered : s.min_pn_seen ≤ s.last_max_pn_seen
  pub last : Memᴰ s.last_max_pn_seen pns
  pub known : (q : ℕ) → s.min_pn_seen ≤ q → seen s q ≡ true → Memᴰ q pns

-- A base that is not behind the numbers received.
base_behind : (t : PnSpace) (b b' : ℕ) → IsValid t b' → ((q : ℕ) → q < b → seen t q ≡ true) → b ≤ b'
base_behind t b b' w h = elim (lt_or_le b' b) [
  | inl before ↦ cc (h b' before, seen-at t b' b' w.based, first_missing t b' w)
  | inr behind ↦ behind
]
  where
    first_missing : (t : PnSpace) (b' : ℕ) → IsValid t b' → seen_at b' t.pn_map b' ≡ false
    first_missing t b' w = unfold seen_at in ground (arith, w.first)

pub below_base : (s : PnSpace) (b q : ℕ) → s.base_pn ≡ some b → q < b → seen s q ≡ true
below_base s b q e h = seen-at s b q e ∙ unfold seen_at in ground arith

added_one : (s : PnSpace) (pn q : ℕ) → (seen s q || (q == pn)) ≡ true → seen s q ≡ false → q ≡ pn
added_one s pn q h unseen = ground arith

given_up :
    (s : PnSpace) (pn q : ℕ)
    → ((seen s q || (q == pn)) || leb q s.last_max_pn_seen) ≡ true
    → s.last_max_pn_seen ≤ q
    → (seen s q ≡ true) ⊎ (q ≡ pn) ⊎ (q ≡ s.last_max_pn_seen)
given_up s pn q h lo = ground arith

module _ (pns : List ℕ) (s t : PnSpace) (b b' pn : ℕ) (r : Records pns s b) (w : IsValid t b') where
  Records-Adds : Adds s pn t → Records (pn ∷ pns) t b'
  Records-Adds adds = record {
    valid = w;
    low = omega (
      arith,
      adds.minimum,
      r.low,
      base_behind t b b' w (λ q h. adds.added q ∙ rw (below_base s b q r.valid.based h) refl),
    );
    newest = newest-Marks s t pn (inl adds) r.newest;
    ordered = omega (arith, adds.minimum, adds.maximum, r.ordered);
    last = Memᴰ.tail (rw adds.maximum r.last);
    known = λ q lo h. elim (Bool-cases (seen s q)) [
      | inl old ↦ Memᴰ.tail (r.known q (omega (arith, adds.minimum)) old)
      | inr unseen ↦ Memᴰ.head (added_one s pn q (sym (adds.added q) ∙ h) unseen)
    ];
  }

  Records-Advances : Advances s pn t → Records (pn ∷ pns) t b'
  Records-Advances moves = record {
    valid = w;
    low = omega (arith, moves.minimum, base_behind t (s.last_max_pn_seen + 1) b' w passed);
    newest = newest-Marks s t pn (inr moves) r.newest;
    ordered = omega (arith, moves.minimum, moves.maximum, moves.newest, r.valid.last);
    last = Memᴰ.head moves.maximum;
    known = λ q lo h.
        elim (given_up s pn q (sym (moves.added q) ∙ h) (omega (arith, moves.minimum))) [
          | inl old ↦ Memᴰ.tail (r.known q (omega (arith, moves.minimum, r.ordered)) old)
          | inr (inl new) ↦ Memᴰ.head new
          | inr (inr edge) ↦ Memᴰ.tail (rw edge r.last)
        ];
  }
    where
      passed : (q : ℕ) → q < s.last_max_pn_seen + 1 → seen t q ≡ true
      passed q h = moves.added q ∙ ground arith

  Records-Marks : Marks s pn t → Records (pn ∷ pns) t b'
  Records-Marks (inl adds) = Records-Adds adds
  Records-Marks (inr moves) = Records-Advances moves

Records-first :
    (s : PnSpace) (pn : ℕ)
    → 0 < length s.pn_map
    → length s.pn_map ≤ pn_map_size
    → ((i : ℕ) → test_bit s.pn_map i ≡ false)
    → Records (pn ∷ []) (set_base_pn s (pn + 1)) (pn + 1)
unfolding set_base_pn
Records-first s pn pos fits zeros = record {
  valid = record {
    based = refl;
    fits = fits;
    reach = omega arith;
    top = omega arith;
    clear = λ i _. zeros i;
    first = zeros 0;
    last = omega arith;
  };
  low = omega arith;
  newest = below_base (set_base_pn s (pn + 1)) (pn + 1) (pn + 1 - 1) refl (omega arith);
  ordered = omega arith;
  last = Memᴰ.head (omega arith);
  known = λ q lo h. Memᴰ.head (only q lo h);
}
  where
    only : (q : ℕ) → pn + 1 - 1 ≤ q → seen (set_base_pn s (pn + 1)) q ≡ true → q ≡ pn
    only q lo h = unfold seen seen_at in ground (arith, zeros (q - (pn + 1)))

mark_first-eq :
    (s : PnSpace) (pn : ℕ)
    → s.base_pn ≡ none
    → pnspace_mark true s pn ≡ done (set_base_pn s (pn + 1))
unfolding pnspace_mark
mark_first-eq s pn e = rw e refl

marked_space : PnSpace → Marked → PnSpace
marked_space s (done t) = t
marked_space s _ = s

done_inj : {m : Marked} {s t : PnSpace} → m ≡ done s → m ≡ done t → s ≡ t
unfolding marked_space
done_inj {s} e e' = ap (marked_space s) (sym e ∙ e')

Records-clock :
    {pns : List ℕ} (s : PnSpace) (b now : ℕ)
    → Records pns s b
    → Records pns (record s { time = now }) b
unfolding seen
Records-clock s b now r = record {
  valid = record {
    based = r.valid.based;
    fits = r.valid.fits;
    reach = r.valid.reach;
    top = r.valid.top;
    clear = r.valid.clear;
    first = r.valid.first;
    last = r.valid.last;
  };
  low = r.low;
  newest = r.newest;
  ordered = r.ordered;
  last = r.last;
  known = r.known;
}

-- A space knows of no number, from its minimum on, that it did not receive: whatever numbers are
-- checked and marked, what counts as received from the minimum on is one of them. The minimum lies
-- below the base, the largest number counts as received, and the space stays well-formed.
pub Received-Records : {pns : List ℕ} {s : PnSpace} → Received pns s → (b : ℕ) × Records pns s b
Received-Records (first s t pn e pos fits zeros marks) = (
  pn + 1,
  subst (λ u. Records (pn ∷ []) u (pn + 1)) (done_inj (mark_first-eq s pn e) marks)
      (Records-first s pn pos fits zeros),
)
Received-Records (next pns s t pn before new marks) =
    let (b, r) = Received-Records before in
    let (u, b', e, w, joins) = mark-Marks s b pn r.valid ((check-fresh s b pn r.valid).0 new).1 in
    (
      b',
      subst (λ u. Records (pn ∷ pns) u b') (done_inj e marks)
          (Records-Marks pns s u b b' pn r w joins),
    )
Received-Records (clock pns s now before) =
    let (b, r) = Received-Records before in (b, Records-clock s b now r)
