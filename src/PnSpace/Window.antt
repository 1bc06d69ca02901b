-- ===== src/PnSpace/Window.antt =====
-- The end of `quic_pnspace_mark`: the window stays, or moves on to the last maximum.
use quic.Prelude.{
  ℕ, ◌+◌, ◌≤◌, ◌≡◌, refl, ◌∙◌, ◌⊎◌, inl, inr, ◌||◌, if◌then◌else◌, ◌==◌, ==_iff, ltb, leb, arith,
  Bool-cases, ltb→lt, ltb→le,
}
use native.Mathlib.Nat.{le_refl}
use quic.PnSpace.{PnSpace, pnspace_move, window_due, mark_window}
use quic.PnSpace.Invariant.{IsValid, seen, seen_at, seen-at, move-IsValid, seen-move, stop_at}

-- The window moved: the old last maximum is the new minimum, `pn` the new last maximum, and what
-- was not received up to the old last maximum is given up.
pub record Moves (s : PnSpace) (pn : ℕ) (t : PnSpace) : Type 0 where
  pub minimum : t.min_pn_seen ≡ s.last_max_pn_seen
  pub maximum : t.last_max_pn_seen ≡ pn
  pub newest : s.max_pn_seen ≡ pn
  pub largest : t.max_pn_seen ≡ s.max_pn_seen
  pub given_up : (q : ℕ) → seen t q ≡ (seen s q || leb q s.last_max_pn_seen)

-- The space in the middle of the move, and the three fields that are written last.
skipped : PnSpace → ℕ → PnSpace
skipped s b = if ltb b (s.last_max_pn_seen + 1) then pnspace_move s b s.last_max_pn_seen else s

closed : PnSpace → PnSpace → PnSpace
closed s m = record m {
  min_pn_seen = s.last_max_pn_seen;
  last_max_pn_seen = s.max_pn_seen;
  last_max_pn_time = s.max_pn_time;
}

window_cases :
    (s : PnSpace) (b pn : ℕ)
    → (mark_window s b pn ≡ s)
      ⊎ ((s.max_pn_seen ≡ pn) × (mark_window s b pn ≡ closed s (skipped s b)))
unfolding mark_window closed skipped
window_cases s b pn = elim (Bool-cases (s.max_pn_seen == pn)) [
  | inl newest ↦ elim (Bool-cases (window_due s b)) [
    | inl due ↦ inr ((==_iff _ pn).0 newest, rw (newest, due))
    | inr early ↦ inl (rw (newest, early))
  ]
  | inr older ↦ inl (rw older)
]

max-move : (s : PnSpace) (b p : ℕ) → (pnspace_move s b p).max_pn_seen ≡ s.max_pn_seen
unfolding pnspace_move
max-move s b p = refl

closed-IsValid :
    (s m : PnSpace) (b : ℕ) → IsValid m b → m.max_pn_seen ≡ s.max_pn_seen → IsValid (closed s m) b
unfolding closed
closed-IsValid s m b v e = record {
  based = v.based;
  fits = v.fits;
  reach = v.reach;
  top = v.top;
  clear = v.clear;
  first = v.first;
  last = rw e (le_refl s.max_pn_seen);
}

seen-closed : (s m : PnSpace) (q : ℕ) → seen (closed s m) q ≡ seen m q
unfolding closed seen
seen-closed s m q = refl

module _ (s : PnSpace) (b : ℕ) (v : IsValid s b) where
  skipped-IsValid :
      (b' : ℕ) × IsValid (skipped s b) b' × ((skipped s b).max_pn_seen ≡ s.max_pn_seen)
  unfolding skipped
  skipped-IsValid = elim (Bool-cases (ltb b (s.last_max_pn_seen + 1))) [
    | inl ahead ↦ rw ahead (
      b + stop_at s.pn_map b s.last_max_pn_seen,
      move-IsValid s b s.last_max_pn_seen v (omega (arith, ltb→lt _ _ ahead)) v.last,
      max-move s b s.last_max_pn_seen,
    )
    | inr behind ↦ rw behind (b, v, refl)
  ]

  seen-skipped : (q : ℕ) → seen (skipped s b) q ≡ (seen s q || leb q s.last_max_pn_seen)
  unfolding skipped
  seen-skipped q = elim (Bool-cases (ltb b (s.last_max_pn_seen + 1))) [
    | inl ahead ↦
        rw (ahead, seen-at s b q v.based)
          (seen-move s b s.last_max_pn_seen v (omega (arith, ltb→lt _ _ ahead)) v.last q)
    | inr behind ↦ rw (behind, seen-at s b q v.based) (below q (ltb→le _ _ behind))
  ]
    where
      below :
          (r : ℕ)
          → s.last_max_pn_seen + 1 ≤ b
          → seen_at b s.pn_map r ≡ (seen_at b s.pn_map r || leb r s.last_max_pn_seen)
      below r h = unfold seen_at in ground arith

  -- Where the window ends up, and what it gives up.
  pub mark_window_lem :
      (pn : ℕ)
      → (b' : ℕ) × IsValid (mark_window s b pn) b'
        × ((mark_window s b pn ≡ s) ⊎ Moves s pn (mark_window s b pn))
  mark_window_lem pn = elim (window_cases s b pn) [
    | inl same ↦ rw same (b, v, inl refl)
    | inr (newest, e) ↦
        let (b', w, keeps) = skipped-IsValid in
        rw e (
          b',
          closed-IsValid s (skipped s b) b' w keeps,
          inr (record {
            minimum = unfold closed in refl;
            maximum = unfold closed in newest;
            newest = newest;
            largest = unfold closed in keeps;
            given_up = λ q. seen-closed s (skipped s b) q ∙ seen-skipped q;
          }),
        )
  ]
