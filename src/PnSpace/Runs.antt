-- ===== src/PnSpace/Runs.antt =====
-- Runs of the packet number space on small spaces, and the theorems applied to them.
use quic.Prelude.{ℕ, zero, ◌+◌, ◌≤◌, ◌<◌, ◌≡◌, suc, refl, true, false, [], ◌∷◌, none, some, arith}
use quic.Prelude.Result.{einval}
use quic.PnSpace.{
  PnSpace, EcnCount, test_bit, find_next, pnspace_check, pnspace_mark, fresh, received,
  out_of_range, done, failed, overrun, num_gabs, pn_map_size, next_gap_ack, num_gabs_loop, has_gap,
  span,
}
use quic.PnSpace.Invariant.{IsValid, seen}
use quic.PnSpace.Marking.{Marks, mark-Marks}
use quic.PnSpace.Check.{mark_outside}

abbrev no_ecn : EcnCount
no_ecn = record { ect1 = 0; ect0 = 0; ce = 0 }

-- Numbers up to 4, and 6, are received.
abbrev gap_space : PnSpace
gap_space = record {
  ecn_local = no_ecn;
  ecn_peer = no_ecn;
  pn_map = false ∷ true ∷ false ∷ false ∷ [];
  need_sack = 0;
  sack_path = 0;
  last_max_pn_seen = 4;
  last_max_pn_time = 0;
  min_pn_seen = 0;
  max_pn_seen = 6;
  max_pn_time = 10;
  base_pn = some 5;
  time = 20;
  max_pn_acked_seen = 3;
  max_pn_acked_time = 0;
  last_sent_time = 0;
  loss_time = 0;
  next_pn = 0;
  max_time_limit = 999000;
  inflight = 0;
}

abbrev empty_space : PnSpace
empty_space = record gap_space {
  base_pn = none;
  pn_map = false ∷ false ∷ [];
  max_pn_seen = 0;
  last_max_pn_seen = 0;
}

gap_space_clear : (i : ℕ) → 6 < 5 + i → test_bit gap_space.pn_map i ≡ false
unfolding test_bit
gap_space_clear zero h = refl
gap_space_clear (suc zero) h = absurd (omega arith)
gap_space_clear (suc (suc zero)) h = refl
gap_space_clear (suc (suc (suc zero))) h = refl
gap_space_clear (suc (suc (suc (suc i)))) h = refl

gap_space-IsValid : IsValid gap_space 5
unfolding test_bit
gap_space-IsValid = record {
  based = refl;
  fits = omega arith;
  reach = omega arith;
  top = omega arith;
  clear = gap_space_clear;
  first = refl;
  last = omega arith;
}

empty_clear : (i : ℕ) → test_bit empty_space.pn_map i ≡ false
unfolding test_bit
empty_clear zero = refl
empty_clear (suc zero) = refl
empty_clear (suc (suc i)) = refl

check_gap :
    (pnspace_check gap_space 5 ≡ fresh)
    × (pnspace_check gap_space 6 ≡ received)
    × (pnspace_check gap_space 5000 ≡ out_of_range)
unfolding pnspace_check test_bit
check_gap = (refl, refl, refl)

num_gabs_gap : num_gabs gap_space ≡ record { start = 1; end = 1 } ∷ []
unfolding num_gabs num_gabs_loop next_gap_ack has_gap span find_next
num_gabs_gap = refl

mark-Marks_example :
    (t : PnSpace) × (b' : ℕ) × (pnspace_mark true gap_space 9 ≡ done t)
    × IsValid t b'
    × Marks gap_space 9 t
mark-Marks_example = mark-Marks gap_space 5 9 gap_space-IsValid (omega arith)

mark_outside_example :
    (5 + pn_map_size ≤ 65540
      → 65540 < 5 + 65535
      → pnspace_mark true gap_space 65540 ≡ failed einval)
    × (65540 ≡ 5 + 65535 → pnspace_mark true gap_space 65540 ≡ overrun)
    × (5 + pn_map_size ≤ 65540 → pnspace_check gap_space 65540 ≡ out_of_range)
mark_outside_example = mark_outside gap_space 5 65540 gap_space-IsValid

seen_six : seen gap_space 6 ≡ true
unfolding seen test_bit
seen_six = refl

seen_five : seen gap_space 5 ≡ false
unfolding seen test_bit
seen_five = refl
