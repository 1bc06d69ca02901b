-- ===== src/PathMtu/Runs.antt =====
-- Runs of the MTU discovery, and the theorems applied to a fresh path and to a search.
use quic.Prelude.{ℕ, ◌+◌, ◌≤◌, ◌≡◌, refl, arith}
use quic.PathMtu.{
  Pl, disabled, searching, complete, base_plpmtu, max_plpmtu, pl_min_step, pl_recv, pl_reset,
}
use quic.PathMtu.Invariant.{IsValid}
use quic.PathMtu.Moves.{receives, here, next, Reach-bounds}
use quic.PathMtu.Search.{acked, search_completes}

abbrev old_path : Pl
old_path = record {
  number = 7;
  pmtu = 0;
  probe_size = 0;
  probe_high = 0;
  probe_count = 0;
  state = disabled;
}

-- 1400 bytes are confirmed, 1432 are out, and 1464 have failed.
abbrev search_path : Pl
search_path = record {
  number = 7;
  pmtu = 1400;
  probe_size = 1432;
  probe_high = 1464;
  probe_count = 1;
  state = searching;
}

search_path-IsValid : IsValid search_path
search_path-IsValid = ground arith

-- Acknowledged in steps of four, the search ends at 1460.
acked_search : (acked 8 search_path).pmtu ≡ 1460
unfolding acked pl_recv
acked_search = refl

Reach-bounds_example :
    let q = (pl_recv (pl_reset old_path)).pl in
    (base_plpmtu ≤ q.pmtu) × (q.pmtu ≤ q.probe_size) × (q.probe_size ≤ max_plpmtu)
Reach-bounds_example =
    Reach-bounds old_path (pl_recv (pl_reset old_path)).pl (next here (receives refl))

search_completes_example :
    (n : ℕ) × (n ≤ 7802)
    × ((acked n search_path).state ≡ complete)
    × (1464 ≤ (acked n search_path).pmtu + pl_min_step)
    × ((acked n search_path).pmtu ≤ 1464)
search_completes_example = search_completes search_path search_path-IsValid refl
