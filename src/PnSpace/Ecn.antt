-- ===== src/PnSpace/Ecn.antt =====
-- The ECN counters, and the largest acknowledged number.
use quic.Prelude.{
  ℕ, zero, suc, ◌+◌, ◌≤◌, ◌<◌, ◌≡◌, ◌↔◌, true, not, ◌||◌, ltb, ◌==◌, max, if◌then◌else◌, arith,
}
use quic.Prelude.Words.{u64_mod}
use quic.PnSpace.{
  PnSpace, EcnCount, set_ecn_count, inc_ecn_count, has_ecn_count, set_max_pn_acked_seen,
}

-- The peer's counters never fall: each becomes the larger of the old and the reported value, a
-- congestion signal is returned exactly if the CE counter rises, and nothing else changes.
pub set_ecn_count_lem :
    (s : PnSpace) (c : EcnCount)
    → ((set_ecn_count s c).0 ≡ record s {
      ecn_peer = record {
        ect1 = max s.ecn_peer.ect1 c.ect1;
        ect0 = max s.ecn_peer.ect0 c.ect0;
        ce = max s.ecn_peer.ce c.ce;
      };
    })
      × (((set_ecn_count s c).1 ≡ true) ↔ (s.ecn_peer.ce < c.ce))
unfolding set_ecn_count
set_ecn_count_lem s c = ground arith

-- A packet with an ECN codepoint is counted, so that the counters are reported in the next ACK
-- frame; a packet without one changes nothing.
pub has_ecn_count-inc :
    (s : PnSpace) (ecn : ℕ)
    → ecn ≤ 3
    → s.ecn_local.ect1 + 1 < u64_mod
    → s.ecn_local.ect0 + 1 < u64_mod
    → s.ecn_local.ce + 1 < u64_mod
    → has_ecn_count (inc_ecn_count s ecn) ≡ (has_ecn_count s || not (ecn == 0))
unfolding has_ecn_count inc_ecn_count
has_ecn_count-inc s zero h a b c = ground arith
has_ecn_count-inc s (suc zero) h a b c = ground arith
has_ecn_count-inc s (suc (suc zero)) h a b c = ground arith
has_ecn_count-inc s (suc (suc (suc n))) h a b c = ground arith

-- The largest acknowledged number only grows, and its time is noted exactly when it does.
pub set_max_pn_acked_seen_lem :
    (s : PnSpace) (now pn : ℕ)
    → ((set_max_pn_acked_seen s now pn).max_pn_acked_seen ≡ max s.max_pn_acked_seen pn)
      × ((set_max_pn_acked_seen s now pn).max_pn_acked_time
          ≡ (if ltb s.max_pn_acked_seen pn then now else s.max_pn_acked_time))
unfolding set_max_pn_acked_seen
set_max_pn_acked_seen_lem s now pn = ground arith
