-- ===== src/Cong/Conservative.antt =====
-- HyStart++'s conservative slow start in cong.c: it comes to an end.
use quic.Prelude.{ℕ, ◌≤◌, ◌≡◌, ◌≢◌, List, [], ◌∷◌}
use quic.Prelude.Words.{u32_max}
use quic.Cong.Types.{Cong, cubic, slow_start}
use quic.Cong.Ops.{on_packet_acked}

-- Packets acknowledged one after the other: the time each was sent, its bytes and its number.
unfoldable pub acked_all : List (ℕ × ℕ × ℕ) → Cong → Cong
acked_all [] c = c
acked_all ((time, bytes, number) ∷ acks) c = acked_all acks (on_packet_acked c time bytes number)

-- CUBIC in conservative slow start, with at most five rounds counted.
pub record IsConservative (c : Cong) : Type 0 where
  pub slow : c.state ≡ slow_start
  pub algo : c.algo ≡ cubic
  pub css : c.priv.css_baseline_min_rtt ≢ u32_max
  pub rounds : c.priv.css_rounds ≤ 5
