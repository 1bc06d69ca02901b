-- ===== src/Cong/Runs.antt =====
-- Runs of congestion control, and the theorems applied to a connection.
use quic.Prelude.{
  List, [], ◌∷◌, ℕ, ◌+◌, ◌*◌, ◌/◌, ◌≤◌, ◌<◌, ◌≡◌, ◌≢◌, refl, true, false, none, some, max, min,
  arith,
}
use quic.Prelude.Words.{u32_max}
use quic.Cong.Types.{
  Cong, CubicState, slow_start, recovery_period, congestion_avoidance, reno, cubic,
  persistent_threshold,
}
use quic.Cong.Root.{cubic_root, bit_length, root_loop, root_start, cubic_root-root}
use quic.Cong.Ops.{on_packet_lost, rtt_update, take_sample, adjusted_rtt}
use quic.Cong.Windows.{reduced, window-on_packet_lost}
use quic.Cong.Rtt.{smoothed-rtt_update}

abbrev no_cubic : CubicState
no_cubic = record {
  pending_w_add = 0;
  origin_point = 0;
  epoch_start = u32_max;
  pending_add = 0;
  w_last_max = 0;
  w_tcp = 0;
  k = 0;
  current_round_min_rtt = u32_max;
  css_baseline_min_rtt = u32_max;
  last_round_min_rtt = u32_max;
  rtt_sample_count = 0;
  css_rounds = 0;
  window_end = none;
}

-- A New Reno connection in slow start, at 1 s, with a smoothed round-trip time of 100 ms.
abbrev conn : Cong
conn = record {
  max_ack_delay = 25000;
  smoothed_rtt = 100000;
  latest_rtt = 90000;
  min_rtt = 80000;
  rttvar = 10000;
  pto = 0;
  recovery_time = 0;
  pacing_rate = 1000000;
  pacing_time = 0;
  time = 1000000;
  max_window = 1000000;
  min_window = 2800;
  loss_delay = 0;
  ssthresh = u32_max;
  window = 14000;
  mss = 1400;
  priv = no_cubic;
  initial_srtt = 333000;
  algo = reno;
  min_rtt_valid = true;
  is_rtt_set = true;
  state = slow_start;
}

abbrev css_conn : Cong
css_conn = record conn {
  algo = cubic;
  priv = record no_cubic { css_baseline_min_rtt = 90000; css_rounds = 5 };
}

root_1000 : cubic_root 1000 ≡ some 10
unfolding cubic_root bit_length root_loop root_start
root_1000 = refl

cubic_root-root_example :
    (r : ℕ) × (cubic_root 1000 ≡ some r) × (r * r * r ≤ 1000) × (1000 < (r + 1) * (r + 1) * (r + 1))
cubic_root-root_example = cubic_root-root 1000 (omega arith)

abbrev recovering : Cong
recovering = record conn { state = recovery_period; recovery_time = 900000 }

window-on_packet_lost_example :
    let c' = on_packet_lost conn 900000 in
    (slow_start ≢ recovery_period
      → (c'.window ≡ max (reduced reno 14000) 2800)
        × (c'.ssthresh ≡ c'.window)
        × (c'.recovery_time ≡ 1000000)
        × (c'.state ≡ recovery_period))
    × (slow_start ≡ recovery_period → c' ≡ conn)
unfolding persistent_threshold
window-on_packet_lost_example = window-on_packet_lost conn 900000 (omega arith) (omega arith)

abbrev avoiding : Cong
avoiding = record conn { state = congestion_avoidance }

-- Six acknowledgements of packets of one round.
abbrev six : List (ℕ × ℕ × ℕ)
six =
    (950000, 1400, 7)
    ∷ (950000, 1400, 8)
    ∷ (950000, 1400, 9)
    ∷ (950000, 1400, 10)
    ∷ (950000, 1400, 11)
    ∷ (950000, 1400, 12)
    ∷ []

abbrev css_start : Cong
css_start = record css_conn { priv = record css_conn.priv { css_rounds = 0 } }

abbrev unset_conn : Cong
unset_conn = record conn { is_rtt_set = false }

sample_adjusted : adjusted_rtt (take_sample conn 950000) 5000 ≡ 50000
unfolding adjusted_rtt take_sample
sample_adjusted = refl

smoothed-rtt_update_example :
    let a = adjusted_rtt (take_sample conn 950000) 5000 in
    let c' = rtt_update conn 950000 5000 in
    (c'.smoothed_rtt ≡ (100000 * 7 + a) / 8)
    × (min 100000 a ≤ c'.smoothed_rtt)
    × (c'.smoothed_rtt ≤ max 100000 a)
smoothed-rtt_update_example =
    smoothed-rtt_update conn 950000 5000 (omega arith) refl (omega (arith, sample_adjusted))
