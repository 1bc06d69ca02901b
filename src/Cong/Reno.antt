-- ===== src/Cong/Reno.antt =====
-- The New Reno functions of cong.c.
use quic.Prelude.{ℕ, ◌/◌, if◌then◌else◌, min, max}
use quic.Prelude.Words.{add32, mul32}
use quic.Cong.Types.{
  Cong, slow_start, recovery_period, congestion_avoidance, check_persistent_congestion,
}
use quic.Cong.Cubic.{leave_slow_start, leave_recovery}

unfoldable pub reno_handle_packet_lost : Cong → Cong
reno_handle_packet_lost c = elim c.state [
  | recovery_period ↦ c
  | _ ↦
      let reduced = max (c.window / 2) c.min_window in
      record c {
        recovery_time = c.time;
        state = recovery_period;
        ssthresh = reduced;
        window = reduced;
      }
]

unfoldable pub reno_on_packet_lost : Cong → ℕ → Cong
unfolding reno_handle_packet_lost
reno_on_packet_lost c time =
    let (c', persistent) = check_persistent_congestion c time in
    if persistent then c' else reno_handle_packet_lost c'

unfoldable pub reno_on_packet_acked : Cong → ℕ → ℕ → Cong
unfolding leave_slow_start leave_recovery
reno_on_packet_acked c time bytes = elim c.state [
  | slow_start ↦ leave_slow_start (record c { window = min (add32 c.window bytes) c.max_window })
  | recovery_period ↦ leave_recovery c time
  | congestion_avoidance ↦ record c { window = add32 c.window (mul32 c.mss bytes / c.window) }
]

unfoldable pub reno_on_process_ecn : Cong → Cong
unfolding reno_handle_packet_lost
reno_on_process_ecn c = reno_handle_packet_lost c

unfoldable pub reno_on_init : Cong → Cong
reno_on_init c = c
