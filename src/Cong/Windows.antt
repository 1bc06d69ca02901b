-- ===== src/Cong/Windows.antt =====
-- The congestion window of cong.c: its bounds, how far an event reduces it, and how it grows.
use native.Mathlib.Nat.{div-le_of_le-mul, mul-le-mul_left, mul_comm, le_trans, le_of_eq}
use quic.Prelude.{ℕ, ◌+◌, ◌*◌, ◌/◌, ◌≤◌, ◌<◌, ◌≡◌, ◌≢◌, max, arith}
use quic.Prelude.Words.{u32_mod, sub64}
use quic.Cong.Types.{
  Cong, CongAlgo, reno, cubic, slow_start, recovery_period, congestion_avoidance,
  persistent_threshold, check_persistent_congestion, set_mss,
}
use quic.Cong.Cubic.{
  cubic_on_packet_lost, cubic_on_packet_acked, cubic_on_process_ecn, cubic_enter_recovery,
  cubic_recovery, cubic_slow_start, leave_slow_start, css_round, css_enter,
}
use quic.Cong.Reno.{
  reno_on_packet_lost, reno_on_packet_acked, reno_on_process_ecn, reno_handle_packet_lost,
}
use quic.Cong.Ops.{on_packet_lost, on_packet_acked, on_process_ecn}

-- The part of the window that is left behind a congestion event.
unfoldable pub reduced : CongAlgo → ℕ → ℕ
reduced reno window = window / 2
reduced cubic window = window * 7 / 10

-- A loss without persistent congestion, where seven windows fit 32 bits, reduces the window to the
-- algorithm's part of it, at least the minimum, sets the threshold to the window, notes the current
-- time as the start of recovery, and leaves the state in recovery; a loss during recovery changes
-- nothing.
pub window-on_packet_lost :
    (c : Cong) (time : ℕ)
    → c.window * 7 < u32_mod
    → sub64 c.time time ≤ persistent_threshold c
    → let c' = on_packet_lost c time in
      (c.state ≢ recovery_period
        → (c'.window ≡ max (reduced c.algo c.window) c.min_window)
          × (c'.ssthresh ≡ c'.window)
          × (c'.recovery_time ≡ c.time)
          × (c'.state ≡ recovery_period))
      × (c.state ≡ recovery_period → c' ≡ c)
unfolding on_packet_lost cubic_on_packet_lost reno_on_packet_lost check_persistent_congestion
    reno_handle_packet_lost cubic_enter_recovery cubic_recovery reduced
window-on_packet_lost c time small fresh = ground arith

-- The window is at least the minimum.
abbrev pub IsFloored : Cong → Type 0
IsFloored c = c.min_window ≤ c.window

-- No loss, no ECN signal and no change of the segment size takes a window that is at least the minimum
-- below it.
window_floor :
    (c : Cong) (time mss : ℕ)
    → IsFloored c
    → IsFloored (on_packet_lost c time) × IsFloored (on_process_ecn c) × IsFloored (set_mss c mss)
unfolding on_packet_lost on_process_ecn cubic_on_packet_lost reno_on_packet_lost
    cubic_on_process_ecn reno_on_process_ecn check_persistent_congestion reno_handle_packet_lost
    cubic_enter_recovery cubic_recovery set_mss
window_floor c time mss h = ground arith

-- In slow start, with a window of at most the maximum and where nothing wraps, an acknowledgement never
-- shrinks the window, and grows it by at most the bytes acknowledged and never past the maximum.
pub window-slow_start :
    (c : Cong) (time bytes number : ℕ)
    → c.state ≡ slow_start
    → c.window ≤ c.max_window
    → c.window + bytes < u32_mod
    → let c' = on_packet_acked c time bytes number in
      (c.window ≤ c'.window) × (c'.window ≤ c.window + bytes) × (c'.window ≤ c.max_window)
unfolding on_packet_acked cubic_on_packet_acked reno_on_packet_acked leave_slow_start
    cubic_slow_start css_round css_enter
window-slow_start c time bytes number slow below small = ground arith

share-le : (m b w : ℕ) → b ≤ w → m * b / w ≤ m
share-le m b w le = div-le_of_le-mul w (le_trans (mul-le-mul_left m le) (le_of_eq (mul_comm m w)))

-- In congestion avoidance New Reno grows a positive window by at most one segment for at most a window of
-- acknowledged bytes, and never shrinks it, where neither the product of segment and bytes nor the
-- sum of window and segment wraps.
pub window-reno_avoidance :
    (c : Cong) (time bytes number : ℕ)
    → c.state ≡ congestion_avoidance
    → c.algo ≡ reno
    → 0 < c.window
    → bytes ≤ c.window
    → c.mss * bytes < u32_mod
    → c.window + c.mss < u32_mod
    → let c' = on_packet_acked c time bytes number in
      (c.window ≤ c'.window) × (c'.window ≤ c.window + c.mss)
unfolding on_packet_acked reno_on_packet_acked
window-reno_avoidance c time bytes number avoid algo pos part fits fits' =
    let grown = share-le c.mss bytes c.window part in ground arith
