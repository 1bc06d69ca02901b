-- ===== src/Cong/Ops.antt =====
-- The operations of cong.c that the rest of the module calls: the dispatch through `quic_congs`,
-- pacing, and the round-trip time. `now` is `ktime_get_ns()`.
use quic.Prelude.{ℕ, ◌-◌, ◌/◌, ◌%◌, true, not, ltb, leb, ◌==◌, if◌then◌else◌, min, max}
use quic.Prelude.Words.{u32_mod, u32_max, add32, sub32, mul32, add64, sub64, mul64}
use quic.Cong.Types.{
  Cong, CongAlgo, reno, cubic, slow_start, kgranularity, rtt_init, usec_per_sec, nsec_per_sec,
}
use quic.Cong.Cubic.{
  cubic_on_packet_lost, cubic_on_packet_acked, cubic_on_process_ecn, cubic_on_init,
  cubic_on_packet_sent, cubic_on_rtt_update,
}
use quic.Cong.Reno.{reno_on_packet_lost, reno_on_packet_acked, reno_on_process_ecn, reno_on_init}

unfoldable pub on_packet_lost : Cong → ℕ → Cong
on_packet_lost c time = elim c.algo [
  | reno ↦ reno_on_packet_lost c time
  | cubic ↦ cubic_on_packet_lost c time
]

unfoldable pub on_packet_acked : Cong → ℕ → ℕ → ℕ → Cong
on_packet_acked c time bytes number = elim c.algo [
  | reno ↦ reno_on_packet_acked c time bytes
  | cubic ↦ cubic_on_packet_acked c time bytes number
]

unfoldable pub on_process_ecn : Cong → Cong
on_process_ecn c = elim c.algo [ reno ↦ reno_on_process_ecn c | cubic ↦ cubic_on_process_ecn c ]

-- `QUIC_KTIME_THRESHOLD` in u32 arithmetic.
abbrev pub ktime_threshold : ℕ → ℕ
ktime_threshold rtt = mul32 rtt 9 / 8

unfoldable pub pto_update : Cong → Cong
pto_update c =
    let pto = add32 c.smoothed_rtt (max (mul32 4 c.rttvar) kgranularity) in
    record c {
      pto = add32 pto c.max_ack_delay;
      loss_delay = max (ktime_threshold (max c.smoothed_rtt c.latest_rtt)) kgranularity;
    }

unfoldable pub update_pacing_time : Cong → ℕ → ℕ → Cong
update_pacing_time c now bytes =
    if c.pacing_rate == 0
    then c
    else let start = max c.pacing_time now in
      let credit = start - c.pacing_time in
      let len_ns = mul64 bytes nsec_per_sec / c.pacing_rate in
      record c { pacing_time = add64 start (len_ns - min (len_ns / 2) credit) }

unfoldable pub pace_update : Cong → ℕ → Cong
pace_update c max_rate =
    if c.smoothed_rtt == 0
    then c
    else let rate = mul64 (mul64 c.window usec_per_sec) 2 / c.smoothed_rtt in
      record c { pacing_rate = min rate max_rate }

-- Only CUBIC has an `on_packet_sent`.
unfoldable pub notify_sent : Cong → ℕ → Cong
notify_sent c number = elim c.algo [ reno ↦ c | cubic ↦ cubic_on_packet_sent c number ]

unfoldable pub on_packet_sent : Cong → ℕ → ℕ → ℕ → Cong
unfolding notify_sent update_pacing_time
on_packet_sent c now bytes number =
    if bytes == 0 then c else update_pacing_time (notify_sent c number) now bytes

-- Neither algorithm has an `on_ack_recv`.
unfoldable pub on_ack_recv : Cong → ℕ → ℕ → Cong
unfolding pace_update
on_ack_recv c bytes max_rate = if bytes == 0 then c else pace_update c max_rate

-- Only CUBIC has an `on_rtt_update`.
unfoldable pub notify_rtt : Cong → Cong
notify_rtt c = elim c.algo [ reno ↦ c | cubic ↦ cubic_on_rtt_update c ]

-- The latest sample, and the smallest.
unfoldable pub take_sample : Cong → ℕ → Cong
take_sample c time =
    let latest = sub64 c.time time % u32_mod in
    record c {
      latest_rtt = latest;
      min_rtt =
          if not c.min_rtt_valid
          then latest
          else if ltb latest c.min_rtt
          then latest
          else c.min_rtt;
      min_rtt_valid = true;
    }

unfoldable pub adjusted_rtt : Cong → ℕ → ℕ
adjusted_rtt c ack_delay =
    if leb (add32 c.min_rtt ack_delay) c.latest_rtt
    then sub32 c.latest_rtt ack_delay
    else c.latest_rtt

-- The first sample sets both estimates.
unfoldable pub first_rtt : Cong → Cong
unfolding pto_update
first_rtt c =
    let c' = pto_update (record c { smoothed_rtt = c.latest_rtt; rttvar = c.latest_rtt / 2 }) in
    record c' { is_rtt_set = true }

-- Every later one moves them by an eighth and a quarter.
unfoldable pub smooth_rtt : Cong → ℕ → Cong
unfolding pto_update
smooth_rtt c adjusted =
    let smoothed = add32 (mul32 c.smoothed_rtt 7) adjusted / 8 in
    let sample = if ltb adjusted smoothed then smoothed - adjusted else adjusted - smoothed in
    pto_update (record c { smoothed_rtt = smoothed; rttvar = add32 (mul32 c.rttvar 3) sample / 4 })

unfoldable pub rtt_update : Cong → ℕ → ℕ → Cong
unfolding take_sample adjusted_rtt first_rtt smooth_rtt notify_rtt
rtt_update c time ack_delay =
    if ltb (mul32 c.max_ack_delay 2) ack_delay
    then c
    else let c' = take_sample c time in
      if not c'.is_rtt_set
      then first_rtt c'
      else notify_rtt (smooth_rtt c' (adjusted_rtt c' ack_delay))

unfoldable pub set_algo : Cong → CongAlgo → Cong
set_algo c algo =
    let c' = record c { algo = algo; state = slow_start; ssthresh = u32_max } in
    elim algo [ reno ↦ reno_on_init c' | cubic ↦ cubic_on_init c' ]

unfoldable pub set_srtt : Cong → ℕ → Cong
unfolding pto_update
set_srtt c srtt =
    pto_update
      (record c { initial_srtt = srtt; latest_rtt = srtt; smoothed_rtt = srtt; rttvar = srtt / 2 })

abbrev pub def_ack_delay : ℕ
def_ack_delay = 25000

-- `S32_MAX / 2`
abbrev pub init_max_window : ℕ
init_max_window = 0x3fff_ffff

unfoldable pub cong_init : Cong → Cong
unfolding set_algo set_srtt reno_on_init
cong_init c =
    let c' = record c { max_ack_delay = def_ack_delay; max_window = init_max_window } in
    set_srtt (set_algo c' reno) rtt_init
