-- ===== src/Cong/Cubic.antt =====
-- The CUBIC functions of cong.c. `do_div(n, base)` divides `n` in place and returns the remainder.
use quic.Prelude.{
  ℕ, ◌+◌, ◌-◌, ◌/◌, ◌%◌, not, ◌&&◌, none, some, ltb, leb, ◌==◌, if◌then◌else◌, min, max,
}
use quic.Prelude.Words.{u16_mod, u32_mod, u32_max, add32, sub32, mul32, add64, sub64, mul64}
use quic.Cong.Types.{
  Cong, CubicState, slow_start, recovery_period, congestion_avoidance, usec_per_sec,
  check_persistent_congestion,
}
use quic.Cong.Root.{cubic_root}

abbrev pub hs_min_ssthresh : ℕ
hs_min_ssthresh = 16

abbrev pub hs_n_rtt_sample : ℕ
hs_n_rtt_sample = 8

abbrev pub hs_min_eta : ℕ
hs_min_eta = 4000

abbrev pub hs_max_eta : ℕ
hs_max_eta = 16000

abbrev pub hs_min_rtt_divisor : ℕ
hs_min_rtt_divisor = 8

abbrev pub hs_css_growth_divisor : ℕ
hs_css_growth_divisor = 4

abbrev pub hs_css_rounds : ℕ
hs_css_rounds = 5

-- `if (cubic->window_end <= number) cubic->window_end = -1;`
unfoldable pub end_round : CubicState → ℕ → CubicState
end_round p number = record p {
  window_end = elim p.window_end [
    | none ↦ none
    | some last ↦ if leb last number then none else some last
  ];
}

-- In conservative slow start: count the round, and leave for congestion avoidance after the last.
unfoldable pub css_round : Cong → Cong
css_round c =
    let rounds = (c.priv.css_rounds + 1) % u16_mod in
    if ltb hs_css_rounds rounds
    then record c {
      priv = record c.priv {
        css_baseline_min_rtt = u32_max;
        w_last_max = c.window;
        css_rounds = 0;
      };
      ssthresh = c.window;
    }
    else record c { priv = record c.priv { css_rounds = rounds } }

-- The RTT threshold of HyStart++.
unfoldable pub rtt_thresh : ℕ → ℕ
rtt_thresh last_round_min_rtt =
    let eta = last_round_min_rtt / hs_min_rtt_divisor in
    if ltb eta hs_min_eta then hs_min_eta else if ltb hs_max_eta eta then hs_max_eta else eta

-- A delay increase enters conservative slow start.
unfoldable pub css_enter : Cong → Cong
unfolding rtt_thresh
css_enter c =
    let p = c.priv in
    if not (p.last_round_min_rtt == u32_max)
      && not (p.current_round_min_rtt == u32_max)
      && leb (mul32 hs_min_ssthresh c.mss) c.window
      && leb hs_n_rtt_sample p.rtt_sample_count
    then if leb (add32 p.last_round_min_rtt (rtt_thresh p.last_round_min_rtt))
        p.current_round_min_rtt
      then record c { priv = record p { css_baseline_min_rtt = p.current_round_min_rtt } }
      else c
    else c

unfoldable pub cubic_slow_start : Cong → ℕ → ℕ → Cong
unfolding end_round css_round css_enter
cubic_slow_start c bytes number =
    let css = not (c.priv.css_baseline_min_rtt == u32_max) in
    let grown = if css then bytes / hs_css_growth_divisor else bytes in
    let c' = record c {
      priv = end_round c.priv number;
      window = min (add32 c.window grown) c.max_window;
    } in
    if css then css_round c' else css_enter c'

-- What the loop of `cubic_root` returns; 0 stands for a loop that is out of fuel.
unfoldable pub root_value : ℕ → ℕ
root_value n = elim (cubic_root n) [ none ↦ 0 | some r ↦ r ]

-- The start of an epoch of congestion avoidance.
unfoldable pub start_epoch : Cong → CubicState
unfolding root_value
start_epoch c =
    let p = c.priv in
    if not (p.epoch_start == u32_max)
    then p
    else let below = ltb c.window p.w_last_max in
      let gap = sub32 p.w_last_max c.window in
      record p {
        epoch_start = c.time % u32_mod;
        k = if below then root_value (mul64 gap 10 / mul64 c.mss 4) else 0;
        origin_point = if below then p.w_last_max else c.window;
        w_tcp = c.window;
        pending_add = 0;
        pending_w_add = 0;
      }

-- W_cubic(t + RTT), before it is clamped.
unfoldable pub cubic_window : Cong → CubicState → ℕ
cubic_window c p =
    let t = add64 (sub64 c.time p.epoch_start) c.smoothed_rtt in
    let tx = mul64 t 1024 / usec_per_sec in
    let kx = mul64 p.k 1024 in
    let time_delta = if ltb kx tx then tx - kx else kx - tx in
    let scaled = mul64 (mul64 time_delta time_delta / 1024) time_delta / 1024 in
    let delta = mul64 (mul64 c.mss scaled) 4 / 10 / 1024 in
    if ltb kx tx then add64 p.origin_point delta else sub64 p.origin_point delta

-- No less than the window, and no more than half as much again.
unfoldable pub clamp_target : ℕ → ℕ → ℕ
clamp_target window target =
    if ltb target window
    then window
    else if ltb (mul32 3 window) (mul64 2 target)
    then mul32 window 3 / 2
    else target

-- The increment by the cubic window, and the new `pending_add`.
unfoldable pub cubic_add : Cong → CubicState → ℕ → ℕ × ℕ
cubic_add c p target =
    let above = add64 p.pending_add (mul64 c.mss (target - c.window)) in
    let level = add32 p.pending_add c.mss in
    if ltb c.window target
    then (above / c.window, above % c.window)
    else (level / mul32 100 c.window, level % mul32 100 c.window)

-- The increment by the Reno-friendly estimate.
unfoldable pub friendly_add : Cong → ℕ → ℕ
friendly_add c w_tcp = if ltb c.window w_tcp then mul64 c.mss (w_tcp - c.window) / c.window else 0

unfoldable pub cubic_cong_avoid : Cong → ℕ → Cong
unfolding start_epoch cubic_window clamp_target cubic_add friendly_add
cubic_cong_avoid c bytes =
    let p = start_epoch c in
    let target = clamp_target c.window (cubic_window c p) in
    let (target_add, pending) = cubic_add c p target in
    let m = add32 p.pending_w_add (mul32 c.mss bytes) in
    let w_tcp = add32 p.w_tcp (m / c.window) in
    record c {
      priv = record p { pending_add = pending; pending_w_add = m % c.window; w_tcp = w_tcp };
      window = add32 c.window (max (friendly_add c w_tcp) target_add);
    }

unfoldable pub cubic_recovery : Cong → Cong
cubic_recovery c =
    let reduced = max (mul32 c.window 7 / 10) c.min_window in
    record c {
      recovery_time = c.time;
      priv = record c.priv {
        epoch_start = u32_max;
        w_last_max =
            if ltb c.window c.priv.w_last_max then mul32 c.window 17 / 10 / 2 else c.window;
      };
      ssthresh = reduced;
      window = reduced;
    }

-- The `switch` that the loss and the ECN handler share.
unfoldable pub cubic_enter_recovery : Cong → Cong
unfolding cubic_recovery
cubic_enter_recovery c = elim c.state [
  | recovery_period ↦ c
  | _ ↦ cubic_recovery (record c { state = recovery_period })
]

unfoldable pub cubic_on_packet_lost : Cong → ℕ → Cong
unfolding cubic_enter_recovery
cubic_on_packet_lost c time =
    let (c', persistent) = check_persistent_congestion c time in
    if persistent then c' else cubic_enter_recovery c'

unfoldable pub cubic_on_process_ecn : Cong → Cong
unfolding cubic_enter_recovery
cubic_on_process_ecn c = cubic_enter_recovery c

-- Slow start ends where the window has reached the threshold.
unfoldable pub leave_slow_start : Cong → Cong
leave_slow_start c =
    if leb c.ssthresh c.window then record c { state = congestion_avoidance } else c

-- Recovery ends with the acknowledgement of a packet that was sent in it.
unfoldable pub leave_recovery : Cong → ℕ → Cong
leave_recovery c time =
    if ltb c.recovery_time time then record c { state = congestion_avoidance } else c

unfoldable pub cubic_on_packet_acked : Cong → ℕ → ℕ → ℕ → Cong
unfolding leave_slow_start leave_recovery
cubic_on_packet_acked c time bytes number = elim c.state [
  | slow_start ↦ leave_slow_start (cubic_slow_start c bytes number)
  | recovery_period ↦ leave_recovery c time
  | congestion_avoidance ↦ cubic_cong_avoid c bytes
]

unfoldable pub cubic_on_init : Cong → Cong
cubic_on_init c = record c {
  priv = record c.priv {
    epoch_start = u32_max;
    origin_point = 0;
    w_last_max = 0;
    w_tcp = 0;
    k = 0;
    current_round_min_rtt = u32_max;
    css_baseline_min_rtt = u32_max;
    last_round_min_rtt = u32_max;
    rtt_sample_count = 0;
    window_end = none;
    css_rounds = 0;
  };
}

unfoldable pub cubic_on_packet_sent : Cong → ℕ → Cong
cubic_on_packet_sent c number = elim c.priv.window_end [
  | some last ↦ c
  | none ↦ record c {
    priv = record c.priv {
      window_end = some number;
      last_round_min_rtt = c.priv.current_round_min_rtt;
      current_round_min_rtt = u32_max;
      rtt_sample_count = 0;
    };
  }
]

-- A round's smallest RTT, and the end of conservative slow start where it falls below the baseline.
unfoldable pub note_round_rtt : CubicState → ℕ → CubicState
note_round_rtt p rtt =
    if ltb rtt p.current_round_min_rtt
    then if ltb rtt p.css_baseline_min_rtt
      then record p { current_round_min_rtt = rtt; css_baseline_min_rtt = u32_max; css_rounds = 0 }
      else record p { current_round_min_rtt = rtt }
    else p

unfoldable pub cubic_on_rtt_update : Cong → Cong
unfolding note_round_rtt
cubic_on_rtt_update c = elim c.priv.window_end [
  | none ↦ c
  | some last ↦
      let p = note_round_rtt c.priv c.latest_rtt in
      record c { priv = record p { rtt_sample_count = (p.rtt_sample_count + 1) % u16_mod } }
]
