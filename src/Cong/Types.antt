-- ===== src/Cong/Types.antt =====
-- The state of cong.h and cong.c, and what both algorithms share. Every field is an unsigned number
-- of the width that cong.h gives it; `window_end` is `none` for -1, and packet numbers are never
-- negative otherwise.
use quic.Prelude.{ℕ, Bool, true, false, Option, ltb, leb, if◌then◌else◌, min, max, ◌==◌}
use quic.Prelude.Words.{add32, mul32, sub64}

abbrev pub kpersistent_congestion_threshold : ℕ
kpersistent_congestion_threshold = 3

abbrev pub kgranularity : ℕ
kgranularity = 1000

abbrev pub rtt_init : ℕ
rtt_init = 333000

abbrev pub usec_per_sec : ℕ
usec_per_sec = 1_000_000

abbrev pub nsec_per_sec : ℕ
nsec_per_sec = 1_000_000_000

pub data CongState : Type 0 where
  slow_start recovery_period congestion_avoidance : CongState

pub data CongAlgo : Type 0 where
  reno cubic : CongAlgo

pub record CubicState : Type 0 where
  pub pending_w_add : ℕ
  pub origin_point : ℕ
  pub epoch_start : ℕ
  pub pending_add : ℕ
  pub w_last_max : ℕ
  pub w_tcp : ℕ
  pub k : ℕ
  pub current_round_min_rtt : ℕ
  pub css_baseline_min_rtt : ℕ
  pub last_round_min_rtt : ℕ
  pub rtt_sample_count : ℕ
  pub css_rounds : ℕ
  pub window_end : Option ℕ

-- `priv` is the state that `quic_cong_priv` reads as CUBIC's.
pub record Cong : Type 0 where
  pub max_ack_delay : ℕ
  pub smoothed_rtt : ℕ
  pub latest_rtt : ℕ
  pub min_rtt : ℕ
  pub rttvar : ℕ
  pub pto : ℕ
  pub recovery_time : ℕ
  pub pacing_rate : ℕ
  pub pacing_time : ℕ
  pub time : ℕ
  pub max_window : ℕ
  pub min_window : ℕ
  pub loss_delay : ℕ
  pub ssthresh : ℕ
  pub window : ℕ
  pub mss : ℕ
  pub priv : CubicState
  pub initial_srtt : ℕ
  pub algo : CongAlgo
  pub min_rtt_valid : Bool
  pub is_rtt_set : Bool
  pub state : CongState

-- `quic_cong_set_mss`, from cong.h.
unfoldable pub set_mss : Cong → ℕ → Cong
set_mss c mss =
    let low = max (min (mul32 mss 10) 14720) (mul32 mss 2) in
    if c.mss == mss then c else record c {
      mss = mss;
      min_window = low;
      window = if ltb c.window low then low else c.window;
    }

-- The time without an acknowledgement behind which congestion is persistent.
unfoldable pub persistent_threshold : Cong → ℕ
persistent_threshold c =
    mul32 (add32 (add32 c.smoothed_rtt (max (mul32 4 c.rttvar) kgranularity)) c.max_ack_delay)
      kpersistent_congestion_threshold

unfoldable pub check_persistent_congestion : Cong → ℕ → Cong × Bool
check_persistent_congestion c time =
    if leb (sub64 c.time time) (persistent_threshold c)
    then (c, false)
    else (record c { min_rtt_valid = false; window = c.min_window; state = slow_start }, true)
