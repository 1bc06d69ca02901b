-- ===== src/Cong/Rtt.antt =====
-- The round-trip time of cong.c: what a sample does to the estimates, and the timers set from them.
use quic.Prelude.{
  ℕ, ◌+◌, ◌*◌, ◌/◌, ◌%◌, ◌≤◌, ◌<◌, ◌≡◌, ◌∙◌, ap, inl, inr, Bool-cases, refl, true, false, max, min,
  arith,
}
use quic.Prelude.Words.{u32_mod, sub64, mul32, add32}
use quic.Cong.Types.{Cong, kgranularity}
use quic.Cong.Cubic.{cubic_on_rtt_update}
use quic.Cong.Ops.{
  rtt_update, take_sample, adjusted_rtt, first_rtt, smooth_rtt, notify_rtt, pto_update,
}

-- A sample with more than twice the peer's largest acknowledgement delay is ignored.
pub rtt_update_ignored :
    (c : Cong) (time ack_delay : ℕ)
    → mul32 c.max_ack_delay 2 < ack_delay
    → rtt_update c time ack_delay ≡ c
unfolding rtt_update
rtt_update_ignored c time ack_delay late = ground arith

-- The sample that `rtt_update` takes.
abbrev pub sample : Cong → ℕ → ℕ
sample c time = sub64 c.time time % u32_mod

-- The smoothing and the algorithm leave the samples alone.
latest-smooth_rtt :
    (c : Cong) (adjusted : ℕ)
    → let c' = notify_rtt (smooth_rtt c adjusted) in
      (c'.latest_rtt ≡ c.latest_rtt)
      × (c'.min_rtt ≡ c.min_rtt)
      × (c'.min_rtt_valid ≡ c.min_rtt_valid)
      × (c'.is_rtt_set ≡ c.is_rtt_set)
unfolding smooth_rtt notify_rtt cubic_on_rtt_update pto_update
latest-smooth_rtt c adjusted = ground arith

latest-first_rtt :
    (c : Cong)
    → let c' = first_rtt c in
      (c'.latest_rtt ≡ c.latest_rtt)
      × (c'.min_rtt ≡ c.min_rtt)
      × (c'.min_rtt_valid ≡ c.min_rtt_valid)
      × (c'.is_rtt_set ≡ true)
unfolding first_rtt pto_update
latest-first_rtt c = ground arith

take_sample_lem :
    (c : Cong) (time : ℕ)
    → let c' = take_sample c time in
      (c'.latest_rtt ≡ sample c time)
      × (c'.min_rtt_valid ≡ true)
      × (c.min_rtt_valid ≡ true → c'.min_rtt ≡ min c.min_rtt (sample c time))
      × (c.min_rtt_valid ≡ false → c'.min_rtt ≡ sample c time)
unfolding take_sample
take_sample_lem c time = ground arith

rtt_update_first :
    (c : Cong) (time ack_delay : ℕ)
    → ack_delay ≤ mul32 c.max_ack_delay 2
    → c.is_rtt_set ≡ false
    → rtt_update c time ack_delay ≡ first_rtt (take_sample c time)
unfolding rtt_update take_sample
rtt_update_first c time ack_delay usable unset = ground arith

rtt_update_later :
    (c : Cong) (time ack_delay : ℕ)
    → ack_delay ≤ mul32 c.max_ack_delay 2
    → c.is_rtt_set ≡ true
    → let c' = take_sample c time in
      rtt_update c time ack_delay ≡ notify_rtt (smooth_rtt c' (adjusted_rtt c' ack_delay))
unfolding rtt_update take_sample
rtt_update_later c time ack_delay usable set = ground arith

is_rtt_set-take_sample : (c : Cong) (time : ℕ) → (take_sample c time).is_rtt_set ≡ c.is_rtt_set
unfolding take_sample
is_rtt_set-take_sample c time = refl

-- A usable sample is the latest one, and the least so far is kept; the estimates are set from here on.
pub min_rtt-rtt_update :
    (c : Cong) (time ack_delay : ℕ)
    → ack_delay ≤ mul32 c.max_ack_delay 2
    → let c' = rtt_update c time ack_delay in
      (c'.latest_rtt ≡ sample c time)
      × (c.min_rtt_valid ≡ true → c'.min_rtt ≡ min c.min_rtt (sample c time))
      × (c.min_rtt_valid ≡ false → c'.min_rtt ≡ sample c time)
      × (c'.is_rtt_set ≡ true)
min_rtt-rtt_update c time ack_delay usable =
    let (latest, _, kept, fresh) = take_sample_lem c time in
    elim (Bool-cases c.is_rtt_set) [
      | inl set ↦
          let c' = take_sample c time in
          let (a, b, _, d) = latest-smooth_rtt c' (adjusted_rtt c' ack_delay) in
          rw (rtt_update_later c time ack_delay usable set)
            (a ∙ latest, λ h. b ∙ kept h, λ h. b ∙ fresh h, d ∙ is_rtt_set-take_sample c time ∙ set)
      | inr unset ↦
          let (a, b, _, d) = latest-first_rtt (take_sample c time) in
          rw (rtt_update_first c time ack_delay usable unset)
            (a ∙ latest, λ h. b ∙ kept h, λ h. b ∙ fresh h, d)
    ]

-- The first usable sample sets the smoothed estimate to itself and the deviation to its half.
pub first-rtt_update :
    (c : Cong) (time ack_delay : ℕ)
    → ack_delay ≤ mul32 c.max_ack_delay 2
    → c.is_rtt_set ≡ false
    → let c' = rtt_update c time ack_delay in
      (c'.smoothed_rtt ≡ sample c time) × (c'.rttvar ≡ sample c time / 2) × (c'.is_rtt_set ≡ true)
unfolding rtt_update take_sample first_rtt pto_update
first-rtt_update c time ack_delay usable unset = ground arith

-- The delay is taken off a sample only where the least sample remains below the rest.
pub adjusted_rtt_bounds :
    (c : Cong) (ack_delay : ℕ)
    → c.min_rtt ≤ c.latest_rtt
    → c.latest_rtt < u32_mod
    → c.min_rtt + ack_delay < u32_mod
    → (c.min_rtt ≤ adjusted_rtt c ack_delay) × (adjusted_rtt c ack_delay ≤ c.latest_rtt)
unfolding adjusted_rtt
adjusted_rtt_bounds c ack_delay least small fits = ground arith

smoothed-smooth_rtt :
    (c : Cong) (adjusted : ℕ)
    → (smooth_rtt c adjusted).smoothed_rtt ≡ add32 (mul32 c.smoothed_rtt 7) adjusted / 8
unfolding smooth_rtt pto_update
smoothed-smooth_rtt c adjusted = refl

smoothed-notify_rtt : (c : Cong) → (notify_rtt c).smoothed_rtt ≡ c.smoothed_rtt
unfolding notify_rtt cubic_on_rtt_update
smoothed-notify_rtt c = ground arith

smoothed_rtt-take_sample :
    (c : Cong) (time : ℕ) → (take_sample c time).smoothed_rtt ≡ c.smoothed_rtt
unfolding take_sample
smoothed_rtt-take_sample c time = refl

eighth : (s a : ℕ) → s * 7 + a < u32_mod → add32 (mul32 s 7) a / 8 ≡ (s * 7 + a) / 8
eighth s a fits = omega arith

-- A usable later sample moves the smoothed estimate by an eighth towards the adjusted sample, and never
-- past it, where the weighted sum does not wrap.
pub smoothed-rtt_update :
    (c : Cong) (time ack_delay : ℕ)
    → ack_delay ≤ mul32 c.max_ack_delay 2
    → c.is_rtt_set ≡ true
    → let a = adjusted_rtt (take_sample c time) ack_delay in
      let c' = rtt_update c time ack_delay in
      c.smoothed_rtt * 7 + a < u32_mod
      → (c'.smoothed_rtt ≡ (c.smoothed_rtt * 7 + a) / 8)
        × (min c.smoothed_rtt a ≤ c'.smoothed_rtt)
        × (c'.smoothed_rtt ≤ max c.smoothed_rtt a)
smoothed-rtt_update c time ack_delay usable set fits =
    let c' = take_sample c time in
    let a = adjusted_rtt c' ack_delay in
    let moved =
      ap (λ x. x.smoothed_rtt) (rtt_update_later c time ack_delay usable set)
      ∙ smoothed-notify_rtt (smooth_rtt c' a)
      ∙ smoothed-smooth_rtt c' a
      ∙ ap (λ s. add32 (mul32 s 7) a / 8) (smoothed_rtt-take_sample c time)
      ∙ eighth c.smoothed_rtt a fits in
    (moved, omega (arith, moved), omega (arith, moved))

-- The timers set by `pto_update`, where nothing wraps: the probe timeout exceeds the smoothed estimate
-- by four deviations, at least the granularity, and the acknowledgement delay; the loss delay is
-- nine eighths of the larger estimate, at least the granularity.
pub pto_update_lem :
    (c : Cong)
    → c.smoothed_rtt + 4 * c.rttvar + c.max_ack_delay + kgranularity < u32_mod
    → 9 * max c.smoothed_rtt c.latest_rtt < u32_mod
    → let c' = pto_update c in
      (c'.pto ≡ c.smoothed_rtt + max (4 * c.rttvar) kgranularity + c.max_ack_delay)
      × (c'.loss_delay ≡ max (9 * max c.smoothed_rtt c.latest_rtt / 8) kgranularity)
unfolding pto_update
pto_update_lem c fits fits' = ground arith
