-- ===== src/Cong/States.antt =====
-- The state machine of cong.h: which events lead from which state to which, for both algorithms.
use quic.Prelude.{ℕ, ◌≤◌, ◌<◌, ◌≡◌, refl, sym, ap, subst, ◌⊎◌, inl, inr, lt_or_le, arith}
use quic.Prelude.Words.{sub64}
use quic.Cong.Types.{
  Cong, CongState, slow_start, recovery_period, congestion_avoidance, persistent_threshold,
  check_persistent_congestion,
}
use quic.Cong.Cubic.{
  cubic_on_packet_lost, cubic_on_packet_acked, cubic_on_process_ecn, cubic_slow_start,
  cubic_cong_avoid, leave_slow_start, leave_recovery, css_round, css_enter,
}
use quic.Cong.Reno.{reno_on_packet_lost, reno_on_packet_acked, reno_on_process_ecn}
use quic.Cong.Ops.{on_packet_lost, on_packet_acked, on_process_ecn}

-- Is the congestion persistent, for a lost packet sent at `time`?
abbrev pub IsPersistent : Cong → ℕ → Type 0
IsPersistent c time = persistent_threshold c < sub64 c.time time

-- The state behind a loss: slow start if the congestion is persistent, and recovery otherwise.
pub state-on_packet_lost :
    (c : Cong) (time : ℕ)
    → (IsPersistent c time → (on_packet_lost c time).state ≡ slow_start)
      × (sub64 c.time time ≤ persistent_threshold c
          → (on_packet_lost c time).state ≡ recovery_period)
unfolding on_packet_lost cubic_on_packet_lost reno_on_packet_lost check_persistent_congestion
state-on_packet_lost c time = ground arith

-- An ECN signal leads into recovery from every state.
pub state-on_process_ecn : (c : Cong) → (on_process_ecn c).state ≡ recovery_period
unfolding on_process_ecn cubic_on_process_ecn reno_on_process_ecn
state-on_process_ecn c = ground arith

-- An acknowledgement in slow start leads to congestion avoidance if the window has reached the
-- threshold behind it, and else stays; in recovery it leads there if the packet was sent after
-- the start of recovery, and else changes nothing; congestion avoidance is kept.
pub state-on_packet_acked :
    (c : Cong) (time bytes number : ℕ)
    → let c' = on_packet_acked c time bytes number in
      (c.state ≡ slow_start → c'.ssthresh ≤ c'.window → c'.state ≡ congestion_avoidance)
      × (c.state ≡ slow_start → c'.window < c'.ssthresh → c'.state ≡ slow_start)
      × (c.state ≡ recovery_period → c.recovery_time < time → c'.state ≡ congestion_avoidance)
      × (c.state ≡ recovery_period → time ≤ c.recovery_time → c' ≡ c)
      × (c.state ≡ congestion_avoidance → c'.state ≡ congestion_avoidance)
unfolding on_packet_acked cubic_on_packet_acked reno_on_packet_acked leave_slow_start leave_recovery
    cubic_slow_start css_round css_enter cubic_cong_avoid
state-on_packet_acked c time bytes number = ground arith

-- The diagram of cong.h: what one event may do to the state.
pub data Transition : CongState → CongState → Type 0 where
  stays : {s : CongState} → Transition s s
  threshold : Transition slow_start congestion_avoidance
  recovered : Transition recovery_period congestion_avoidance
  congested_start : Transition slow_start recovery_period
  congested_avoidance : Transition congestion_avoidance recovery_period
  persistent : {s : CongState} → Transition s slow_start

into_recovery : (s : CongState) → Transition s recovery_period
into_recovery slow_start = congested_start
into_recovery recovery_period = stays
into_recovery congestion_avoidance = congested_avoidance

acked_to :
    (s s' : CongState)
    → (s ≡ slow_start → (s' ≡ congestion_avoidance) ⊎ (s' ≡ slow_start))
    → (s ≡ recovery_period → (s' ≡ congestion_avoidance) ⊎ (s' ≡ s))
    → (s ≡ congestion_avoidance → s' ≡ congestion_avoidance)
    → Transition s s'
acked_to slow_start s' h _ _ = elim (h refl) [
  | inl e ↦ subst (λ x. Transition slow_start x) (sym e) threshold
  | inr e ↦ subst (λ x. Transition slow_start x) (sym e) stays
]
acked_to recovery_period s' _ h _ = elim (h refl) [
  | inl e ↦ subst (λ x. Transition recovery_period x) (sym e) recovered
  | inr e ↦ subst (λ x. Transition recovery_period x) (sym e) stays
]
acked_to congestion_avoidance s' _ _ h =
    subst (λ x. Transition congestion_avoidance x) (sym (h refl)) stays

-- Every loss, ECN signal and acknowledgement moves the state along one of the six transitions: none, the
-- threshold, the end of recovery, congestion from slow start or avoidance, and persistent
-- congestion.
Transition_lem :
    (c : Cong) (time bytes number : ℕ)
    → Transition c.state (on_packet_lost c time).state
      × Transition c.state (on_process_ecn c).state
      × Transition c.state (on_packet_acked c time bytes number).state
Transition_lem c time bytes number =
    let (held, fresh) = state-on_packet_lost c time in
    let (reached, below, sent, old, kept) = state-on_packet_acked c time bytes number in
    let c' = on_packet_acked c time bytes number in
    (
      elim (lt_or_le (persistent_threshold c) (sub64 c.time time)) [
        | inl long ↦ subst (λ x. Transition c.state x) (sym (held long)) persistent
        | inr short ↦ subst (λ x. Transition c.state x) (sym (fresh short)) (into_recovery c.state)
      ],
      subst (λ x. Transition c.state x) (sym (state-on_process_ecn c)) (into_recovery c.state),
      acked_to c.state c'.state
          (λ e. elim (lt_or_le c'.window c'.ssthresh) [
            | inl lt ↦ inr (below e lt)
            | inr le ↦ inl (reached e le)
          ])
          (λ e. elim (lt_or_le c.recovery_time time) [
            | inl lt ↦ inl (sent e lt)
            | inr le ↦ inr (ap (λ x. x.state) (old e le))
          ])
          kept,
    )
