-- ===== src/Outq/Loss/Found.antt =====
-- No lost packet is left: what `quic_outq_retransmit_mark` finds.
use quic.Prelude.{
  ℕ, ◌+◌, ◌≤◌, ◌<◌, ◌≡◌, ◌⊎◌, inl, inr, refl, sym, subst, ◌∙◌, arith, true, false, List, [], ◌∷◌,
  All, All-imp,
}
use quic.Prelude.Words.{u64_mod}
use quic.Cong.Types.{Cong, check_persistent_congestion}
use quic.Cong.Ops.{on_packet_lost}
use quic.Cong.Reno.{reno_on_packet_lost, reno_handle_packet_lost}
use quic.Cong.Cubic.{cubic_on_packet_lost, cubic_enter_recovery, cubic_recovery}
use quic.Outq.{PacketSent, level_before}
use quic.Outq.Loss.{
  Sending, lose, mark_loop, retransmit_mark, started, is_recent, kpacket_threshold,
}
use quic.Outq.Loss.Steps.{beyond, other, newer, recent, gone, mark_step}

on_packet_lost_keeps :
    (c : Cong) (time : ℕ)
    → ((on_packet_lost c time).time ≡ c.time) × ((on_packet_lost c time).loss_delay ≡ c.loss_delay)
unfolding on_packet_lost reno_on_packet_lost cubic_on_packet_lost reno_handle_packet_lost
    cubic_enter_recovery cubic_recovery check_persistent_congestion
on_packet_lost_keeps c time = ground arith

-- RFC 9002, section 6.1: sent before an acknowledged packet, and by the threshold of three packets or
-- by `delay` before now.
abbrev pub IsLost : ℕ → ℕ → ℕ → PacketSent → Type 0
IsLost acked now delay p =
    (p.number ≤ acked) × ((p.number + kpacket_threshold ≤ acked) ⊎ (p.sent_time + delay ≤ now))

-- The list of sent packets: handshake levels first, and a level's packets in the order of their
-- numbers and times.
abbrev pub Follows : PacketSent → PacketSent → Type 0
Follows p o =
    (level_before o.level p.level ≡ false)
    × (p.level ≡ o.level → (p.number ≤ o.number) × (p.sent_time ≤ o.sent_time))

abbrev pub IsInOrder : List PacketSent → Type 0
IsInOrder [] = Unit
IsInOrder (p ∷ ps) = All (Follows p) ps × IsInOrder ps

-- A packet of another level, or one that is not lost.
abbrev pub IsLeft : ℕ → ℕ → ℕ → ℕ → PacketSent → Type 0
IsLeft level acked now delay p = level ≡ p.level → IsLost acked now delay p → ⊥

abbrev Same : ℕ → ℕ → ℕ → Sending → Type 0
Same acked now delay s =
    (s.space.max_pn_acked_seen ≡ acked) × (s.cong.time ≡ now) × (s.cong.loss_delay ≡ delay)

lose-Same :
    (acked now delay : ℕ) (s : Sending) (p : PacketSent)
    → Same acked now delay s
    → Same acked now delay (lose s p)
unfolding lose
lose-Same acked now delay s p (a, b, c) =
    let (time, later) = on_packet_lost_keeps s.cong s.space.max_pn_acked_time in
    (a, time ∙ b, later ∙ c)

earlier :
    (acked now delay : ℕ) (p o : PacketSent)
    → p.number ≤ o.number
    → p.sent_time ≤ o.sent_time
    → (o.number + kpacket_threshold ≤ acked) ⊎ (o.sent_time + delay ≤ now)
    → (p.number + kpacket_threshold ≤ acked) ⊎ (p.sent_time + delay ≤ now)
earlier acked now delay p o number time (inl many) = inl (omega (arith, number, many))
earlier acked now delay p o number time (inr old) = inr (omega (arith, time, old))

-- Behind a packet that is not lost, none of its level is.
stopped :
    (level acked now delay : ℕ) (p : PacketSent) (ps : List PacketSent)
    → level ≡ p.level
    → (IsLost acked now delay p → ⊥)
    → All (Follows p) ps
    → All (IsLeft level acked now delay) (p ∷ ps)
stopped level acked now delay p ps same left follow = (
  λ e. left,
  All-imp
      (λ o (order, later) mine (old, lost).
        (let (number, time) = later (sym same ∙ mine) in
          left (omega (arith, number, old), earlier acked now delay p o number time lost)))
      ps follow,
)

recent_lem :
    (acked now delay : ℕ) (s : Sending) (p : PacketSent)
    → Same acked now delay s
    → p.sent_time ≤ now
    → now + delay < u64_mod
    → is_recent s p ≡ true
    → IsLost acked now delay p
    → ⊥
recent_lem acked now delay s p same past small young (old, inl many) =
    ground (arith, same, young, many)
recent_lem acked now delay s p same past small young (old, inr late) =
    ground (arith, same, past, small, young, late)

mark_loop-IsLeft :
    (level acked now delay : ℕ) (list : List PacketSent) (s : Sending)
    → Same acked now delay s
    → All (λ p. p.sent_time ≤ now) list
    → now + delay < u64_mod
    → IsInOrder list
    → All (IsLeft level acked now delay) (mark_loop false level list s).0
unfolding mark_loop
mark_loop-IsLeft level acked now delay [] s same past small order = tt
mark_loop-IsLeft level acked now delay (p ∷ ps) s same (past, pasts) small (first, order) =
    elim (mark_step false level p ps s) [
      | beyond above app e ↦
          subst (λ r. All (IsLeft level acked now delay) r.0) (sym e)
            (
              λ mine. absurd (omega (arith, above, app, mine)),
              All-imp (λ o (behind, later) mine. absurd (ground (arith, behind, app, mine, above)))
                  ps first,
            )
      | other differs e ↦
          subst (λ r. All (IsLeft level acked now delay) r.0) (sym e)
            (
              λ mine. absurd (differs mine),
              mark_loop-IsLeft level acked now delay ps s same pasts small order,
            )
      | newer mine later e ↦
          subst (λ r. All (IsLeft level acked now delay) r.0) (sym e)
            (stopped level acked now delay p ps mine (λ lost. omega (arith, same.0, later, lost.0))
              first)
      | recent mine young e ↦
          subst (λ r. All (IsLeft level acked now delay) r.0) (sym e)
            (stopped level acked now delay p ps mine
              (recent_lem acked now delay s p same past small young) first)
      | gone mine e ↦
          subst (λ r. All (IsLeft level acked now delay) r.0) (sym e)
            (mark_loop-IsLeft level acked now delay ps (lose s p)
              (lose-Same acked now delay s p same) pasts small order)
    ]

-- After the search for lost packets, no packet of the level is left in the list that RFC 9002 calls
-- lost: sent before an acknowledged one, and three numbers before the largest acknowledged or the
-- loss delay before now. It holds of a list in order, all of it sent by now.
pub retransmit_mark-IsLeft :
    (s : Sending) (level now : ℕ)
    → IsInOrder s.outq.packet_sent_list
    → All (λ p. p.sent_time ≤ now) s.outq.packet_sent_list
    → now + s.cong.loss_delay < u64_mod
    → All
        (IsLeft level s.space.max_pn_acked_seen now s.cong.loss_delay)
        (retransmit_mark s level false now).outq.packet_sent_list
unfolding retransmit_mark
retransmit_mark-IsLeft s level now order past small =
    mark_loop-IsLeft level s.space.max_pn_acked_seen now s.cong.loss_delay s.outq.packet_sent_list
      (started s now) (refl, refl, refl) past small order
