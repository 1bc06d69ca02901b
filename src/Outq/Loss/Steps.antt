-- ===== src/Outq/Loss/Steps.antt =====
-- What `quic_outq_retransmit_mark` does with a packet.
use quic.Prelude.{
  ℕ, ◌<◌, ◌≡◌, ◌≢◌, inl, inr, refl, arith, Bool, true, false, not, ◌&&◌, ltb, ◌==◌, List, ◌∷◌,
  Bool-cases,
}
use quic.Outq.{PacketSent}
use quic.Outq.Loss.{Sending, lose, mark_loop, set_loss_time, is_recent}

pub data MarkStep (immediate : Bool) (level : ℕ) (p : PacketSent) (ps : List PacketSent)
    (s : Sending) : Type 0 where
  beyond :
      0 < level
      → p.level ≡ 0
      → mark_loop immediate level (p ∷ ps) s ≡ (p ∷ ps, s)
      → MarkStep immediate level p ps s
  other :
      level ≢ p.level
      → mark_loop immediate level (p ∷ ps) s
        ≡ (p ∷ (mark_loop immediate level ps s).0, (mark_loop immediate level ps s).1)
      → MarkStep immediate level p ps s
  newer :
      level ≡ p.level
      → s.space.max_pn_acked_seen < p.number
      → mark_loop immediate level (p ∷ ps) s ≡ (p ∷ ps, s)
      → MarkStep immediate level p ps s
  recent :
      level ≡ p.level
      → is_recent s p ≡ true
      → mark_loop immediate level (p ∷ ps) s ≡ (p ∷ ps, set_loss_time s p)
      → MarkStep immediate level p ps s
  gone :
      level ≡ p.level
      → mark_loop immediate level (p ∷ ps) s ≡ mark_loop immediate level ps (lose s p)
      → MarkStep immediate level p ps s

and_right : (a b : Bool) → (a && b) ≡ true → b ≡ true
and_right true b h = h
and_right false b h = absurd (ground (arith, h))

pub mark_step :
    (immediate : Bool) (level : ℕ) (p : PacketSent) (ps : List PacketSent) (s : Sending)
    → MarkStep immediate level p ps s
unfolding mark_loop
mark_step immediate level p ps s =
    let newer_than = not immediate && ltb s.space.max_pn_acked_seen p.number in
    elim (Bool-cases (not (level == 0) && (p.level == 0))) [
      | inl a ↦ beyond (ground (arith, a)) (ground (arith, a)) (rw a refl)
      | inr a ↦ elim (Bool-cases (not (level == p.level))) [
        | inl b ↦ other (ground (arith, b)) (rw a (rw b refl))
        | inr b ↦
            let same : level ≡ p.level = ground (arith, b) in
            elim (Bool-cases newer_than) [
              | inl c ↦ newer same (ground (arith, c)) (rw a (rw b (rw c refl)))
              | inr c ↦ elim (Bool-cases (not immediate && is_recent s p)) [
                | inl d ↦
                    recent same (and_right (not immediate) (is_recent s p) d)
                      (rw a (rw b (rw c (rw d refl))))
                | inr d ↦ gone same (rw a (rw b (rw c (rw d refl))))
              ]
            ]
      ]
    ]
