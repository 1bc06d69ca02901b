-- ===== src/Frame/Ack/Delivery.antt =====
-- An acknowledgement from the endpoint that received to the one that sent.
use mathlib.Core.List.{Memᴰ}
use quic.Prelude.{
  ℕ, ◌/◌, ◌^◌, ◌<◌, ◌≡◌, sym, subst, inl, inr, ◌⊎◌, ◌==◌, ==_iff, none, some, List, [], ◌∷◌, ◌++◌,
  length, arith, Bool-cases, lt_or_le,
}
use quic.Prelude.Words.{sub64}
use quic.PnSpace.{PnSpace}
use quic.PnSpace.History.{Received, Records, Received-Records}
use quic.Outq.{PacketSent, sync_window}
use quic.Frame.{Conn, took}
use quic.Frame.Ack.{ack_body, ack_type, ack_process, apply_ecn}
use quic.Frame.Ack.Blocks.{sack_all}
use quic.Frame.Ack.RoundTrip.{AreShort, ack_ranges, sack_ranges, with_marks, ack_process-ack_body}
use quic.Frame.Ack.Safety.{IsAcked, acked_bounds, acked-seen}
use quic.Frame.Sack.{SackEnv, transmitted_sack}
use quic.Frame.Sack.Exact.{IsSacked, transmitted_sack_keeps}

-- A sent packet that an acknowledgement takes out is acknowledged by one of its ranges.
abbrev pub Stays : ℕ → List (ℕ × ℕ) → Conn → PacketSent → Type 0
Stays level rs c' q = Memᴰ q c'.outq.packet_sent_list ⊎ ((level ≡ q.level) × IsAcked q.number rs)

decide-IsSacked :
    (level largest smallest : ℕ) (q : PacketSent)
    → IsSacked level largest smallest q ⊎ (¬ IsSacked level largest smallest q)
decide-IsSacked level largest smallest q = elim (Bool-cases (level == q.level)) [
  | inr differs ↦ inr (λ h. absurd (ground (arith, differs, h.0)))
  | inl same ↦ elim (lt_or_le q.number smallest) [
    | inl below ↦ inr (λ h. absurd (omega (arith, h.1)))
    | inr above ↦ elim (lt_or_le largest q.number) [
      | inl beyond ↦ inr (λ h. absurd (omega (arith, h.2)))
      | inr within ↦ inl ((==_iff level q.level).0 same, above, within)
    ]
  ]
]

module _ (env : SackEnv) (level : ℕ) where
  Stays-sack_all :
      (rs : List (ℕ × ℕ)) (c : Conn) (q : PacketSent)
      → Memᴰ q c.outq.packet_sent_list
      → Stays level rs (sack_all (transmitted_sack env) level rs c) q
  Stays-sack_all [] c q m = inl m
  Stays-sack_all ((largest, smallest) ∷ rs) c q m =
      elim (decide-IsSacked level largest smallest q) [
        | inl h ↦ inr (h.0, inl (h.1, h.2))
        | inr out ↦
            elim (Stays-sack_all rs (transmitted_sack env level largest smallest none 0 c) q
              (transmitted_sack_keeps env level largest smallest none 0 c q m out)) [
                | inl left ↦ inl left
                | inr (same, later) ↦ inr (same, inr later)
              ]
      ]

  Stays-sack_ranges :
      (delay : ℕ) (rs : List (ℕ × ℕ)) (c : Conn) (q : PacketSent)
      → Memᴰ q c.outq.packet_sent_list
      → Stays level rs (sack_ranges (transmitted_sack env) level delay rs c) q
  Stays-sack_ranges delay [] c q m = inl m
  Stays-sack_ranges delay ((largest, smallest) ∷ rs) c q m =
      elim (decide-IsSacked level largest smallest q) [
        | inl h ↦ inr (h.0, inl (h.1, h.2))
        | inr out ↦
            elim (Stays-sack_all rs
              (transmitted_sack env level largest smallest (some largest) delay c) q
              (transmitted_sack_keeps env level largest smallest (some largest) delay c q m out)) [
                | inl left ↦ inl left
                | inr (same, later) ↦ inr (same, inr later)
              ]
      ]

marks_keep :
    (c : Conn) (level : ℕ) (s : PnSpace)
    → (with_marks c level s).outq.packet_sent_list ≡ c.outq.packet_sent_list
unfolding apply_ecn sync_window
marks_keep c level s = ground arith

-- The queue behind the frame, and what its packets stand for at the other endpoint.
abbrev pub OnlyReceived : List ℕ → ℕ → Conn → Conn → Type 0
OnlyReceived pns level c c' =
    (q : PacketSent)
    → Memᴰ q c.outq.packet_sent_list
    → Memᴰ q c'.outq.packet_sent_list ⊎ ((level ≡ q.level) × Memᴰ q.number pns)

only_received :
    (env : SackEnv) (level delay : ℕ) (pns : List ℕ) (s : PnSpace) (b : ℕ) (c : Conn)
    → Records pns s b
    → OnlyReceived pns level c
        (with_marks (sack_ranges (transmitted_sack env) level delay (ack_ranges s b) c) level s)
only_received env level delay pns s b c r q m =
    elim (Stays-sack_ranges env level delay (ack_ranges s b) c q m) [
      | inl left ↦ inl (
          subst (Memᴰ q)
            (sym (
              marks_keep (sack_ranges (transmitted_sack env) level delay (ack_ranges s b) c) level
                s))
            left)
      | inr (same, acked) ↦ inr (
        same,
        r.known q.number (acked_bounds pns s b q.number r acked).0
            (acked-seen pns s b q.number r acked),
      )
    ]

-- From one endpoint to the other: where a space has received the numbers `pns`, one after the other,
-- the ACK frame that is written for it is processed with no error by the endpoint that has sent them,
-- which then treats no packet as delivered that was not: each packet of its list of sent packets is
-- still there, or is one of the level with a number that was received.
pub ack_process-Received :
    (env : SackEnv) (level exponent now : ℕ) (pns : List ℕ) (s : PnSpace) (c : Conn) (rest : List ℕ)
    → Received pns s
    → s.max_pn_seen < 2 ^ 62
    → AreShort s.ecn_local
    → sub64 now s.max_pn_time / 2 ^ exponent < 2 ^ 62
    → s.max_pn_seen < (c.spaces level).next_pn
    → (c' : Conn) × (ack_process
          (transmitted_sack env)
          level
          (ack_type s)
          (ack_body s exponent now ++ rest)
          c
        ≡ took (length (ack_body s exponent now)) c')
      × OnlyReceived pns level c c'
ack_process-Received env level exponent now pns s c rest before small marks recent sent =
    let (b, r) = Received-Records before in
    (
      _,
      ack_process-ack_body (transmitted_sack env) s b level exponent now r.valid r.low small marks
          recent c rest sent,
      only_received env level _ pns s b c r,
    )
