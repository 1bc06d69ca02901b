-- ===== src/Outq/Loss/Order.antt =====
-- The order of the list of sent packets, which loss detection relies on.
use quic.Prelude.{◌≤◌, ◌≡◌, inl, inr, sym, arith, true, List, [], ◌∷◌, Bool-cases, All, All-imp}
use quic.Outq.{Outq, PacketSent, level_before, insert_sent, packet_sent_tail}
use quic.Outq.Loss.Found.{Follows, IsInOrder}

insert_sent-All :
    (P : PacketSent → Type 0) (os : List PacketSent) (p : PacketSent)
    → P p
    → All P os
    → All P (insert_sent os p)
unfolding insert_sent
insert_sent-All P [] p h hs = (h, tt)
insert_sent-All P (o ∷ os) p h (i, is) = elim (Bool-cases (level_before p.level o.level)) [
  | inl a ↦ rw a (h, (i, is))
  | inr a ↦ rw a (i, insert_sent-All P os p h is)
]

-- A new packet is not older than those of its level.
abbrev pub IsNewest : PacketSent → PacketSent → Type 0
IsNewest p o = p.level ≡ o.level → (o.number ≤ p.number) × (o.sent_time ≤ p.sent_time)

ahead-Follows : (p o : PacketSent) → level_before p.level o.level ≡ true → Follows p o
ahead-Follows p o h = (ground (arith, h), λ same. absurd (ground (arith, h, same)))

follow-ahead :
    (p o x : PacketSent) → level_before p.level o.level ≡ true → Follows o x → Follows p x
follow-ahead p o x h (order, later) = ahead-Follows p x (ground (arith, h, order))

insert_sent-IsInOrder :
    (os : List PacketSent) (p : PacketSent)
    → All (IsNewest p) os
    → IsInOrder os
    → IsInOrder (insert_sent os p)
unfolding insert_sent
insert_sent-IsInOrder [] p new order = (tt, tt)
insert_sent-IsInOrder (o ∷ os) p (newer, new) (first, order) =
    elim (Bool-cases (level_before p.level o.level)) [
      | inl a ↦ rw a (
        (ahead-Follows p o a, All-imp (λ x follows. follow-ahead p o x a follows) os first),
        (first, order),
      )
      | inr a ↦ rw a (
        insert_sent-All (Follows o) os p (a, λ same. newer (sym same)) first,
        insert_sent-IsInOrder os p new order,
      )
    ]

-- A packet that is sent, the newest of its level, leaves the list of sent packets in the order that
-- loss detection needs: handshake levels first, and a level's packets by number and time.
pub packet_sent_tail-IsInOrder :
    (q : Outq) (p : PacketSent)
    → All (IsNewest p) q.packet_sent_list
    → IsInOrder q.packet_sent_list
    → IsInOrder (packet_sent_tail q p).packet_sent_list
unfolding packet_sent_tail
packet_sent_tail-IsInOrder q p new order = insert_sent-IsInOrder q.packet_sent_list p new order
