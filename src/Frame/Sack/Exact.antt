-- ===== src/Frame/Sack/Exact.antt =====
-- Which packets an acknowledgement takes out of the list of sent packets.
use mathlib.Core.List.{reverse, reverse_aux, Memᴰ}
use quic.Prelude.{
  ℕ, ◌≤◌, ◌≡◌, sym, arith, inl, inr, ◌⊎◌, true, not, ◌==◌, ◌||◌, ltb, List, [], ◌∷◌, All, All-imp,
  Bool-cases, Option,
}
use quic.Outq.{PacketSent}
use quic.Outq.Loss.Found.{Follows, IsInOrder}
use quic.Frame.{Conn}
use quic.Frame.Sack.{SackEnv, sack_loop, sack_packet, confirmed, transmitted_sack}

-- The packet is one of those acknowledged.
abbrev pub IsSacked : ℕ → ℕ → ℕ → PacketSent → Type 0
IsSacked level largest smallest p = (level ≡ p.level) × (smallest ≤ p.number) × (p.number ≤ largest)

-- Newest first, within a level.
abbrev IsOlder : PacketSent → PacketSent → Type 0
IsOlder p o = p.level ≡ o.level → o.number ≤ p.number

abbrev IsDown : List PacketSent → Type 0
IsDown [] = Unit
IsDown (p ∷ ps) = All (IsOlder p) ps × IsDown ps

module _ (env : SackEnv) (level largest smallest : ℕ) (ack_largest : Option ℕ) (ack_delay : ℕ) where
  loop_left :
      (ps : List PacketSent) (c : Conn)
      → IsDown ps
      → All
          (λ p. ¬ IsSacked level largest smallest p)
          (sack_loop env level largest smallest ack_largest ack_delay ps c).0
  unfolding sack_loop
  loop_left [] c down = tt
  loop_left (p ∷ ps) c (first, down) =
      elim (Bool-cases (not (level == p.level) || ltb largest p.number)) [
        | inl passed ↦ rw passed (passed_over p passed, loop_left ps c down)
        | inr here ↦ elim (Bool-cases (ltb p.number smallest)) [
          | inl below ↦
              rw (here, below)
                (
                  λ h. absurd (ground (arith, h.1, below)),
                  All-imp (λ o older h. absurd (ground (arith, here, below, older, h.0, h.1))) ps
                      first,
                )
          | inr acked ↦
              rw (here, acked) (loop_left ps (sack_packet env level ack_largest ack_delay p c) down)
        ]
      ]
    where
      passed_over :
          (p : PacketSent)
          → (not (level == p.level) || ltb largest p.number) ≡ true
          → ¬ IsSacked level largest smallest p
      passed_over p e h = absurd (ground (arith, e, h.0, h.2))

  -- A packet that is not acknowledged stays, and none is there that was not.
  loop_keeps :
      (ps : List PacketSent) (c : Conn) (q : PacketSent)
      → Memᴰ q ps
      → ¬ IsSacked level largest smallest q
      → Memᴰ q (sack_loop env level largest smallest ack_largest ack_delay ps c).0
  unfolding sack_loop
  loop_keeps [] c q m out = elim m [ ]
  loop_keeps (p ∷ ps) c q m out =
      elim (Bool-cases (not (level == p.level) || ltb largest p.number)) [
        | inl passed ↦ rw passed (elim m [
          | Memᴰ.head e ↦ Memᴰ.head e
          | Memᴰ.tail m' ↦ Memᴰ.tail (loop_keeps ps c q m' out)
        ])
        | inr here ↦ elim (Bool-cases (ltb p.number smallest)) [
          | inl below ↦ rw (here, below) m
          | inr acked ↦
              rw (here, acked)
                (elim m [
                  | Memᴰ.head e ↦ absurd (out (rw e (ground (arith, here, acked))))
                  | Memᴰ.tail m' ↦
                      loop_keeps ps (sack_packet env level ack_largest ack_delay p c) q m' out
                ])
        ]
      ]

All-reverse_aux :
    (P : PacketSent → Type 0) (l acc : List PacketSent)
    → All P l
    → All P acc
    → All P (reverse_aux l acc)
All-reverse_aux P [] acc h k = k
All-reverse_aux P (p ∷ ps) acc (first, h) k = All-reverse_aux P ps (p ∷ acc) h (first, k)

Mem-reverse_aux :
    (q : PacketSent) (l acc : List PacketSent) → Memᴰ q l ⊎ Memᴰ q acc → Memᴰ q (reverse_aux l acc)
Mem-reverse_aux q [] acc (inl m) = elim m [ ]
Mem-reverse_aux q [] acc (inr m) = m
Mem-reverse_aux q (p ∷ ps) acc (inl (Memᴰ.head e)) =
    Mem-reverse_aux q ps (p ∷ acc) (inr (Memᴰ.head e))
Mem-reverse_aux q (p ∷ ps) acc (inl (Memᴰ.tail m)) = Mem-reverse_aux q ps (p ∷ acc) (inl m)
Mem-reverse_aux q (p ∷ ps) acc (inr m) = Mem-reverse_aux q ps (p ∷ acc) (inr (Memᴰ.tail m))

-- What comes later in the list is no older than what was taken over.
pair_up :
    (p : PacketSent) (acc ps : List PacketSent)
    → All (Follows p) ps
    → All (λ o. All (IsOlder o) acc) ps
    → All (λ o. All (IsOlder o) (p ∷ acc)) ps
pair_up p acc [] f h = tt
pair_up p acc (o ∷ os) (follows, f) (older, h) =
    ((λ same. (follows.1 (sym same)).0, older), pair_up p acc os f h)

reverse_aux-IsDown :
    (l acc : List PacketSent)
    → IsInOrder l
    → IsDown acc
    → All (λ p. All (IsOlder p) acc) l
    → IsDown (reverse_aux l acc)
reverse_aux-IsDown [] acc order down h = down
reverse_aux-IsDown (p ∷ ps) acc (follows, order) down (older, h) =
    reverse_aux-IsDown ps (p ∷ acc) order (older, down) (pair_up p acc ps follows h)

none_taken : (l : List PacketSent) → All (λ p. All (IsOlder p) []) l
none_taken [] = tt
none_taken (p ∷ ps) = (tt, none_taken ps)

confirmed_list :
    (env : SackEnv) (c : Conn) → (confirmed env c).outq.packet_sent_list ≡ c.outq.packet_sent_list
confirmed_list env c = ground arith

-- A packet that is not acknowledged stays, in whatever order the list is.
pub transmitted_sack_keeps :
    (env : SackEnv) (level largest smallest : ℕ) (ack_largest : Option ℕ) (ack_delay : ℕ) (c : Conn)
    (q : PacketSent)
    → Memᴰ q c.outq.packet_sent_list
    → ¬ IsSacked level largest smallest q
    → Memᴰ q
        (transmitted_sack env level largest smallest ack_largest ack_delay c).outq.packet_sent_list
unfolding transmitted_sack
transmitted_sack_keeps env level largest smallest ack_largest ack_delay c q m out =
    let list = c.outq.packet_sent_list in
    let r =
      sack_loop env level largest smallest ack_largest ack_delay (reverse list) (confirmed env c) in
    rw (confirmed_list env c) (
      Mem-reverse_aux q r.0 [] (
        inl (
          loop_keeps env level largest smallest ack_largest ack_delay (reverse list)
            (confirmed env c) q (Mem-reverse_aux q list [] (inl m)) out)))

-- Of a list of sent packets in order, an acknowledgement of a range takes out exactly the packets of
-- the level with a number in the range: none of them is left, and every other packet stays.
pub transmitted_sack-IsSacked :
    (env : SackEnv) (level largest smallest : ℕ) (ack_largest : Option ℕ) (ack_delay : ℕ) (c : Conn)
    → IsInOrder c.outq.packet_sent_list
    → let left =
        (transmitted_sack env level largest smallest ack_largest ack_delay
          c).outq.packet_sent_list in
      All (λ p. ¬ IsSacked level largest smallest p) left
      × ((q : PacketSent)
          → Memᴰ q c.outq.packet_sent_list
          → ¬ IsSacked level largest smallest q
          → Memᴰ q left)
unfolding transmitted_sack
transmitted_sack-IsSacked env level largest smallest ack_largest ack_delay c order =
    let list = c.outq.packet_sent_list in
    let r =
      sack_loop env level largest smallest ack_largest ack_delay (reverse list) (confirmed env c) in
    let down = reverse_aux-IsDown list [] order tt (none_taken list) in
    (
      rw (confirmed_list env c) (
          All-reverse_aux _ r.0 []
            (loop_left env level largest smallest ack_largest ack_delay (reverse list)
              (confirmed env c) down)
            tt),
      transmitted_sack_keeps env level largest smallest ack_largest ack_delay c,
    )
