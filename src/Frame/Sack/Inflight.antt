-- ===== src/Frame/Sack/Inflight.antt =====
-- The bytes in flight behind an acknowledgement.
use mathlib.Core.List.{reverse, reverse_aux}
use quic.Prelude.{
  ℕ, ◌+◌, ◌≡◌, refl, ap, ◌∙◌, arith, inl, inr, not, ◌==◌, ==_iff, ◌||◌, ltb, if◌then◌else◌, Option,
  List, [], ◌∷◌, Bool-cases,
}
use quic.Prelude.Words.{sub32}
use quic.PnSpace.{PnSpace, set_max_pn_acked_seen}
use quic.Outq.{Outq, PacketSent}
use quic.Outq.Loss.{Sending}
use quic.Outq.Loss.Inflight.{
  sent_bytes, level_bytes, Counts, IsAccounted, sub32_lem, sync_window_keeps,
}
use quic.Frame.{Conn, with_space}
use quic.Frame.Sack.{
  SackEnv, sack_frames, note_largest, is_largest, uncounted, sack_packet, sack_loop, confirmed,
  closed_sack, with_outq, transmitted_sack,
}
use quic.Frame.Sack.Effects.{sack_frames-Balances}

-- The queue, a level's space and congestion control of a socket.
abbrev pub sending_of : ℕ → Conn → Sending
sending_of level c = record { outq = c.outq; space = c.spaces level; cong = c.cong }

at_level : (c : Conn) (level : ℕ) (s : PnSpace) → (with_space c level s).spaces level ≡ s
at_level c level s = rw ((==_iff level level).1 refl) refl

module _ (env : SackEnv) (level : ℕ) (p : PacketSent) (ack_delay : ℕ) where
  note_largest-Balances :
      (c : Conn)
      → ((note_largest env level p ack_delay c).outq ≡ c.outq)
        × (((note_largest env level p ack_delay c).spaces level).inflight
            ≡ (c.spaces level).inflight)
  unfolding note_largest set_max_pn_acked_seen
  note_largest-Balances c = (refl, rw ((==_iff level level).1 refl) (ground arith))

  -- A packet that is acknowledged is taken off both counts.
  sack_packet_inflight :
      (c : Conn) (ack_largest : Option ℕ)
      → ((sack_packet env level ack_largest ack_delay p c).outq.inflight
          ≡ sub32 c.outq.inflight p.frame_len)
        × (((sack_packet env level ack_largest ack_delay p c).spaces level).inflight
            ≡ sub32 (c.spaces level).inflight p.frame_len)
  unfolding sack_packet
  sack_packet_inflight c ack_largest =
      let (queue, spaces) = sack_frames-Balances env p.frame_array (uncounted level p c) 0 in
      let mine : ((sack_frames env p.frame_array (uncounted level p c) 0).spaces level).inflight
          ≡ sub32 (c.spaces level).inflight p.frame_len =
        ap (λ (f : ℕ → PnSpace). (f level).inflight) spaces
        ∙ rw ((==_iff level level).1 refl) refl in
      elim (Bool-cases (is_largest ack_largest p.number)) [
        | inl newest ↦
            let (same, mine') =
              note_largest-Balances (sack_frames env p.frame_array (uncounted level p c) 0) in
            rw newest
              (sync_window_keeps _ _ ∙ ap (λ (q : Outq). q.inflight) same ∙ queue, mine' ∙ mine)
        | inr older ↦ rw older (sync_window_keeps _ _ ∙ queue, mine)
      ]

abbrev Counted : ℕ → ℕ → ℕ → List PacketSent × Conn × ℕ → Type 0
Counted level x y (kept, c, acked) = Counts level kept x y (sending_of level c)

abbrev mine_of : ℕ → PacketSent → ℕ
mine_of level p = if level == p.level then p.frame_len else 0

-- Packets that stay are put in front of a list that is counted with them.
Counts-tail :
    (level x y : ℕ) (p : PacketSent) (ps : List PacketSent) (s : Sending)
    → Counts level (p ∷ ps) x y s
    → Counts level ps (p.frame_len + x) (mine_of level p + y) s
unfolding sent_bytes level_bytes
Counts-tail level x y p ps s c = record {
  all = omega (arith, c.all);
  mine = ground (arith, c.mine);
  word = c.word;
  space_word = c.space_word;
}

tail-Counts :
    (level x y : ℕ) (p : PacketSent) (ps : List PacketSent) (s : Sending)
    → Counts level ps (p.frame_len + x) (mine_of level p + y) s
    → Counts level (p ∷ ps) x y s
unfolding sent_bytes level_bytes
tail-Counts level x y p ps s c = record {
  all = omega (arith, c.all);
  mine = ground (arith, c.mine);
  word = c.word;
  space_word = c.space_word;
}

module _ (env : SackEnv) (level largest smallest : ℕ) (ack_largest : Option ℕ) (ack_delay : ℕ) where
  taken-Counts :
      (p : PacketSent) (ps : List PacketSent) (c : Conn) (x y : ℕ)
      → level ≡ p.level
      → Counts level (p ∷ ps) x y (sending_of level c)
      → Counts level ps x y (sending_of level (sack_packet env level ack_largest ack_delay p c))
  unfolding sent_bytes level_bytes
  taken-Counts p ps c x y same k =
      let (all, mine) = sack_packet_inflight env level p ack_delay c ack_largest in
      let total =
        sub32_lem c.outq.inflight p.frame_len (sent_bytes ps + x) (omega (arith, k.all)) k.word in
      let of_level : (c.spaces level).inflight ≡ p.frame_len + (level_bytes level ps + y) =
        ground (arith, same, k.mine) in
      let rest_level =
        sub32_lem (c.spaces level).inflight p.frame_len (level_bytes level ps + y) of_level
          k.space_word in
      record {
        all = all ∙ total;
        mine = mine ∙ rest_level;
        word = omega (arith, all, total, k.all, k.word);
        space_word = omega (arith, mine, rest_level, of_level, k.space_word);
      }

  sack_loop-Counted :
      (ps : List PacketSent) (c : Conn) (x y : ℕ)
      → Counts level ps x y (sending_of level c)
      → Counted level x y (sack_loop env level largest smallest ack_largest ack_delay ps c)
  unfolding sack_loop
  sack_loop-Counted [] c x y k = k
  sack_loop-Counted (p ∷ ps) c x y k =
      elim (Bool-cases (not (level == p.level) || ltb largest p.number)) [
        | inl passed ↦ rw passed (
            tail-Counts level x y p _ _ (
              sack_loop-Counted ps c (p.frame_len + x) (mine_of level p + y)
                (Counts-tail level x y p ps (sending_of level c) k)))
        | inr here ↦ elim (Bool-cases (ltb p.number smallest)) [
          | inl below ↦ rw (here, below) k
          | inr acked ↦
              rw (here, acked)
                (sack_loop-Counted ps (sack_packet env level ack_largest ack_delay p c) x y
                  (taken-Counts p ps c x y (ground (arith, here)) k))
        ]
      ]

sent_bytes-reverse_aux :
    (l r : List PacketSent) → sent_bytes (reverse_aux l r) ≡ sent_bytes l + sent_bytes r
unfolding sent_bytes
sent_bytes-reverse_aux [] r = omega arith
sent_bytes-reverse_aux (p ∷ ps) r = omega (arith, sent_bytes-reverse_aux ps (p ∷ r))

level_bytes-reverse_aux :
    (level : ℕ) (l r : List PacketSent)
    → level_bytes level (reverse_aux l r) ≡ level_bytes level l + level_bytes level r
unfolding level_bytes
level_bytes-reverse_aux level [] r = omega arith
level_bytes-reverse_aux level (p ∷ ps) r = ground (arith, level_bytes-reverse_aux level ps (p ∷ r))

reversed :
    (level : ℕ) (l : List PacketSent)
    → (sent_bytes (reverse l) ≡ sent_bytes l)
      × (level_bytes level (reverse l) ≡ level_bytes level l)
unfolding sent_bytes level_bytes
reversed level l =
    (omega (arith, sent_bytes-reverse_aux l []), omega (arith, level_bytes-reverse_aux level l []))

closed_sack-IsAccounted :
    (env : SackEnv) (level : ℕ) (r : List PacketSent × Conn × ℕ)
    → Counted level 0 0 r
    → IsAccounted level (sending_of level (closed_sack env r))
closed_sack-IsAccounted env level (kept, c, acked) k =
    let (all, mine) = reversed level kept in
    record {
      all = omega (arith, k.all, all);
      mine = omega (arith, k.mine, mine);
      word = k.word;
      space_word = k.space_word;
    }

confirmed-Counts :
    (env : SackEnv) (level : ℕ) (c : Conn)
    → IsAccounted level (sending_of level c)
    → Counts level
        (reverse (confirmed env c).outq.packet_sent_list)
        0
        0
        (sending_of level (confirmed env c))
confirmed-Counts env level c a = elim (Bool-cases env.validated) [
  | inl e ↦ rw e (counts 0)
  | inr e ↦ rw e (counts c.outq.pto_count)
]
  where
    counts :
        (pto_count : ℕ)
        → Counts level
            (reverse c.outq.packet_sent_list)
            0
            0
            (sending_of level (with_outq c (record c.outq { pto_count = pto_count })))
    counts pto_count =
        let (all, mine) = reversed level c.outq.packet_sent_list in
        record {
          all = omega (arith, a.all, all);
          mine = omega (arith, a.mine, mine);
          word = a.word;
          space_word = a.space_word;
        }

-- Whatever range of packet numbers is acknowledged, the bytes in flight, of the connection and of the
-- level, stay the bytes of the packets that are still in the list of sent packets.
pub transmitted_sack-IsAccounted :
    (env : SackEnv) (level largest smallest : ℕ) (ack_largest : Option ℕ) (ack_delay : ℕ) (c : Conn)
    → IsAccounted level (sending_of level c)
    → IsAccounted level
        (sending_of level (transmitted_sack env level largest smallest ack_largest ack_delay c))
unfolding transmitted_sack
transmitted_sack-IsAccounted env level largest smallest ack_largest ack_delay c a =
    closed_sack-IsAccounted env level
      (sack_loop env level largest smallest ack_largest ack_delay
        (reverse (confirmed env c).outq.packet_sent_list) (confirmed env c))
      (sack_loop-Counted env level largest smallest ack_largest ack_delay
        (reverse (confirmed env c).outq.packet_sent_list) (confirmed env c) 0 0
        (confirmed-Counts env level c a))
