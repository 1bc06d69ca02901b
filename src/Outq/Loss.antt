-- ===== src/Outq/Loss.antt =====
-- Loss detection in outqueue.c: `quic_outq_retransmit_mark`. A frame is marked as transmitted exactly
-- while it is in the list of transmitted frames; a frame that is in no list was acknowledged.
pub mod Steps
pub mod Inflight
pub mod Found
pub mod Order
pub mod Frames
use quic.Prelude.{
  ℕ, ◌+◌, Bool, true, false, not, ◌&&◌, ◌||◌, ltb, ◌==◌, if◌then◌else◌, Option, none, some, List,
  [], ◌∷◌,
}
use quic.Prelude.Words.{add64, sub32}
use quic.Cong.Types.{Cong}
use quic.Cong.Ops.{on_packet_lost}
use quic.PnSpace.{PnSpace}
use quic.Outq.{
  TxFrame, FrameKind, dgram_kind, ping_kind, Outq, PacketSent, retransmit_frame, wfree, sync_window,
}

abbrev pub kpacket_threshold : ℕ
kpacket_threshold = 3

-- The queue, the packet number space of the level, and congestion control.
pub record Sending : Type 0 where
  pub outq : Outq
  pub space : PnSpace
  pub cong : Cong

abbrev pub put_back : TxFrame → Option (TxFrame × List TxFrame) → Option (TxFrame × List TxFrame)
put_back g none = none
put_back g (some (f, rest)) = some (f, g ∷ rest)

unfoldable pub take_frame : ℕ → List TxFrame → Option (TxFrame × List TxFrame)
take_frame id [] = none
take_frame id (f ∷ fs) =
    let rest = put_back f (take_frame id fs) in if f.id == id then some (f, fs) else rest

abbrev pub is_dropped : FrameKind → Bool
is_dropped dgram_kind = true
is_dropped ping_kind = true
is_dropped _ = false

-- A lost frame goes back to its queue, but DATAGRAM and PING, whose bytes are the number.
abbrev pub requeue : Outq → Option (TxFrame × List TxFrame) → Outq × ℕ
requeue q none = (q, 0)
requeue q (some (f, rest)) =
    let q' = record q { transmitted_list = rest } in
    if is_dropped f.kind
    then (q', f.bytes)
    else (retransmit_frame q' (record f { transmitted = false }), 0)

unfoldable pub lost_frames : List ℕ → Outq → ℕ → Outq
unfolding take_frame retransmit_frame wfree
lost_frames [] q bytes = wfree bytes q
lost_frames (id ∷ ids) q bytes =
    let (q', n) = requeue q (take_frame id q.transmitted_list) in lost_frames ids q' (bytes + n)

unfoldable pub lose : Sending → PacketSent → Sending
unfolding lost_frames sync_window
lose s p =
    let q = record s.outq { inflight = sub32 s.outq.inflight p.frame_len } in
    let cong = on_packet_lost s.cong s.space.max_pn_acked_time in
    record {
      outq = sync_window (lost_frames p.frame_array q 0) cong.window;
      space = record s.space { inflight = sub32 s.space.inflight p.frame_len };
      cong = cong;
    }

-- The time at which the packet will count as lost.
abbrev pub loss_at : Sending → PacketSent → ℕ
loss_at s p = add64 p.sent_time s.cong.loss_delay

abbrev pub set_loss_time : Sending → PacketSent → Sending
set_loss_time s p =
    let old = s.space.loss_time in
    if (old == 0) || ltb (loss_at s p) old
    then record s { space = record s.space { loss_time = loss_at s p } }
    else s

-- Not old enough yet, by its time nor by its number.
abbrev pub is_recent : Sending → PacketSent → Bool
is_recent s p =
    ltb s.cong.time (loss_at s p) && ltb s.space.max_pn_acked_seen (p.number + kpacket_threshold)

unfoldable pub mark_loop : Bool → ℕ → List PacketSent → Sending → List PacketSent × Sending
unfolding lose
mark_loop immediate level [] s = ([], s)
mark_loop immediate level (p ∷ ps) s =
    let (kept, s') = mark_loop immediate level ps s in
    let lost = mark_loop immediate level ps (lose s p) in
    if not (level == 0) && (p.level == 0)
    then (p ∷ ps, s)
    else if not (level == p.level)
    then (p ∷ kept, s')
    else if not immediate && ltb s.space.max_pn_acked_seen p.number
    then (p ∷ ps, s)
    else if not immediate && is_recent s p
    then (p ∷ ps, set_loss_time s p)
    else lost

abbrev pub started : Sending → ℕ → Sending
started s now = record s {
  space = record s.space { loss_time = 0 };
  cong = record s.cong { time = now };
}

abbrev pub with_sent : List PacketSent → Sending → Sending
with_sent kept s = record s { outq = record s.outq { packet_sent_list = kept } }

unfoldable pub retransmit_mark : Sending → ℕ → Bool → ℕ → Sending
unfolding mark_loop
retransmit_mark s level immediate now =
    let (kept, s') = mark_loop immediate level s.outq.packet_sent_list (started s now) in
    with_sent kept s'
