-- ===== src/Frame/Sack.antt =====
-- The acknowledgement of what was sent: `quic_outq_transmitted_sack` in outqueue.c, and the functions
-- of frame.c that it calls for the frames of a packet. A frame's pointer to its stream is the
-- stream's ID; a sent packet's `ecn`, the time of the next key update, and the part of
-- `quic_outq_path_confirm` that is about the path MTU are not modelled.
pub mod Effects
pub mod Inflight
pub mod Exact
use mathlib.Core.List.{reverse}
use quic.Prelude.{
  ℕ, ◌+◌, ◌-◌, ◌*◌, Bool, true, false, not, ◌||◌, ltb, leb, ◌==◌, if◌then◌else◌, Option, none, some,
  List, [], ◌∷◌,
}
use quic.Prelude.Words.{add32, sub32, mul32}
use quic.Stream.{Stream, StreamTable, find, write, send_state_recvd, send_state_reset_recvd}
use quic.Stream.Ops.{put}
use quic.Inq.{Env, event_recv, event_stream_update}
use quic.PnSpace.{PnSpace, set_max_pn_acked_seen}
use quic.Cong.Types.{Cong}
use quic.Cong.Ops.{rtt_update, on_packet_acked, on_ack_recv}
use quic.Outq.{
  TxFrame, FrameKind, PacketSent, Outq, wfree, sync_window, stream_kind, reset_stream_kind,
  new_token_kind, data_blocked_kind, stream_data_blocked_kind, streams_blocked_bidi_kind,
  streams_blocked_uni_kind,
}
use quic.Outq.Loss.{take_frame}
use quic.Frame.{Conn, with_space}

abbrev pub send_state_sent : ℕ
send_state_sent = 2

-- `validated` is the path's, `max_rate` the socket's `sk_max_pacing_rate`, and `stack` what an event
-- structure on the stack holds in the error and the final size where they are not set.
pub record SackEnv : Type 0 where
  pub rx : Env
  pub error_bytes : ℕ → ℕ → ℕ → ℕ → List ℕ
  pub stack : ℕ × ℕ
  pub now : ℕ
  pub max_rate : ℕ
  pub validated : Bool

-- The sending side of a stream ends: the reader is told, and the stream released.
unfoldable pub end_sending : SackEnv → Conn → Stream → ℕ → ℕ → Conn
end_sending env c s state errcode =
    let payload = env.error_bytes s.id state errcode env.stack.1 in
    let s' = record s { send = record s.send { state = state } } in
    record c {
      inq = (event_recv env.rx c.inq event_stream_update payload).0;
      streams = put (write c.streams s') s' c.is_serv true;
    }

unfoldable pub reset_stream_ack : SackEnv → Conn → Stream → Conn
reset_stream_ack env c s = end_sending env c s send_state_reset_recvd s.send.errcode

-- The last frame of a stream that is sent is the end of it.
unfoldable pub stream_ack : SackEnv → Conn → Stream → Conn
stream_ack env c s =
    let s' = record s { send = record s.send { frags = sub32 s.send.frags 1 } } in
    if not (s'.send.frags == 0) || not (s'.send.state == send_state_sent)
    then record c { streams = write c.streams s' }
    else end_sending env c s' send_state_recvd env.stack.0

abbrev pub stream_data_blocked_ack : Conn → Stream → Conn
stream_data_blocked_ack c s = record c {
  streams = write c.streams (record s { send = record s.send { data_blocked = false } });
}

-- With the stream that the frame points to.
abbrev pub on_stream : Conn → Option ℕ → (Stream → Conn) → Conn
on_stream c none f = c
on_stream c (some id) f = elim (find c.streams id) [ none ↦ c | some s ↦ f s ]

abbrev pub with_send_blocked : Conn → Bool → Bool → Conn
with_send_blocked c bidi uni = record c {
  streams = record c.streams {
    send = record c.streams.send { bidi_blocked = bidi; uni_blocked = uni };
  };
}

-- The table of the frames' functions for an acknowledgement; those of the other types do nothing.
unfoldable pub frame_acked : SackEnv → Conn → FrameKind → Option ℕ → Conn
frame_acked env c stream_kind stream = on_stream c stream (stream_ack env c)
frame_acked env c reset_stream_kind stream = on_stream c stream (reset_stream_ack env c)
frame_acked env c new_token_kind stream = record c { token_pending = false }
frame_acked env c data_blocked_kind stream = record c {
  credit = record c.credit { data_blocked = false };
}
frame_acked env c stream_data_blocked_kind stream = on_stream c stream (stream_data_blocked_ack c)
frame_acked env c streams_blocked_bidi_kind stream =
    with_send_blocked c false c.streams.send.uni_blocked
frame_acked env c streams_blocked_uni_kind stream =
    with_send_blocked c c.streams.send.bidi_blocked false
frame_acked env c _ stream = c

-- The list that a frame is in: it was transmitted, or waits to be transmitted again. `none` is an
-- empty list head: another packet acknowledged it.
abbrev pub in_control : Outq → Option (TxFrame × List TxFrame) → Option (TxFrame × Outq)
in_control q none = none
in_control q (some (f, rest)) = some (f, record q { control_list = rest })

abbrev pub in_stream : ℕ → Outq → Option (TxFrame × List TxFrame) → Option (TxFrame × Outq)
in_stream id q none = in_control q (take_frame id q.control_list)
in_stream id q (some (f, rest)) = some (f, record q { stream_list = rest })

abbrev pub in_transmitted : ℕ → Outq → Option (TxFrame × List TxFrame) → Option (TxFrame × Outq)
in_transmitted id q none = in_stream id q (take_frame id q.stream_list)
in_transmitted id q (some (f, rest)) = some (f, record q { transmitted_list = rest })

unfoldable pub unlink : ℕ → Outq → Option (TxFrame × Outq)
unlink id q = in_transmitted id q (take_frame id q.transmitted_list)

-- `quic_frame_ack` of the frame, with the bytes that it held.
abbrev pub ack_one : SackEnv → Conn → Option (TxFrame × Outq) → Conn × ℕ
ack_one env c none = (c, 0)
ack_one env c (some (f, q)) = (frame_acked env (record c { outq = q }) f.kind f.stream, f.bytes)

abbrev pub with_outq : Conn → Outq → Conn
with_outq c q = record c { outq = q }

unfoldable pub sack_frames : SackEnv → List ℕ → Conn → ℕ → Conn
sack_frames env [] c acked = with_outq c (wfree acked c.outq)
sack_frames env (id ∷ ids) c acked =
    let (c', n) = ack_one env c (unlink id c.outq) in sack_frames env ids c' (acked + n)

-- The largest number of the frame gives a sample of the round trip.
unfoldable pub note_largest : SackEnv → ℕ → PacketSent → ℕ → Conn → Conn
note_largest env level p ack_delay c =
    let s = set_max_pn_acked_seen (c.spaces level) env.now p.number in
    let cong = rtt_update c.cong p.sent_time ack_delay in
    record (with_space c level (record s { max_time_limit = mul32 cong.pto 2 })) { cong = cong }

abbrev pub is_largest : Option ℕ → ℕ → Bool
is_largest none number = false
is_largest (some n) number = n == number

abbrev pub uncounted : ℕ → PacketSent → Conn → Conn
uncounted level p c =
    let s = c.spaces level in
    with_outq (with_space c level (record s { inflight = sub32 s.inflight p.frame_len }))
      (record c.outq { inflight = sub32 c.outq.inflight p.frame_len })

abbrev pub grown_window : PacketSent → Conn → Conn
grown_window p c =
    let cong = on_packet_acked c.cong p.sent_time p.frame_len p.number in
    record c { cong = cong; outq = sync_window c.outq cong.window }

unfoldable pub sack_packet : SackEnv → ℕ → Option ℕ → ℕ → PacketSent → Conn → Conn
sack_packet env level ack_largest ack_delay p c =
    let c1 = sack_frames env p.frame_array (uncounted level p c) 0 in
    let c2 =
      if is_largest ack_largest p.number then note_largest env level p ack_delay c1 else c1 in
    grown_window p c2

-- Backwards over the sent packets, newest first: those that stay, and the bytes acknowledged.
unfoldable pub sack_loop :
    SackEnv → ℕ → ℕ → ℕ → Option ℕ → ℕ → List PacketSent → Conn → List PacketSent × Conn × ℕ
sack_loop env level largest smallest ack_largest ack_delay [] c = ([], c, 0)
sack_loop env level largest smallest ack_largest ack_delay (p ∷ ps) c =
    let (kept, c', n) = sack_loop env level largest smallest ack_largest ack_delay ps c in
    let (left, c'', m) =
      sack_loop env level largest smallest ack_largest ack_delay ps
        (sack_packet env level ack_largest ack_delay p c) in
    if not (level == p.level) || ltb largest p.number
    then (p ∷ kept, c', n)
    else if ltb p.number smallest
    then (p ∷ ps, c, 0)
    else (left, c'', add32 p.frame_len m)

abbrev pub confirmed : SackEnv → Conn → Conn
confirmed env c = if env.validated then with_outq c (record c.outq { pto_count = 0 }) else c

abbrev pub closed_sack : SackEnv → List PacketSent × Conn × ℕ → Conn
closed_sack env (kept, c, acked) = record c {
  outq = record c.outq { packet_sent_list = reverse kept };
  cong = on_ack_recv c.cong acked env.max_rate;
}

unfoldable pub transmitted_sack : SackEnv → ℕ → ℕ → ℕ → Option ℕ → ℕ → Conn → Conn
transmitted_sack env level largest smallest ack_largest ack_delay c =
    let c0 = confirmed env c in
    closed_sack env (
      sack_loop env level largest smallest ack_largest ack_delay (reverse c0.outq.packet_sent_list)
        c0)
