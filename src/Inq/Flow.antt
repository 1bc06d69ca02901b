-- ===== src/Inq/Flow.antt =====
-- Flow control in inqueue.c: what the application has read becomes new credit for the peer. The
-- packet's `mss`, memory pressure, and whether a frame can be sent, are arguments.
pub mod Credit
use quic.Prelude.{
  ℕ, ◌+◌, ◌-◌, ◌/◌, ◌%◌, Bool, true, false, not, ◌&&◌, ◌||◌, ltb, leb, ◌==◌, if◌then◌else◌, max,
}
use quic.Prelude.Words.{u32_mod, add64, sub64}
use quic.Stream.{Stream, recv_state_recvd}
use quic.Inq.{Inq}

-- `pressure` is `sk_under_memory_pressure`; `send_max_data` and `send_max_stream_data` tell whether
-- `quic_outq_transmit_frame` accepts a frame.
pub record Link : Type 0 where
  pub mss : ℕ
  pub pressure : Bool
  pub send_max_data : Bool
  pub send_max_stream_data : Bool

-- `need_sack`: a frame was queued, an acknowledgement goes with it, and the queue is transmitted.
pub record Flow : Type 0 where
  pub inq : Inq
  pub stream : Stream
  pub need_sack : Bool

-- The credit to be had has grown enough to be worth a frame.
abbrev pub is_due : Link → ℕ → ℕ → ℕ → Bool
is_due link window bytes max_bytes =
    leb (max link.mss (window / 16)) (sub64 (add64 bytes window) max_bytes)

abbrev pub reduced : Link → ℕ → ℕ
reduced link window = if link.pressure then window / 2 else window

-- The window is the u32 of `max_data`.
unfoldable pub update_connection : Link → Inq → Inq × Bool
update_connection link q =
    let window = q.max_data % u32_mod in
    if is_due link window q.bytes q.max_bytes
    then (record q { max_bytes = add64 q.bytes (reduced link window) }, link.send_max_data)
    else (q, false)

-- So is the stream's.
unfoldable pub update_stream : Link → Stream → Stream × Bool
update_stream link s =
    let window = s.recv.window % u32_mod in
    if ltb s.recv.state recv_state_recvd && is_due link window s.recv.bytes s.recv.max_bytes
    then (
      record s { recv = record s.recv { max_bytes = add64 s.recv.bytes (reduced link window) } },
      link.send_max_stream_data,
    )
    else (s, false)

unfoldable pub flow_control : Link → Inq → Stream → ℕ → Flow
unfolding update_connection update_stream
flow_control link q s bytes =
    if bytes == 0
    then record { inq = q; stream = s; need_sack = false }
    else let q1 = record q { bytes = add64 q.bytes bytes } in
      let s1 = record s { recv = record s.recv { bytes = add64 s.recv.bytes bytes } } in
      let (q2, sent) = update_connection link q1 in
      let (s2, sent') = update_stream link s1 in
      record { inq = q2; stream = s2; need_sack = sent || sent' }
