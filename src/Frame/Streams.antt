-- ===== src/Frame/Streams.antt =====
-- The frames of frame.c on one stream: STREAM, RESET_STREAM and STOP_SENDING.
pub mod RoundTrip
pub mod Reset
use quic.Prelude.{
  ℕ, ◌+◌, ◌-◌, ◌/◌, ◌%◌, Bool, true, false, not, ◌&&◌, ◌||◌, ltb, leb, ◌==◌, if◌then◌else◌, Option,
  none, some, List, [], ◌++◌, length, take,
}
use quic.Prelude.Words.{u32_mod, u64_mod}
use quic.Prelude.Result.{Errno, einval, enomem, Result, ok, err}
use quic.Codec.{put_var, get_var}
use quic.Stream.{Stream, StreamTable, write, recv_state_recvd}
use quic.Stream.Ops.{get, put}
use quic.Inq.{Inq, RxFrame, rfree, list_purge, event_recv, event_stream_update}
use quic.Inq.Streams.{Rx, Handled, stream_recv, size_changed, error_final_size}
use quic.Inq.Streams as Receiving
use quic.Outq.{purge_transmitted, purge_stream}
use quic.Frame.{
  Conn, FrameEnv, Processed, took, failed, overrun, used, get_var2, stream_error, with_event,
  transmit_frame, frame_reset_stream,
}

abbrev pub frame_stop_sending : ℕ
frame_stop_sending = 5

abbrev pub send_state_reset_sent : ℕ
send_state_reset_sent = 4

abbrev pub recv_state_reset_recvd : ℕ
recv_state_reset_recvd = 10

abbrev pub has_off : ℕ → Bool
has_off type = not (type / 4 % 2 == 0)

abbrev pub has_len : ℕ → Bool
has_len type = not (type / 2 % 2 == 0)

abbrev pub has_fin : ℕ → Bool
has_fin type = not (type % 2 == 0)

-- The header of a STREAM frame; `payload` is what is left of the frame behind it.
pub record StreamHead : Type 0 where
  pub stream_id : ℕ
  pub offset : ℕ
  pub payload_len : ℕ
  pub payload : List ℕ

abbrev pub read_offset : ℕ → List ℕ → Option (ℕ × List ℕ)
read_offset type p =
    if has_off type
    then elim (get_var p) [ none ↦ none | some (_, offset, rest) ↦ some (offset, rest) ]
    else some (0, p)

abbrev pub read_length : ℕ → List ℕ → Option (ℕ × List ℕ)
read_length type p =
    if has_len type
    then elim (get_var p) [
      | none ↦ none
      | some (_, n, rest) ↦ if ltb (length rest) n then none else some (n, rest)
    ]
    else some (length p, p)

unfoldable pub stream_head : ℕ → List ℕ → Option StreamHead
stream_head type p = elim (get_var p) [
  | none ↦ none
  | some (_, stream_id, p1) ↦ elim (read_offset type p1) [
    | none ↦ none
    | some (offset, p2) ↦ elim (read_length type p2) [
      | none ↦ none
      | some (n, p3) ↦
          some (record { stream_id = stream_id; offset = offset; payload_len = n; payload = p3 })
    ]
  ]
]

-- The header that `quic_frame_stream_create` writes: the offset where it is not 0, and always the
-- length. `msg_len` and the FIN are what the message and the limits gave.
unfoldable pub stream_type : Stream → Bool → ℕ
stream_type s fin = 8 + (if s.send.bytes == 0 then 0 else 4) + 2 + (if fin then 1 else 0)

unfoldable pub stream_header : Stream → ℕ → List ℕ
stream_header s msg_len =
    put_var s.id ++ ((if s.send.bytes == 0 then [] else put_var s.send.bytes) ++ put_var msg_len)

abbrev pub nframe : ℕ → ℕ → StreamHead → ℕ → RxFrame
nframe type level h id = record {
  stream = some id;
  level = level;
  offset = h.offset;
  bytes = take h.payload_len h.payload;
  stream_fin = has_fin type;
  event = false;
  dgram = false;
}

-- The receive queue's result as the frame's.
abbrev pub received : ℕ → Conn → Handled → Processed Conn
received n c (Receiving.handled r) = took n (record c { inq = r.inq; streams = r.table })
received n c (Receiving.failed e code r) =
    failed e code (record c { inq = r.inq; streams = r.table })
received n c Receiving.overrun = overrun

-- The data is passed over if the stream has ended, or if the peer was told to stop.
unfoldable pub stream_data : FrameEnv → ℕ → ℕ → StreamHead → ℕ → Conn → Stream → Processed Conn
stream_data env type level h n c s =
    if leb recv_state_recvd s.recv.state || s.recv.stop_sent
    then took n c
    else if not env.nframe_mem
    then failed enomem 0 c
    else received n c (
        stream_recv env.rx c.is_serv (record { inq = c.inq; table = c.streams; stream = s })
          (nframe type level h s.id))

unfoldable pub stream_process : FrameEnv → ℕ → ℕ → List ℕ → Conn → Processed Conn
stream_process env level type p c = elim (stream_head type p) [
  | none ↦ failed einval 0 c
  | some h ↦
      let n = used p h.payload + h.payload_len in
      elim (get c.streams h.stream_id false c.is_serv false env.stream_mem) [
        | err e ↦ stream_error e n c
        | ok (t, s) ↦ stream_data env type level h n (record c { streams = t }) s
      ]
]

pub record ResetHead : Type 0 where
  pub stream_id : ℕ
  pub errcode : ℕ
  pub finalsz : ℕ
  pub rest : List ℕ

unfoldable pub reset_head : List ℕ → Option ResetHead
reset_head p = elim (get_var2 p) [
  | none ↦ none
  | some (stream_id, errcode, p2) ↦ elim (get_var p2) [
    | none ↦ none
    | some (_, finalsz, p3) ↦
        some (record { stream_id = stream_id; errcode = errcode; finalsz = finalsz; rest = p3 })
  ]
]

abbrev pub with_purged : Conn → ℕ → Conn
with_purged c id =
    let (streams, n) = list_purge c.inq.stream_list (some id) in
    let q1 = rfree n (record c.inq { stream_list = streams }) in
    let (received, m) = list_purge q1.recv_list (some id) in
    record c { inq = rfree m (record q1 { recv_list = received }) }

-- The stream is reset, its data given up, and the receiving side released. The event has the error
-- as a u32.
unfoldable pub reset_recv : FrameEnv → Conn → Stream → ResetHead → Conn
reset_recv env c s h =
    let c1 =
      with_event env c event_stream_update
        (env.error_bytes h.stream_id recv_state_reset_recvd (h.errcode % u32_mod) h.finalsz) in
    let s1 = record s {
      recv = record s.recv { state = recv_state_reset_recvd; finalsz = h.finalsz };
    } in
    let c2 = with_purged c1 s.id in
    record c2 { streams = put (write c2.streams s1) s1 c.is_serv false }

unfoldable pub reset_stream : FrameEnv → Conn → Stream → ResetHead → ℕ → Processed Conn
reset_stream env c s h n =
    if leb recv_state_recvd s.recv.state
    then took n c
    else if size_changed s h.finalsz
    then failed einval error_final_size c
    else took n (reset_recv env c s h)

unfoldable pub reset_stream_process : FrameEnv → List ℕ → Conn → Processed Conn
reset_stream_process env p c = elim (reset_head p) [
  | none ↦ failed einval 0 c
  | some h ↦ elim (get c.streams h.stream_id false c.is_serv false env.stream_mem) [
    | err e ↦ stream_error e (used p h.rest) c
    | ok (t, s) ↦ reset_stream env (record c { streams = t }) s h (used p h.rest)
  ]
]

-- The bytes of a RESET_STREAM frame, and what its creation changes: the error of the stream, and the
-- stream that is active.
unfoldable pub reset_stream_bytes : Stream → ℕ → List ℕ
reset_stream_bytes s errcode =
    put_var frame_reset_stream ++ (put_var s.id ++ (put_var errcode ++ put_var s.send.bytes))

unfoldable pub reset_stream_marks : StreamTable → Stream → ℕ → StreamTable
reset_stream_marks t s errcode =
    let t' = write t (record s { send = record s.send { errcode = errcode } }) in
    if t.send.active_stream_id == s.id
    then record t' { send = record t'.send { active_stream_id = u64_mod - 1 } }
    else t'

-- `stop_sent` is the mark that keeps data away.
unfoldable pub stop_sending_create : StreamTable → Stream → ℕ → List ℕ × StreamTable
stop_sending_create t s errcode = (
  put_var frame_stop_sending ++ (put_var s.id ++ put_var errcode),
  write t (record s { recv = record s.recv { stop_sent = true } }),
)

-- The RESET_STREAM frame is queued already: the state, and what was to be sent.
unfoldable pub stop_send : FrameEnv → Conn → Stream → ℕ → Conn
stop_send env c s errcode =
    let c1 = record c { streams = reset_stream_marks c.streams s errcode } in
    let c2 =
      with_event env c1 event_stream_update
        (env.error_bytes s.id send_state_reset_sent errcode 0) in
    let s2 = record s {
      send = record s.send { errcode = errcode; state = send_state_reset_sent };
    } in
    record c2 {
      streams = write c2.streams s2;
      outq = purge_stream (purge_transmitted c2.outq s.id) s.id;
    }

-- The error code of the answer is a u32.
unfoldable pub answer_reset : FrameEnv → Conn → Stream → ℕ → ℕ → Processed Conn
answer_reset env c s errcode n =
    let sent =
      transmit_frame env c frame_reset_stream (some s.id) (reset_stream_bytes s errcode) 0 in
    elim sent.1 [ none ↦ took n (stop_send env sent.0 s errcode) | some e ↦ failed e 0 c ]

unfoldable pub stop_sending_process : FrameEnv → List ℕ → Conn → Processed Conn
stop_sending_process env p c = elim (get_var2 p) [
  | none ↦ failed einval 0 c
  | some (stream_id, errcode, rest) ↦
      elim (get c.streams stream_id false c.is_serv true env.stream_mem) [
        | err e ↦ stream_error e (used p rest) c
        | ok (t, s) ↦
            answer_reset env (record c { streams = t }) s (errcode % u32_mod) (used p rest)
      ]
]
