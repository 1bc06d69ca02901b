-- ===== src/Frame/Blocked.antt =====
-- The frames of frame.c by which a peer tells that it is blocked: DATA_BLOCKED, STREAM_DATA_BLOCKED
-- and STREAMS_BLOCKED. Each is answered with the limit.
pub mod Answers
use quic.Prelude.{
  ℕ, ◌/◌, ◌%◌, Bool, true, false, ltb, leb, if◌then◌else◌, Option, none, some, List, ◌++◌,
}
use quic.Prelude.Words.{u32_mod, add64}
use quic.Prelude.Result.{Errno, einval, Result, ok, err}
use quic.Codec.{put_var, get_var}
use quic.Stream.{Stream, StreamTable, id_to_streams, write, recv_state_recvd}
use quic.Stream.Ops.{get}
use quic.Frame.{
  Conn, FrameEnv, Processed, took, failed, used, get_var2, stream_error, transmit_frame,
  frame_max_data, frame_max_stream_data, frame_max_streams_bidi, frame_max_streams_uni,
}
use quic.Frame.Limits.{
  max_data_create, max_stream_data_create, max_streams_uni_create, max_streams_bidi_create,
}

abbrev pub frame_data_blocked : ℕ
frame_data_blocked = 0x14

abbrev pub frame_stream_data_blocked : ℕ
frame_stream_data_blocked = 0x15

abbrev pub frame_streams_blocked_bidi : ℕ
frame_streams_blocked_bidi = 0x16

abbrev pub frame_streams_blocked_uni : ℕ
frame_streams_blocked_uni = 0x17

unfoldable pub data_blocked_create : Conn → List ℕ
data_blocked_create c = put_var frame_data_blocked ++ put_var c.credit.max_bytes

unfoldable pub stream_data_blocked_create : Stream → List ℕ
stream_data_blocked_create s =
    put_var frame_stream_data_blocked ++ (put_var s.id ++ put_var s.send.max_bytes)

-- The bytes, and the table in which the stream type is marked as blocked.
unfoldable pub streams_blocked_uni_create : StreamTable → ℕ → List ℕ × StreamTable
streams_blocked_uni_create t id = (
  put_var frame_streams_blocked_uni ++ put_var (id_to_streams id),
  record t { send = record t.send { uni_blocked = true } },
)

unfoldable pub streams_blocked_bidi_create : StreamTable → ℕ → List ℕ × StreamTable
streams_blocked_bidi_create t id = (
  put_var frame_streams_blocked_bidi ++ put_var (id_to_streams id),
  record t { send = record t.send { bidi_blocked = true } },
)

abbrev pub halved : FrameEnv → ℕ → ℕ
halved env window = if env.pressure then window / 2 else window

-- What is returned behind an answer; `undo` is what is done where it could not be queued.
abbrev pub answered : ℕ → (Conn → Conn) → Conn × Option Errno → Processed Conn
answered n undo (c, none) = took n c
answered n undo (c, some e) = failed e 0 (undo c)

abbrev pub with_max_bytes : Conn → ℕ → Conn
with_max_bytes c max_bytes = record c { inq = record c.inq { max_bytes = max_bytes } }

unfoldable pub answer_max_data : FrameEnv → Conn → ℕ → Processed Conn
answer_max_data env c n =
    let max_bytes = add64 c.inq.bytes (halved env c.inq.max_data) in
    answered n (λ c'. with_max_bytes c' c.inq.max_bytes)
      (transmit_frame env (with_max_bytes c max_bytes) frame_max_data none
        (max_data_create max_bytes) 0)

unfoldable pub data_blocked_process : FrameEnv → List ℕ → Conn → Processed Conn
data_blocked_process env p c = elim (get_var p) [
  | none ↦ failed einval 0 c
  | some (_, max_bytes, rest) ↦ answer_max_data env c (used p rest)
]

abbrev pub with_recv_max : Stream → ℕ → Stream
with_recv_max s max_bytes = record s { recv = record s.recv { max_bytes = max_bytes } }

unfoldable pub answer_max_stream_data : FrameEnv → Conn → Stream → ℕ → Processed Conn
answer_max_stream_data env c s n =
    let s' = with_recv_max s (add64 s.recv.bytes (halved env (s.recv.window % u32_mod))) in
    answered n (λ c'. record c' { streams = write c'.streams s })
      (transmit_frame env (record c { streams = write c.streams s' }) frame_max_stream_data none
        (max_stream_data_create s') 0)

-- A stream of which all has arrived, or that was reset, is passed over.
unfoldable pub stream_data_blocked_process : FrameEnv → List ℕ → Conn → Processed Conn
stream_data_blocked_process env p c = elim (get_var2 p) [
  | none ↦ failed einval 0 c
  | some (stream_id, max_bytes, rest) ↦
      elim (get c.streams stream_id false c.is_serv false env.stream_mem) [
        | err e ↦ stream_error e (used p rest) c
        | ok (t, s) ↦
            let c' = record c { streams = t } in
            if leb recv_state_recvd s.recv.state
            then took (used p rest) c'
            else answer_max_stream_data env c' s (used p rest)
      ]
]

unfoldable pub streams_blocked_uni_process : FrameEnv → List ℕ → Conn → Processed Conn
streams_blocked_uni_process env p c = elim (get_var p) [
  | none ↦ failed einval 0 c
  | some (_, max, rest) ↦
      let limit = id_to_streams c.streams.recv.max_uni_stream_id in
      if ltb limit max
      then took (used p rest) c
      else answered (used p rest) (λ c'. c')
          (transmit_frame env c frame_max_streams_uni none (max_streams_uni_create limit) 0)
]

unfoldable pub streams_blocked_bidi_process : FrameEnv → List ℕ → Conn → Processed Conn
streams_blocked_bidi_process env p c = elim (get_var p) [
  | none ↦ failed einval 0 c
  | some (_, max, rest) ↦
      let limit = id_to_streams c.streams.recv.max_bidi_stream_id in
      if ltb limit max
      then took (used p rest) c
      else answered (used p rest) (λ c'. c')
          (transmit_frame env c frame_max_streams_bidi none (max_streams_bidi_create limit) 0)
]
