-- ===== src/Frame/Limits.antt =====
-- The frames of frame.c that raise what this side may send: MAX_DATA, MAX_STREAM_DATA and
-- MAX_STREAMS. `sk_write_space`, which wakes up a writer, is not modelled.
pub mod Agreement
use quic.Prelude.{
  ℕ, Bool, true, false, ltb, leb, ◌==◌, if◌then◌else◌, Option, none, some, List, [], ◌++◌,
}
use quic.Prelude.Result.{einval, enomem, Result, ok, err}
use quic.Codec.{put_var, get_var}
use quic.Stream.{Stream, StreamTable, id_to_streams, streams_to_id, write}
use quic.Stream.Ops.{get}
use quic.Frame.{
  Conn, FrameEnv, Processed, took, failed, used, get_var2, stream_error, with_event,
  error_frame_encoding, event_stream_max_data, event_stream_max_stream, frame_max_data,
  frame_max_stream_data, frame_max_streams_bidi, frame_max_streams_uni,
}

-- `QUIC_MAX_STREAMS_LIMIT`
abbrev pub max_streams_limit : ℕ
max_streams_limit = 0x1000_0000_0000_0000

-- The bytes of the frames.
unfoldable pub max_data_create : ℕ → List ℕ
max_data_create max_bytes = put_var frame_max_data ++ put_var max_bytes

unfoldable pub max_stream_data_create : Stream → List ℕ
max_stream_data_create s =
    put_var frame_max_stream_data ++ (put_var s.id ++ put_var s.recv.max_bytes)

unfoldable pub max_streams_uni_create : ℕ → List ℕ
max_streams_uni_create max = put_var frame_max_streams_uni ++ put_var max

unfoldable pub max_streams_bidi_create : ℕ → List ℕ
max_streams_bidi_create max = put_var frame_max_streams_bidi ++ put_var max

unfoldable pub max_data_process : List ℕ → Conn → Processed Conn
max_data_process p c = elim (get_var p) [
  | none ↦ failed einval 0 c
  | some (_, max_bytes, rest) ↦ took (used p rest) (
      if ltb c.credit.max_bytes max_bytes
      then record c { credit = record c.credit { max_bytes = max_bytes } }
      else c)
]

-- The stream's limit, and the event that tells the application.
unfoldable pub raise_stream : FrameEnv → Conn → Stream → ℕ → Conn
raise_stream env c s max_bytes =
    if ltb s.send.max_bytes max_bytes
    then with_event env
        (record c {
          streams = write c.streams (record s { send = record s.send { max_bytes = max_bytes } });
        })
        event_stream_max_data (env.max_data_bytes s.id max_bytes)
    else c

unfoldable pub max_stream_data_process : FrameEnv → List ℕ → Conn → Processed Conn
max_stream_data_process env p c = elim (get_var2 p) [
  | none ↦ failed einval 0 c
  | some (stream_id, max_bytes, rest) ↦
      elim (get c.streams stream_id false c.is_serv true env.stream_mem) [
        | err e ↦ stream_error e (used p rest) c
        | ok (t, s) ↦ took (used p rest) (raise_stream env (record c { streams = t }) s max_bytes)
      ]
]

abbrev pub uni_type : Bool → ℕ
uni_type is_serv = if is_serv then 3 else 2

abbrev pub bidi_type : Bool → ℕ
bidi_type is_serv = if is_serv then 1 else 0

unfoldable pub raise_uni : FrameEnv → Conn → ℕ → Conn
raise_uni env c max =
    let t = c.streams in
    let id = streams_to_id max (uni_type c.is_serv) in
    if leb max (id_to_streams t.send.max_uni_stream_id)
    then c
    else (let c' = with_event env c event_stream_max_stream (env.id_bytes id) in
        record c' { streams = record t { send = record t.send { max_uni_stream_id = id } } })

unfoldable pub raise_bidi : FrameEnv → Conn → ℕ → Conn
raise_bidi env c max =
    let t = c.streams in
    let id = streams_to_id max (bidi_type c.is_serv) in
    if leb max (id_to_streams t.send.max_bidi_stream_id)
    then c
    else (let c' = with_event env c event_stream_max_stream (env.id_bytes id) in
        record c' { streams = record t { send = record t.send { max_bidi_stream_id = id } } })

unfoldable pub max_streams_uni_process : FrameEnv → List ℕ → Conn → Processed Conn
max_streams_uni_process env p c = elim (get_var p) [
  | none ↦ failed einval 0 c
  | some (_, max, rest) ↦
      if ltb max_streams_limit max
      then failed einval error_frame_encoding c
      else took (used p rest) (raise_uni env c max)
]

unfoldable pub max_streams_bidi_process : FrameEnv → List ℕ → Conn → Processed Conn
max_streams_bidi_process env p c = elim (get_var p) [
  | none ↦ failed einval 0 c
  | some (_, max, rest) ↦
      if ltb max_streams_limit max
      then failed einval error_frame_encoding c
      else took (used p rest) (raise_bidi env c max)
]
