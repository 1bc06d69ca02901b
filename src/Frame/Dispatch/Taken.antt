-- ===== src/Frame/Dispatch/Taken.antt =====
-- No function of a frame takes more bytes than are left of the packet.
use quic.Prelude.{ℕ, ◌≤◌, inl, inr, Option, List, length, arith, Option-cases}
use quic.Frame.{Conn, FrameEnv, Processed, took, failed, overrun, get_var2, stream_error}
use quic.Frame.{transmit_frame}
use quic.Frame.Streams.{
  stream_process, stream_data, stream_head, reset_stream_process, reset_stream,
  stop_sending_process, answer_reset,
}
use quic.Frame.Ack.{ack_process, ack_head, ack_end}
use quic.Frame.Sack.{transmitted_sack}
use quic.Frame.Dispatch.{
  Foreign, FrameOps, ops_of, run_ops, process_frame, padding_ops, ping_ops, ack_ops,
  reset_stream_ops, stop_sending_ops, crypto_ops, stream_ops, max_data_ops, max_stream_data_ops,
  max_streams_bidi_ops, max_streams_uni_ops, data_blocked_ops, stream_data_blocked_ops,
  streams_blocked_bidi_ops, streams_blocked_uni_ops, path_challenge_ops, connection_close_ops,
  datagram_ops, invalid_ops, argument_ops,
}
use quic.Frame.Limits.{
  max_data_process, max_stream_data_process, max_streams_uni_process, max_streams_bidi_process,
}
use quic.Frame.Blocked.{
  data_blocked_process, stream_data_blocked_process, streams_blocked_uni_process,
  streams_blocked_bidi_process, answer_max_data, answer_max_stream_data,
}
use quic.Frame.Other.{
  crypto_process, path_challenge_process, connection_close_process, datagram_process,
  invalid_process, close_head, dgram_head,
}
use quic.Frame.Dispatch.Lengths.{
  close_head-le, dgram_head-le, get_var2-le, padding_process-le, stream_head-le,
}

-- Where a function returns a number of bytes, there are as many.
abbrev pub Takes : ℕ → Processed Conn → Type 0
Takes left (took n c) = n ≤ left
Takes left (failed e code c) = Unit
Takes left overrun = Unit

max_data_process-Takes : (p : List ℕ) (c : Conn) → Takes (length p) (max_data_process p c)
unfolding max_data_process
max_data_process-Takes p c = ground arith

max_stream_data_process-Takes :
    (env : FrameEnv) (p : List ℕ) (c : Conn) → Takes (length p) (max_stream_data_process env p c)
unfolding max_stream_data_process stream_error
max_stream_data_process-Takes env p c = ground arith

max_streams_uni_process-Takes :
    (env : FrameEnv) (p : List ℕ) (c : Conn) → Takes (length p) (max_streams_uni_process env p c)
unfolding max_streams_uni_process
max_streams_uni_process-Takes env p c = ground arith

max_streams_bidi_process-Takes :
    (env : FrameEnv) (p : List ℕ) (c : Conn) → Takes (length p) (max_streams_bidi_process env p c)
unfolding max_streams_bidi_process
max_streams_bidi_process-Takes env p c = ground arith

data_blocked_process-Takes :
    (env : FrameEnv) (p : List ℕ) (c : Conn) → Takes (length p) (data_blocked_process env p c)
unfolding data_blocked_process answer_max_data transmit_frame
data_blocked_process-Takes env p c = ground arith

streams_blocked_uni_process-Takes :
    (env : FrameEnv) (p : List ℕ) (c : Conn)
    → Takes (length p) (streams_blocked_uni_process env p c)
unfolding streams_blocked_uni_process transmit_frame
streams_blocked_uni_process-Takes env p c = ground arith

streams_blocked_bidi_process-Takes :
    (env : FrameEnv) (p : List ℕ) (c : Conn)
    → Takes (length p) (streams_blocked_bidi_process env p c)
unfolding streams_blocked_bidi_process transmit_frame
streams_blocked_bidi_process-Takes env p c = ground arith

stream_data_blocked_process-Takes :
    (env : FrameEnv) (p : List ℕ) (c : Conn)
    → Takes (length p) (stream_data_blocked_process env p c)
unfolding stream_data_blocked_process answer_max_stream_data stream_error transmit_frame
stream_data_blocked_process-Takes env p c = ground arith

path_challenge_process-Takes :
    (env : FrameEnv) (p : List ℕ) (c : Conn) → Takes (length p) (path_challenge_process env p c)
unfolding path_challenge_process transmit_frame
path_challenge_process-Takes env p c = ground arith

reset_stream_process-Takes :
    (env : FrameEnv) (p : List ℕ) (c : Conn) → Takes (length p) (reset_stream_process env p c)
unfolding reset_stream_process reset_stream stream_error
reset_stream_process-Takes env p c = ground arith

stop_sending_process-Takes :
    (env : FrameEnv) (p : List ℕ) (c : Conn) → Takes (length p) (stop_sending_process env p c)
unfolding stop_sending_process answer_reset stream_error transmit_frame
stop_sending_process-Takes env p c = ground arith

stream_process-Takes :
    (env : FrameEnv) (level type : ℕ) (p : List ℕ) (c : Conn)
    → Takes (length p) (stream_process env level type p c)
unfolding stream_process stream_data stream_error
stream_process-Takes env level type p c = elim (Option-cases (stream_head type p)) [
  | inl e ↦ ground (arith, e)
  | inr (h, e) ↦ ground (arith, e, stream_head-le type p h e)
]

crypto_process-Takes :
    (env : FrameEnv) (level : ℕ) (p : List ℕ) (c : Conn)
    → Takes (length p) (crypto_process env level p c)
unfolding crypto_process
crypto_process-Takes env level p c = elim (Option-cases (get_var2 p)) [
  | inl e ↦ ground (arith, e)
  | inr ((offset, n, rest), e) ↦ ground (arith, e, get_var2-le p offset n rest e)
]

datagram_process-Takes :
    (env : FrameEnv) (type : ℕ) (p : List ℕ) (c : Conn)
    → Takes (length p) (datagram_process env type p c)
unfolding datagram_process
datagram_process-Takes env type p c = elim (Option-cases (dgram_head type p)) [
  | inl e ↦ ground (arith, e)
  | inr ((n, rest), e) ↦ ground (arith, e, dgram_head-le type p n rest e)
]

connection_close_process-Takes :
    (env : FrameEnv) (level type : ℕ) (p : List ℕ) (c : Conn)
    → Takes (length p) (connection_close_process env level type p c)
unfolding connection_close_process
connection_close_process-Takes env level type p c = elim (Option-cases (close_head level type p)) [
  | inl e ↦ ground (arith, e)
  | inr (h, e) ↦ ground (arith, e, close_head-le level type p h e)
]

ack_process-Takes :
    (sack : ℕ → ℕ → ℕ → Option ℕ → ℕ → Conn → Conn) (level type : ℕ) (p : List ℕ) (c : Conn)
    → Takes (length p) (ack_process sack level type p c)
unfolding ack_process ack_head ack_end
ack_process-Takes sack level type p c = ground arith

-- The functions that are arguments take no more than there is.
abbrev pub ForeignTakes : Foreign → Type 0
ForeignTakes fg =
    (level type : ℕ) (p : List ℕ) (c : Conn) → Takes (length p) (fg.process level type p c)

run_ops-Takes :
    (fg : Foreign) (env : FrameEnv) (o : FrameOps) (level type : ℕ) (p : List ℕ) (c : Conn)
    → ForeignTakes fg
    → Takes (length p) (run_ops fg env o level type p c)
unfolding run_ops invalid_process
run_ops-Takes fg env padding_ops level type p c takes = padding_process-le p
run_ops-Takes fg env ping_ops level type p c takes = omega arith
run_ops-Takes fg env ack_ops level type p c takes =
    ack_process-Takes (transmitted_sack fg.sacking) level type p c
run_ops-Takes fg env reset_stream_ops level type p c takes = reset_stream_process-Takes env p c
run_ops-Takes fg env stop_sending_ops level type p c takes = stop_sending_process-Takes env p c
run_ops-Takes fg env crypto_ops level type p c takes = crypto_process-Takes env level p c
run_ops-Takes fg env stream_ops level type p c takes = stream_process-Takes env level type p c
run_ops-Takes fg env max_data_ops level type p c takes = max_data_process-Takes p c
run_ops-Takes fg env max_stream_data_ops level type p c takes =
    max_stream_data_process-Takes env p c
run_ops-Takes fg env max_streams_bidi_ops level type p c takes =
    max_streams_bidi_process-Takes env p c
run_ops-Takes fg env max_streams_uni_ops level type p c takes =
    max_streams_uni_process-Takes env p c
run_ops-Takes fg env data_blocked_ops level type p c takes = data_blocked_process-Takes env p c
run_ops-Takes fg env stream_data_blocked_ops level type p c takes =
    stream_data_blocked_process-Takes env p c
run_ops-Takes fg env streams_blocked_bidi_ops level type p c takes =
    streams_blocked_bidi_process-Takes env p c
run_ops-Takes fg env streams_blocked_uni_ops level type p c takes =
    streams_blocked_uni_process-Takes env p c
run_ops-Takes fg env path_challenge_ops level type p c takes = path_challenge_process-Takes env p c
run_ops-Takes fg env connection_close_ops level type p c takes =
    connection_close_process-Takes env level type p c
run_ops-Takes fg env datagram_ops level type p c takes = datagram_process-Takes env type p c
run_ops-Takes fg env invalid_ops level type p c takes = tt
run_ops-Takes fg env argument_ops level type p c takes = takes level type p c

pub process_frame-Takes :
    (fg : Foreign) (env : FrameEnv) (level type : ℕ) (p : List ℕ) (c : Conn)
    → ForeignTakes fg
    → Takes (length p) (process_frame fg env level type p c)
unfolding process_frame
process_frame-Takes fg env level type p c takes =
    run_ops-Takes fg env (ops_of type).0 level type p c takes
