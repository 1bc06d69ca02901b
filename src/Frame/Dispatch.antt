-- ===== src/Frame/Dispatch.antt =====
-- `quic_frame_process`: the loop over the frames of a packet, and the table of their functions. Those
-- of NEW_TOKEN, NEW_CONNECTION_ID, RETIRE_CONNECTION_ID, PATH_RESPONSE and HANDSHAKE_DONE are one
-- argument.
mod Lengths
mod Taken
pub mod Loop
use quic.Prelude.{
  ℕ, zero, suc, ◌+◌, ◌-◌, ◌%◌, Bool, true, false, not, ◌&&◌, ◌||◌, ltb, leb, ◌==◌, if◌then◌else◌,
  Option, none, some, List, [], ◌∷◌, length, drop, get_or,
}
use quic.Prelude.Result.{Errno, einval, eprotonosupport}
use quic.Frame.{
  Conn, FrameEnv, Processed, took, failed, overrun, error_protocol_violation, error_frame_encoding,
}
use quic.Frame.Ack.{ack_process}
use quic.Frame.Sack.{SackEnv, transmitted_sack}
use quic.Frame.Limits.{
  max_data_process, max_stream_data_process, max_streams_uni_process, max_streams_bidi_process,
}
use quic.Frame.Blocked.{
  data_blocked_process, stream_data_blocked_process, streams_blocked_uni_process,
  streams_blocked_bidi_process,
}
use quic.Frame.Streams.{stream_process, reset_stream_process, stop_sending_process}
use quic.Frame.Other.{
  padding_process, crypto_process, path_challenge_process, connection_close_process,
  datagram_process, invalid_process,
}

abbrev pub frame_max : ℕ
frame_max = 0x31

-- `level` is 0 for the application, and 3 for early data.
unfoldable pub level_valid : ℕ → ℕ → Bool
level_valid level type =
    if level == 0
    then true
    else if level == 3
    then not (
        (type == 2)
        || (type == 3)
        || (type == 6)
        || (type == 0x1e)
        || (type == 7)
        || (type == 0x1b))
    else (type == 2) || (type == 3) || (type == 0) || (type == 1) || (type == 6) || (type == 0x1c)

abbrev pub is_stream_type : ℕ → Bool
is_stream_type type = leb 8 type && ltb type 0x10

-- The functions of the frames, by the names that the source gives them.
pub data FrameOps : Type 0 where
  padding_ops ping_ops ack_ops reset_stream_ops stop_sending_ops crypto_ops : FrameOps
  stream_ops max_data_ops max_stream_data_ops max_streams_bidi_ops : FrameOps
  max_streams_uni_ops data_blocked_ops stream_data_blocked_ops : FrameOps
  streams_blocked_bidi_ops streams_blocked_uni_ops path_challenge_ops : FrameOps
  connection_close_ops datagram_ops invalid_ops argument_ops : FrameOps

-- `quic_frame_ops`: each with whether it elicits an acknowledgement.
abbrev pub frame_ops : List (FrameOps × Bool)
frame_ops =
    (padding_ops, false)
    ∷ (ping_ops, true)
    ∷ (ack_ops, false)
    ∷ (ack_ops, false)
    ∷ (reset_stream_ops, true)
    ∷ (stop_sending_ops, true)
    ∷ (crypto_ops, true)
    ∷ (argument_ops, true)
    ∷ (stream_ops, true)
    ∷ (stream_ops, true)
    ∷ (stream_ops, true)
    ∷ (stream_ops, true)
    ∷ (stream_ops, true)
    ∷ (stream_ops, true)
    ∷ (stream_ops, true)
    ∷ (stream_ops, true)
    ∷ (max_data_ops, true)
    ∷ (max_stream_data_ops, true)
    ∷ (max_streams_bidi_ops, true)
    ∷ (max_streams_uni_ops, true)
    ∷ (data_blocked_ops, true)
    ∷ (stream_data_blocked_ops, true)
    ∷ (streams_blocked_bidi_ops, true)
    ∷ (streams_blocked_uni_ops, true)
    ∷ (argument_ops, true)
    ∷ (argument_ops, true)
    ∷ (path_challenge_ops, false)
    ∷ (argument_ops, false)
    ∷ (connection_close_ops, false)
    ∷ (connection_close_ops, false)
    ∷ (argument_ops, true)
    ∷ []

-- From 0x1f to 0x2f there are none; the last two are DATAGRAM.
unfoldable pub ops_of : ℕ → FrameOps × Bool
ops_of type =
    if leb 0x30 type then (datagram_ops, true) else get_or frame_ops type (invalid_ops, false)

-- The fields of `struct quic_packet` that the loop sets.
pub record PacketRx : Type 0 where
  pub errcode : ℕ
  pub errframe : ℕ
  pub ack_requested : Bool
  pub ack_immediate : Bool
  pub non_probing : Bool
  pub has_sack : Bool

-- What a frame that was processed marks the packet with.
unfoldable pub mark_packet : ℕ → PacketRx → PacketRx
mark_packet type k =
    let eliciting = (ops_of type).1 in
    let immediate = not (type == 6) && (not (is_stream_type type) || not (type % 2 == 0)) in
    record k {
      ack_requested = k.ack_requested || eliciting;
      ack_immediate = k.ack_immediate || (eliciting && immediate);
      non_probing = k.non_probing || (eliciting && not (type == 0x18));
      has_sack = k.has_sack || (type == 2) || (type == 3);
    }

-- `stopped` has the error that is returned. The others are no return: `overran` is that of
-- `quic_inq_stream_recv`, and in `wrapped` a frame's function took more than was left, so that
-- `frame->len` wraps around.
pub data Verdict : Type 0 where
  finished : PacketRx → Conn → Verdict
  stopped : Errno → PacketRx → Conn → Verdict
  overran wrapped out_of_fuel : Verdict

-- What acknowledging finds around it, and the frames' functions that are arguments.
pub record Foreign : Type 0 where
  pub sacking : SackEnv
  pub process : ℕ → ℕ → List ℕ → Conn → Processed Conn

unfoldable pub run_ops : Foreign → FrameEnv → FrameOps → ℕ → ℕ → List ℕ → Conn → Processed Conn
run_ops fg env padding_ops level type p c = took (padding_process p) c
run_ops fg env ping_ops level type p c = took 0 c
run_ops fg env ack_ops level type p c = ack_process (transmitted_sack fg.sacking) level type p c
run_ops fg env reset_stream_ops level type p c = reset_stream_process env p c
run_ops fg env stop_sending_ops level type p c = stop_sending_process env p c
run_ops fg env crypto_ops level type p c = crypto_process env level p c
run_ops fg env stream_ops level type p c = stream_process env level type p c
run_ops fg env max_data_ops level type p c = max_data_process p c
run_ops fg env max_stream_data_ops level type p c = max_stream_data_process env p c
run_ops fg env max_streams_bidi_ops level type p c = max_streams_bidi_process env p c
run_ops fg env max_streams_uni_ops level type p c = max_streams_uni_process env p c
run_ops fg env data_blocked_ops level type p c = data_blocked_process env p c
run_ops fg env stream_data_blocked_ops level type p c = stream_data_blocked_process env p c
run_ops fg env streams_blocked_bidi_ops level type p c = streams_blocked_bidi_process env p c
run_ops fg env streams_blocked_uni_ops level type p c = streams_blocked_uni_process env p c
run_ops fg env path_challenge_ops level type p c = path_challenge_process env p c
run_ops fg env connection_close_ops level type p c = connection_close_process env level type p c
run_ops fg env datagram_ops level type p c = datagram_process env type p c
run_ops fg env invalid_ops level type p c = invalid_process c
run_ops fg env argument_ops level type p c = fg.process level type p c

unfoldable pub process_frame : Foreign → FrameEnv → ℕ → ℕ → List ℕ → Conn → Processed Conn
unfolding run_ops
process_frame fg env level type p c = run_ops fg env (ops_of type).0 level type p c

-- Behind one frame: the rest of the packet, or the error.
abbrev pub go_on : ℕ → ℕ → PacketRx → (ℕ → Conn → Verdict) → Processed Conn → Verdict
go_on type left k next (took n c) = if ltb left n then wrapped else next n c
go_on type left k next (failed e code c) =
    stopped e (record k { errframe = type; errcode = code }) c
go_on type left k next overrun = overran

-- `i` counts the frames, each of which has its own surroundings.
unfoldable pub process_loop :
    Foreign → (ℕ → FrameEnv) → ℕ → ℕ → ℕ → List ℕ → PacketRx → Conn → Verdict
process_loop fg env level fuel i [] k c = finished k c
process_loop fg env level zero i (type ∷ p) k c = out_of_fuel
process_loop fg env level (suc fuel) i (type ∷ p) k c =
    if ltb frame_max type
    then stopped eprotonosupport (record k { errcode = error_frame_encoding }) c
    else if not (level_valid level type)
    then stopped einval k c
    else go_on type (length p) k
        (λ n c'. process_loop fg env level fuel (i + 1) (drop n p) (mark_packet type k) c')
        (process_frame fg (env i) level type p c)

-- One round for every byte is enough.
unfoldable pub packet_process : Foreign → (ℕ → FrameEnv) → ℕ → List ℕ → PacketRx → Conn → Verdict
packet_process fg env level p k c =
    if length p == 0
    then stopped einval (record k { errcode = error_protocol_violation }) c
    else process_loop fg env level (length p) 0 p k c
