-- ===== src/Frame.antt =====
-- modules/net/quic/frame.c and frame.h: the frames of a packet. What a frame's functions reach by
-- the socket is one record `Conn`; `p` and `len` of a parser are the list of the bytes that are
-- left, and a writer's result is the list of the bytes it stores.
pub mod Ack
pub mod Limits
pub mod Blocked
pub mod Streams
pub mod Other
pub mod Sack
pub mod Writers
pub mod Dispatch
mod Samples
mod Runs
use quic.Prelude.{
  ℕ, ◌-◌, ◌%◌, Bool, true, false, not, ◌&&◌, ◌||◌, ltb, leb, ◌==◌, if◌then◌else◌, Option, none,
  some, List, [], ◌∷◌, ◌++◌, length,
}
use quic.Prelude.Words.{u16_mod}
use quic.Prelude.Result.{Errno, enostr, eagain, enomem}
use quic.Codec.{get_var}
use quic.Stream.{StreamTable}
use quic.Inq.{Inq, Env, event_recv}
use quic.Inq.Handshake.{CryptoRx}
use quic.Outq.{Outq, TxFrame, other_kind, reset_stream_kind, ctrl_tail}
use quic.Outq.Flow.{Credit}
use quic.PnSpace.{PnSpace}
use quic.Cong.Types.{Cong}

-- The socket. `credit` holds the flow control of the send queue, `spaces` is by level, and
-- `ack_delay_exponent` and `max_datagram_frame_size` are the receive queue's; `crypto` is by level.
pub record Conn : Type 0 where
  pub is_serv : Bool
  pub streams : StreamTable
  pub inq : Inq
  pub outq : Outq
  pub credit : Credit
  pub spaces : ℕ → PnSpace
  pub cong : Cong
  pub ack_delay_exponent : ℕ
  pub max_datagram_frame_size : ℕ
  pub close_errcode : ℕ
  pub close_frame : ℕ
  pub close_phrase : List ℕ
  pub closed : Bool
  pub crypto : ℕ → CryptoRx
  pub ticket : List ℕ
  pub token_pending : Bool

-- What a frame's function returns: the number of bytes it took, or an error with the frame's
-- `errcode`; and the socket, which an error leaves changed too. `overrun` is no return: that of
-- `quic_inq_stream_recv`.
pub data Processed {ℓ} (S : Type ℓ) : Type ℓ where
  took : ℕ → S → Processed S
  failed : Errno → ℕ → S → Processed S
  overrun : Processed S

-- `frame->len - len`
abbrev pub used : List ℕ → List ℕ → ℕ
used p rest = length p - length rest

abbrev pub with_space : Conn → ℕ → PnSpace → Conn
with_space c level s = record c { spaces = λ l. if l == level then s else c.spaces l }

abbrev pub frame_ack : ℕ
frame_ack = 2

abbrev pub frame_ack_ecn : ℕ
frame_ack_ecn = 3

abbrev pub error_protocol_violation : ℕ
error_protocol_violation = 10

abbrev pub frame_reset_stream : ℕ
frame_reset_stream = 0x04

abbrev pub frame_max_data : ℕ
frame_max_data = 0x10

abbrev pub frame_max_stream_data : ℕ
frame_max_stream_data = 0x11

abbrev pub frame_max_streams_bidi : ℕ
frame_max_streams_bidi = 0x12

abbrev pub frame_max_streams_uni : ℕ
frame_max_streams_uni = 0x13

abbrev pub frame_path_response : ℕ
frame_path_response = 0x1b

abbrev pub error_stream_limit : ℕ
error_stream_limit = 4

abbrev pub error_stream_state : ℕ
error_stream_state = 5

abbrev pub error_frame_encoding : ℕ
error_frame_encoding = 7

abbrev pub event_stream_max_data : ℕ
event_stream_max_data = 2

abbrev pub event_stream_max_stream : ℕ
event_stream_max_stream = 3

abbrev pub event_connection_close : ℕ
event_connection_close = 5

-- What one frame finds around it. `rx` is the receive queue's environment; `stream_mem` tells of the
-- allocations of streams, `nframe_mem` of that of the frame that takes over received data, and
-- `tx_frame` is the address of the frame that is created for an answer, or `none`; `phrase_mem` is
-- the copy of a close phrase, `append_mem` the growth of the ticket's buffer, `path` is the frame's
-- path, and `pressure` is `sk_under_memory_pressure`. The others are structures
-- in memory: `struct quic_stream_update` with an error, `struct quic_stream_max_data`, an ID, and
-- `struct quic_connection_close`.
pub record FrameEnv : Type 0 where
  pub rx : Env
  pub stream_mem : ℕ → Bool
  pub nframe_mem : Bool
  pub tx_frame : Option ℕ
  pub phrase_mem : Bool
  pub append_mem : ℕ → Bool
  pub path : ℕ
  pub pressure : Bool
  pub error_bytes : ℕ → ℕ → ℕ → ℕ → List ℕ
  pub max_data_bytes : ℕ → ℕ → List ℕ
  pub id_bytes : ℕ → List ℕ
  pub close_bytes : ℕ → ℕ → List ℕ → List ℕ

abbrev pub with_event : FrameEnv → Conn → ℕ → List ℕ → Conn
with_event env c event payload = record c { inq = (event_recv env.rx c.inq event payload).0 }

-- Two numbers in a row.
unfoldable pub get_var2 : List ℕ → Option (ℕ × ℕ × List ℕ)
get_var2 p = elim (get_var p) [
  | none ↦ none
  | some (_, a, p1) ↦ elim (get_var p1) [ none ↦ none | some (_, b, p2) ↦ some (a, b, p2) ]
]

-- A stream that is gone is no error.
unfoldable pub stream_error : Errno → ℕ → Conn → Processed Conn
stream_error enostr n c = took n c
stream_error eagain n c = failed eagain error_stream_limit c
stream_error e n c = failed e error_stream_state c

-- The frame as `quic_frame_alloc` and `quic_frame_create` leave it, at an address.
abbrev pub new_frame : ℕ → ℕ → Option ℕ → List ℕ → TxFrame
new_frame address type stream content = record {
  id = address;
  stream = stream;
  kind = if type == frame_reset_stream then reset_stream_kind else other_kind;
  level = 0;
  number = none;
  bytes = 0;
  len = length content % u16_mod;
  ack_eliciting = not (type == frame_path_response);
  transmitted = false;
  path = 0;
  content = content;
}

-- An answer is queued, and not transmitted yet; the types are those of the answers in frame.c.
unfoldable pub transmit_frame : FrameEnv → Conn → ℕ → Option ℕ → List ℕ → ℕ → Conn × Option Errno
transmit_frame env c type stream content path = elim env.tx_frame [
  | none ↦ (c, some enomem)
  | some address ↦ (
    record c {
      outq = ctrl_tail c.outq (record (new_frame address type stream content) { path = path });
    },
    none,
  )
]
