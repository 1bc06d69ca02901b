-- ===== src/Lib.antt =====
-- A model of the QUIC kernel implementation under modules/net/quic, with the theorems on it.
--
-- The program is a transport protocol in the Linux kernel: sockets hand data to queues, the queues
-- cut it into frames and packets, and the components modelled here keep the books for them. The
-- packet number space records which packets have arrived and what an ACK frame must report;
-- congestion control is told of packets sent, acknowledged and lost, and answers with the window,
-- the pacing time and the probe timeout; the stream table opens and releases streams within the
-- limits of the transport parameters; the connection ID sets hold the IDs that each side issued;
-- the receive queues put the data of streams and of the handshake in order, call the stream table
-- where a stream ends, and give the peer new credit; the send queues find what is lost,
-- put its frames back and tell congestion control; the search for the path's MTU runs on the
-- acknowledgements of its probes; and the wire format is read and written by the coding functions. The
-- frames of a packet that has arrived are processed one after the other, each by the functions of its
-- type, which call the receive queues, the stream table and the send queues; an ACK frame, written
-- from one endpoint's packet number space, takes packets out of the other's list of sent ones.
--
-- The files:
--   Prelude and its children: names of the libraries, Boolean tests, lists, words, error results.
--   Codec: the coding functions of modules/net/quic/common.c (`quic_get_var` is `get_var`, and so on)
--     on lists of bytes.
--   DataList: `quic_data_has`, `quic_data_match`, `quic_data_to_string` and `quic_data_from_string`
--     of the same file.
--   PnSpace: modules/net/quic/pnspace.c and pnspace.h. `struct quic_pnspace` is a record whose bitmap
--     is a list of Booleans; `quic_pnspace_mark` is composed of the steps of its body.
--   Cong: modules/net/quic/cong.c and cong.h. Types holds the state, Root the cube root, Cubic and Reno
--     the two algorithms, Ops the dispatch, the round-trip time and the pacing.
--   Stream: modules/net/quic/stream.c and stream.h; Ops and Limits hold the operations.
--   ConnId: modules/net/quic/connid.c and connid.h, without the table of all source IDs.
--   Inq: modules/net/quic/inqueue.c and inqueue.h. Streams holds `quic_inq_stream_recv`, Handshake
--     `quic_inq_handshake_recv`, Flow `quic_inq_flow_control`, Params the transport parameters. A
--     frame's buffer is the list of its bytes, so that a step that reads behind it has no result.
--   Outq: modules/net/quic/outqueue.c and outqueue.h. Loss holds `quic_outq_retransmit_mark`, which
--     drives congestion control and the packet number space; Timeouts the loss timer; Flow flow control.
--   Frame: modules/net/quic/frame.c and frame.h, on a record of the socket, `Conn`. Ack holds
--     `quic_frame_ack_create` and `quic_frame_ack_process`; Limits, Blocked, Streams and Other the
--     functions of the other types, each `quic_frame_<type>_process` as `<type>_process`; Writers the
--     rest of the functions `quic_frame_<type>_create`; Sack `quic_outq_transmitted_sack` of
--     outqueue.c with the functions `quic_frame_<type>_ack`; Dispatch the table of the types and the
--     loop `quic_frame_process`, as `packet_process`.
--   PathMtu: the part of modules/net/quic/path.c on `struct quic_path_group`'s `pl`.
--   The other children hold proofs, and each Runs holds tests and examples.
--
-- Numbers are natural numbers with the wrap-around of the source written out; an `s64` that is only
-- ever -1 or a packet number is an option, and the stream IDs are two's complement. Loops run on
-- fuel: the length of the input for the data lists, 32 rounds for the gap blocks, which the source
-- bounds itself, one more than the first estimate for the cube root, the number of IDs up to the
-- last for opening streams, and one round for each byte for the frames of a packet, since every frame
-- takes the byte of its type. An allocation that may fail, and the clock, are arguments.
--
-- Not modelled: sockets, packet headers, the transmission of frames, the addresses of paths, timers
-- and packet protection, which rest on the kernel's buffers, timers and ciphers; of the frames the
-- transport parameters, the appending to a STREAM frame, and NEW_TOKEN, NEW_CONNECTION_ID,
-- RETIRE_CONNECTION_ID, PATH_RESPONSE and HANDSHAKE_DONE, whose functions are an argument of the loop;
-- of an acknowledgement the confirmation of MTU probes, the marks for congestion of sent packets and
-- the time of key updates; functions that only free memory; locking and RCU; and the user-space
-- library, which calls a TLS library. The bitmap's storage in whole words and the reallocation of it
-- are the list's.
pub mod Prelude
pub mod Codec
pub mod DataList
pub mod PnSpace
pub mod Cong
pub mod Stream
pub mod ConnId
pub mod Inq
pub mod Outq
pub mod PathMtu
pub mod Frame
