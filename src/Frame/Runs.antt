-- ===== src/Frame/Runs.antt =====
-- Runs of the frames' functions between a client and a server, and the theorems applied to them.
use mathlib.Core.List.{Memᴰ}
use quic.Prelude.{
  ℕ, zero, suc, ◌+◌, ◌%◌, ◌/◌, ◌^◌, ◌<◌, ◌≡◌, ◌≢◌, refl, ap, true, false, leb, some, List, [], ◌∷◌,
  ◌++◌, if◌then◌else◌, All, length, arith, max,
}
use quic.Prelude.Words.{u32_mod, mul64, sub64}
use quic.Prelude.Result.{ok, einval}
use quic.Codec.{put_var, get_var, be_value}
use quic.PnSpace.{
  pnspace_check, pnspace_mark, test_bit, num_gabs, num_gabs_loop, next_gap_ack, find_next, span,
  has_gap, set_base_pn, mark_from, mark_gap, u16_diff, mark_bit, mark_rest, note_max, mark_window,
  window_due,
}
use quic.PnSpace.Invariant.{IsValid, seen}
use quic.PnSpace.History.{Received, first, next}
use quic.Stream.{find, id_to_streams, id_valid}
use quic.Stream.Ops.{get}
use quic.Outq.{TxFrame, PacketSent, ctrl_tail}
use quic.Outq.Loss.Inflight.{IsAccounted, sent_bytes, level_bytes}
use quic.Outq.Loss.Found.{IsInOrder}
use quic.Frame.{Conn, took, get_var2}
use quic.Frame.Samples.{
  space_new, space_4, space_6, client, server, env0, sack0, rx0, sent_stream, read_stream,
}
use quic.Frame.Ack.{ack_body, ack_type, ack_process}
use quic.Frame.Ack.RoundTrip.{ack_ranges, sack_ranges, with_marks, ack_process-ack_body}
use quic.Frame.Ack.Safety.{IsAcked, seen-ack_ranges}
use quic.Frame.Ack.Delivery.{OnlyReceived, ack_process-Received}
use quic.Frame.Sack.{transmitted_sack}
use quic.Frame.Sack.Inflight.{sending_of, transmitted_sack-IsAccounted}
use quic.Frame.Sack.Exact.{IsSacked, transmitted_sack-IsSacked}
use quic.Inq.Streams.{stream_recv}
use quic.Inq.Streams.Memory.{total}
use quic.Inq.Streams.Charges.{IsCharged}
use quic.Frame.Limits.{
  max_data_process, max_streams_uni_create, max_streams_bidi_create, max_streams_uni_process,
  max_streams_bidi_process,
}
use quic.Frame.Limits.Agreement.{max_streams_process-create, with_uni_limit, with_bidi_limit}
use quic.Frame.Blocked.{data_blocked_process, with_max_bytes}
use quic.Frame.Blocked.Answers.{data_blocked-max_data}
use quic.Frame.Streams.{
  stream_process, stream_type, stream_header, received, reset_head, ResetHead, reset_stream_process,
}
use quic.Frame.Streams.RoundTrip.{arriving, stream_process-stream_header}
use quic.Frame.Writers.{c_string, close_body}
use quic.Frame.Writers.Close.{connection_close_process-create}
use quic.Frame.Other.{connection_close_process}
use quic.Frame.Streams.Reset.{SettlesAfter, reset_stream_process-Settles}
use quic.Frame.Dispatch.{
  Foreign, PacketRx, packet_process, process_loop, level_valid, stopped, out_of_fuel, wrapped,
}
use quic.Frame.Dispatch.Loop.{packet_process-Returns}

zeros : (i : ℕ) → test_bit space_new.pn_map i ≡ false
unfolding test_bit
zeros zero = refl
zeros (suc zero) = refl
zeros (suc (suc zero)) = refl
zeros (suc (suc (suc zero))) = refl
zeros (suc (suc (suc (suc i)))) = refl

Received-4 : Received (4 ∷ []) space_4
unfolding pnspace_mark set_base_pn
Received-4 = first space_new space_4 4 refl (omega arith) (omega arith) zeros refl

Received-6 : Received (6 ∷ 4 ∷ []) space_6
unfolding pnspace_mark pnspace_check test_bit mark_from mark_gap u16_diff mark_bit mark_rest
    note_max mark_window window_due
Received-6 = next (4 ∷ []) space_4 space_6 6 Received-4 refl refl

space_6_clear : (i : ℕ) → 6 < 5 + i → test_bit space_6.pn_map i ≡ false
unfolding test_bit
space_6_clear zero h = refl
space_6_clear (suc zero) h = absurd (omega arith)
space_6_clear (suc (suc zero)) h = refl
space_6_clear (suc (suc (suc zero))) h = refl
space_6_clear (suc (suc (suc (suc i)))) h = refl

space_6-IsValid : IsValid space_6 5
unfolding test_bit
space_6-IsValid = record {
  based = refl;
  fits = omega arith;
  reach = omega arith;
  top = omega arith;
  clear = space_6_clear;
  first = refl;
  last = omega arith;
}

space_6_gaps : length (num_gabs space_6) ≡ 1
unfolding num_gabs num_gabs_loop next_gap_ack has_gap span find_next
space_6_gaps = refl

space_6-seen : seen space_6 6 ≡ true
unfolding seen test_bit
space_6-seen = refl

ack_process-ack_body_example :
    ack_process (transmitted_sack sack0) 0 (ack_type space_6) (ack_body space_6 3 60 ++ []) client
    ≡ took (length (ack_body space_6 3 60)) (
        with_marks
          (sack_ranges
            (transmitted_sack sack0)
            0
            (mul64 (sub64 60 20 / 2 ^ 3) (2 ^ 3) % u32_mod)
            (ack_ranges space_6 5)
            client)
          0
          space_6)
ack_process-ack_body_example =
    ack_process-ack_body (transmitted_sack sack0) space_6 5 0 3 60 space_6-IsValid (omega arith)
      (omega arith) (omega arith, omega arith, omega arith) (omega arith) client [] (omega arith)

seen-ack_ranges_example : IsAcked 6 (ack_ranges space_6 5)
seen-ack_ranges_example =
    seen-ack_ranges space_6 5 6 space_6-IsValid (omega (arith, space_6_gaps)) (omega arith)
      (omega arith) (omega arith) space_6-seen

ack_process-Received_example :
    (c' : Conn) × (ack_process
        (transmitted_sack sack0)
        0
        (ack_type space_6)
        (ack_body space_6 3 60 ++ [])
        client
      ≡ took (length (ack_body space_6 3 60)) c')
    × OnlyReceived (6 ∷ 4 ∷ []) 0 client c'
ack_process-Received_example =
    ack_process-Received sack0 0 3 60 (6 ∷ 4 ∷ []) space_6 client [] Received-6 (omega arith)
      (omega arith, omega arith, omega arith) (omega arith) (omega arith)

client-IsAccounted : IsAccounted 0 (sending_of 0 client)
unfolding sent_bytes level_bytes
client-IsAccounted = record {
  all = refl;
  mine = refl;
  word = omega arith;
  space_word = omega arith;
}

transmitted_sack-IsAccounted_example :
    IsAccounted 0 (sending_of 0 (transmitted_sack sack0 0 6 5 (some 6) 80 client))
transmitted_sack-IsAccounted_example =
    transmitted_sack-IsAccounted sack0 0 6 5 (some 6) 80 client client-IsAccounted

client-IsInOrder : IsInOrder client.outq.packet_sent_list
client-IsInOrder = ground arith

transmitted_sack-IsSacked_example :
    let left = (transmitted_sack sack0 0 6 5 (some 6) 80 client).outq.packet_sent_list in
    All (λ p. ¬ IsSacked 0 6 5 p) left
    × ((q : PacketSent) → Memᴰ q client.outq.packet_sent_list → ¬ IsSacked 0 6 5 q → Memᴰ q left)
transmitted_sack-IsSacked_example =
    transmitted_sack-IsSacked sack0 0 6 5 (some 6) 80 client client-IsInOrder

max_streams_process-create_example :
    (38 % 4 ≡ 2
      → (body : List ℕ) × (c' : Conn) × (max_streams_uni_create (id_to_streams 38) ≡ 0x13 ∷ body)
        × (max_streams_uni_process env0 (body ++ []) client ≡ took (length body) c')
        × (c'.streams ≡ (
            if leb (id_to_streams 38) (id_to_streams 14)
            then client.streams
            else with_uni_limit client.streams 38)))
    × (38 % 4 ≡ 0
        → (body : List ℕ) × (c' : Conn) × (max_streams_bidi_create (id_to_streams 38) ≡ 0x12 ∷ body)
          × (max_streams_bidi_process env0 (body ++ []) client ≡ took (length body) c')
          × (c'.streams ≡ (
              if leb (id_to_streams 38) (id_to_streams 12)
              then client.streams
              else with_bidi_limit client.streams 38)))
max_streams_process-create_example = max_streams_process-create env0 client 38 (omega arith) []

data_blocked-max_data_example :
    (f : TxFrame) × (body : List ℕ) × (data_blocked_process env0 (put_var 100 ++ []) server
      ≡ took
          (length (put_var 100))
          (record (with_max_bytes server 200) { outq = ctrl_tail server.outq f }))
    × (f.content ≡ 0x10 ∷ body)
    × (max_data_process (body ++ []) client
        ≡ took
            (length body)
            (record client { credit = record client.credit { max_bytes = max 100 200 } }))
data_blocked-max_data_example =
    data_blocked-max_data env0 server client 100 77 [] [] refl (omega arith) (omega arith)

get_2 : get server.streams 2 false true false env0.stream_mem ≡ ok (server.streams, read_stream)
unfolding get id_valid find
get_2 = refl

stream_process-stream_header_example :
    stream_process env0 0
      (stream_type sent_stream true)
      (stream_header sent_stream 3 ++ ((2 ∷ 3 ∷ 4 ∷ []) ++ []))
      server
    ≡ received (length (stream_header sent_stream 3) + 3) server (
        stream_recv rx0 true
          (record { inq = server.inq; table = server.streams; stream = read_stream })
          (arriving 2 sent_stream true 0 (2 ∷ 3 ∷ 4 ∷ [])))
stream_process-stream_header_example =
    stream_process-stream_header env0 server server.streams sent_stream read_stream 0 true
      (2 ∷ 3 ∷ 4 ∷ []) [] (omega arith) (omega arith) (omega arith) get_2 refl refl

abbrev reset_2 : ResetHead
reset_2 = record { stream_id = 2; errcode = 9; finalsz = 20; rest = [] }

reset_2_read : reset_head (2 ∷ 9 ∷ 20 ∷ []) ≡ some reset_2
unfolding reset_head get_var get_var2 be_value
reset_2_read = refl

server-IsCharged : IsCharged server.inq
unfolding total
server-IsCharged = refl

reset_stream_process-Settles_example :
    SettlesAfter read_stream reset_2
      (record server { streams = server.streams })
      (reset_stream_process env0 (2 ∷ 9 ∷ 20 ∷ []) server)
reset_stream_process-Settles_example =
    reset_stream_process-Settles env0 (2 ∷ 9 ∷ 20 ∷ []) server reset_2 server.streams read_stream
      server-IsCharged reset_2_read get_2

abbrev foreign : Foreign
foreign = record { sacking = sack0; process = λ level type p c. took 0 c }

abbrev quiet : PacketRx
quiet = record {
  errcode = 0;
  errframe = 0;
  ack_requested = false;
  ack_immediate = false;
  non_probing = false;
  has_sack = false;
}

-- PING, MAX_DATA with 40, and two bytes of padding.
packet_process-Returns_example :
    (packet_process foreign (λ i. env0) 0 (1 ∷ 0x10 ∷ 40 ∷ 0 ∷ 0 ∷ []) quiet client ≢ out_of_fuel)
    × (packet_process foreign (λ i. env0) 0 (1 ∷ 0x10 ∷ 40 ∷ 0 ∷ 0 ∷ []) quiet client ≢ wrapped)
packet_process-Returns_example =
    packet_process-Returns foreign (λ i. env0) 0 (1 ∷ 0x10 ∷ 40 ∷ 0 ∷ 0 ∷ []) quiet client
      (λ level type p c. omega arith)

-- MAX_DATA may not stand in a packet of the Initial level.
initial_max_data :
    packet_process foreign (λ i. env0) 1 (0x10 ∷ 40 ∷ []) quiet client ≡ stopped einval quiet client
unfolding packet_process process_loop level_valid
initial_max_data = refl

-- The phrase ends with its first zero byte.
abbrev closing : Conn
closing = record client {
  close_errcode = 7;
  close_frame = 8;
  close_phrase = 110 ∷ 111 ∷ 0 ∷ 5 ∷ [];
}

close_phrase_sent : c_string closing.close_phrase ≡ 110 ∷ 111 ∷ []
unfolding c_string
close_phrase_sent = refl

connection_close_process-create_example :
    (c' : Conn) × (connection_close_process env0 1 0x1c (close_body 0x1c closing ++ (1 ∷ [])) server
      ≡ took (length (close_body 0x1c closing)) c')
    × (c'.closed ≡ true)
    × (c'.close_errcode ≡ 7)
    × (c'.close_frame ≡ 8)
    × (c'.close_phrase ≡ c_string closing.close_phrase)
connection_close_process-create_example =
    connection_close_process-create env0 1 0x1c closing server (1 ∷ [])
      (omega (arith, ap (length {A = ℕ}) close_phrase_sent)) (omega arith) (omega arith) refl refl
