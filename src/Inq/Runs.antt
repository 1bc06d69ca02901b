-- ===== src/Inq/Runs.antt =====
-- Runs of the receive queues: stream 2 of a server has bytes 0 and 1, and bytes 5 to 7 wait.
use quic.Prelude.{
  ℕ, ◌+◌, ◌-◌, ◌≤◌, ◌<◌, ◌≡◌, refl, arith, Bool, true, false, ltb, if◌then◌else◌, ◌==◌, some, List,
  replicate, [], ◌∷◌,
}
use quic.Prelude.Words.{u64_mod}
use quic.Stream.{id_uni, Stream, StreamLimits, zero_stream, recv_state_recvd}
use quic.Inq.{RxFrame, Inq, Env, no_room}
use quic.Inq.Streams.{Rx, Handled, handled, overrun, stream_recv}
use quic.Inq.Streams.Slices.{slice, data_of}
use quic.Inq.Streams.Order.{count}
use quic.Inq.Streams.Delivery.{IsPiece}
use quic.Inq.Streams.Receive.{Outcome, stream_recv_delivers}
use quic.Inq.Streams.Waiting.{IsValid, ValidAfter, stream_recv-IsValid}
use quic.Inq.Streams.Limits.{IsPassedOver, RaisesAfter, WithinAfter, new_bytes, stream_recv_limits}
use quic.Inq.Streams.Memory.{total}
use quic.Inq.Streams.Charges.{IsCharged, ChargedAfter, stream_recv-IsCharged}
use quic.Inq.Streams.Overrun.{stream_recv_overruns}
use quic.Inq.Flow.{Link, flow_control}
use quic.Inq.Flow.Credit.{IsGenerous, flow_control_credit, flow_control_retreats}
use quic.Inq.Handshake.{Hs, handshake_recv}
use quic.Inq.Handshake.Messages.{PassesAfter, handshake_recv-Passes}

abbrev server_limits : StreamLimits
server_limits = record {
  max_stream_data_bidi_remote = 100;
  max_stream_data_bidi_local = 100;
  max_stream_data_uni = 100;
  max_streams_bidi = 4;
  max_streams_uni = 4;
  next_bidi_stream_id = 0;
  next_uni_stream_id = 6;
  max_bidi_stream_id = 12;
  max_uni_stream_id = 14;
  active_stream_id = u64_mod - 1;
  bidi_blocked = false;
  uni_blocked = false;
  bidi_pending = false;
  uni_pending = false;
  streams_bidi = 0;
  streams_uni = 1;
}

abbrev piece : ℕ → ℕ → List ℕ → Bool → RxFrame
piece level offset bytes fin = record {
  stream = some 2;
  level = level;
  offset = offset;
  bytes = bytes;
  stream_fin = fin;
  event = false;
  dgram = false;
}

abbrev late_piece : RxFrame
late_piece = piece 0 5 (5 ∷ 6 ∷ 7 ∷ []) true

abbrev stream2 : Stream
stream2 =
    let s = zero_stream 2 in
    record s {
      recv = record s.recv {
        max_bytes = 100;
        window = 100;
        highest = 8;
        offset = 2;
        finalsz = 8;
        frags = 1;
        state = 7;
      };
    }

abbrev queue : Inq
queue = record {
  backlog_list = [];
  handshake_list = [];
  stream_list = late_piece ∷ [];
  early_list = [];
  recv_list = piece 0 0 (0 ∷ 1 ∷ []) false ∷ [];
  max_bytes = 200;
  bytes = 0;
  highest = 8;
  max_data = 200;
  events = 0;
  rmem_alloc = 5;
}

abbrev rx0 : Rx
rx0 = record {
  inq = queue;
  table = record {
    head = λ i. if i == 2 then stream2 ∷ [] else [];
    send = server_limits;
    recv = server_limits;
  };
  stream = stream2;
}

abbrev env0 : Env
env0 = record {
  rcvbuf = 1000;
  schedule = λ n. true;
  alloc = λ l. true;
  update_bytes = λ i s z. i ∷ s ∷ z ∷ [];
  ticket_memory = λ n. replicate n 0;
}

-- Bytes 1 to 4: byte 1 is old.
abbrev missing : RxFrame
missing = piece 0 1 (1 ∷ 2 ∷ 3 ∷ 4 ∷ []) false

missing_IsPiece : IsPiece (λ i. i) 8 2 missing
unfolding slice
missing_IsPiece = record {
  stream = refl;
  level = refl;
  bytes = refl;
  within = omega arith;
  final = λ e. absurd (ground (arith, e));
}

late_IsPiece : IsPiece (λ i. i) 8 2 late_piece
unfolding slice
late_IsPiece = record {
  stream = refl;
  level = refl;
  bytes = refl;
  within = omega arith;
  final = λ e. refl;
}

stream_recv_delivers_example : Outcome (λ i. i) rx0 (stream_recv env0 true rx0 missing)
stream_recv_delivers_example =
    stream_recv_delivers env0 true (λ i. i) 8 rx0 missing missing_IsPiece ((λ e. late_IsPiece), tt)
      (omega arith)

rx0-IsValid : IsValid rx0
unfolding count
rx0-IsValid = record { sorted = (tt, tt); ahead = ((λ e. omega arith), tt); counted = refl }

stream_recv-IsValid_example : ValidAfter (stream_recv env0 true rx0 missing)
unfolding count
stream_recv-IsValid_example =
    stream_recv-IsValid env0 true rx0 missing refl rx0-IsValid
      (let one : count 2 queue.stream_list ≡ 1 = refl in omega (arith, one))

stream_recv_limits_example :
    RaisesAfter
      (IsPassedOver rx0 missing)
      (new_bytes rx0 missing)
      rx0
      (stream_recv env0 true rx0 missing)
    × WithinAfter (stream_recv env0 true rx0 missing)
stream_recv_limits_example = stream_recv_limits env0 true rx0 missing (omega arith, omega arith)

rx0_IsCharged : IsCharged queue
unfolding total
rx0_IsCharged = refl

stream_recv-IsCharged_example : ChargedAfter (stream_recv env0 true rx0 missing)
stream_recv-IsCharged_example = stream_recv-IsCharged env0 true rx0 missing rx0_IsCharged

-- The final size is not known, and nothing waits.
abbrev rx1 : Rx
rx1 = record rx0 {
  inq = record queue { stream_list = []; rmem_alloc = 2 };
  stream = record stream2 {
    recv = record stream2.recv { highest = 2; finalsz = 0; frags = 0; state = 6 };
  };
}

stream_recv_overruns_example : stream_recv env0 true rx1 (piece 0 0 (0 ∷ []) true) ≡ overrun
unfolding no_room
stream_recv_overruns_example =
    stream_recv_overruns env0 true rx1 (piece 0 0 (0 ∷ []) true) refl refl (omega arith)
      (omega arith) refl

abbrev calm_link : Link
calm_link = record { mss = 20; pressure = false; send_max_data = true; send_max_stream_data = true }

flow_control_credit_example :
    let after = flow_control calm_link queue stream2 30 in
    ((200 ≤ after.inq.max_bytes)
      × (after.inq.max_bytes ≤ 0 + 30 + 200)
      × IsGenerous calm_link 200 (0 + 30) after.inq.max_bytes)
    × ((100 ≤ after.stream.recv.max_bytes)
        × (after.stream.recv.max_bytes ≤ 0 + 30 + 100)
        × (ltb 7 recv_state_recvd ≡ true
            → IsGenerous calm_link 100 (0 + 30) after.stream.recv.max_bytes))
flow_control_credit_example =
    flow_control_credit calm_link queue stream2 30 refl (omega arith) (omega arith) (omega arith)
      (omega arith) (omega arith) (omega arith) (omega arith)

flow_control_retreats_example :
    (flow_control (record calm_link { pressure = true }) queue stream2 30).inq.max_bytes < 200
flow_control_retreats_example =
    flow_control_retreats (record calm_link { pressure = true }) queue stream2 30 refl (omega arith)
      (omega arith) (omega arith) (omega arith) (omega arith) (omega arith)

abbrev hs0 : Hs
hs0 = record {
  inq = record queue { handshake_list = piece 2 5 (5 ∷ 6 ∷ 7 ∷ []) false ∷ [] };
  crypto = record { recv_offset = 2; ticket_ready = false };
  ticket = [];
}

handshake_recv-Passes_example :
    PassesAfter
      (λ i. i)
      2
      hs0
      (handshake_recv env0 (λ n. true) hs0 (piece 2 1 (1 ∷ 2 ∷ 3 ∷ 4 ∷ []) false))
unfolding slice
handshake_recv-Passes_example =
    handshake_recv-Passes env0 (λ n. true) (λ i. i) hs0 (piece 2 1 (1 ∷ 2 ∷ 3 ∷ 4 ∷ []) false)
      (record { level = refl; bytes = refl }) (omega arith)
      ((λ e. record { level = refl; bytes = refl }), tt)

-- What the application gets of the stream, and the state and the offset reached.
abbrev got : Handled → List ℕ × ℕ × ℕ
got (handled r) = (data_of 2 r.inq.recv_list, r.stream.recv.state, r.stream.recv.offset)
got h = ([], 0, 0)

merged_run :
    got (stream_recv env0 true rx0 missing)
    ≡ (0 ∷ 1 ∷ 2 ∷ 3 ∷ 4 ∷ 5 ∷ 6 ∷ 7 ∷ [], recv_state_recvd, 8)
unfolding stream_recv data_of id_uni
merged_run = refl
