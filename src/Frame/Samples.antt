-- ===== src/Frame/Samples.antt =====
-- Two endpoints with a few packets and streams, for the runs of the frames' functions.
use quic.Prelude.{ℕ, ◌-◌, true, false, ◌==◌, if◌then◌else◌, none, some, List, [], ◌∷◌, replicate}
use quic.Prelude.Words.{u64_mod, u32_max}
use quic.Stream.{Stream, StreamLimits, zero_stream}
use quic.Inq.{Inq, Env, RxFrame}
use quic.Outq.{Outq, PacketSent}
use quic.PnSpace.{PnSpace, EcnCount}
use quic.Cong.Types.{Cong, reno, slow_start}
use quic.Frame.{Conn, FrameEnv}
use quic.Frame.Sack.{SackEnv}

abbrev pub marks0 : EcnCount
marks0 = record { ect1 = 0; ect0 = 0; ce = 0 }

-- No packet is received yet.
abbrev pub space_new : PnSpace
space_new = record {
  ecn_local = marks0;
  ecn_peer = marks0;
  pn_map = false ∷ false ∷ false ∷ false ∷ [];
  need_sack = 0;
  sack_path = 0;
  last_max_pn_seen = 0;
  last_max_pn_time = 0;
  min_pn_seen = 0;
  max_pn_seen = 0;
  max_pn_time = 0;
  base_pn = none;
  time = 20;
  max_pn_acked_seen = 3;
  max_pn_acked_time = 0;
  last_sent_time = 0;
  loss_time = 0;
  next_pn = 0;
  max_time_limit = 999000;
  inflight = 0;
}

-- Packet 4 is, and then packet 6.
abbrev pub space_4 : PnSpace
space_4 = record space_new {
  base_pn = some 5;
  max_pn_seen = 4;
  last_max_pn_seen = 4;
  min_pn_seen = 4;
  max_pn_time = 20;
  last_max_pn_time = 20;
}

abbrev pub space_6 : PnSpace
space_6 = record space_4 {
  pn_map = false ∷ true ∷ false ∷ false ∷ [];
  max_pn_seen = 6;
  max_pn_time = 20;
}

abbrev pub limits0 : StreamLimits
limits0 = record {
  max_stream_data_bidi_remote = 100;
  max_stream_data_bidi_local = 100;
  max_stream_data_uni = 100;
  max_streams_bidi = 4;
  max_streams_uni = 4;
  next_bidi_stream_id = 0;
  next_uni_stream_id = 6;
  max_bidi_stream_id = 12;
  max_uni_stream_id = 14;
  active_stream_id = u64_mod - 1;
  bidi_blocked = false;
  uni_blocked = false;
  bidi_pending = false;
  uni_pending = false;
  streams_bidi = 0;
  streams_uni = 1;
}

-- The client's stream 2, on both sides: bytes 0 and 1 are on their way or read, bytes 5 to 7 wait.
abbrev pub sent_stream : Stream
sent_stream =
    let s = zero_stream 2 in
    record s { send = record s.send { max_bytes = 100; bytes = 2; frags = 1; state = 1 } }

abbrev pub read_stream : Stream
read_stream =
    let s = zero_stream 2 in
    record s {
      recv = record s.recv {
        max_bytes = 100;
        window = 100;
        highest = 8;
        offset = 2;
        frags = 1;
        state = 6;
      };
    }

abbrev pub waiting : RxFrame
waiting = record {
  stream = some 2;
  level = 0;
  offset = 5;
  bytes = 5 ∷ 6 ∷ 7 ∷ [];
  stream_fin = false;
  event = false;
  dgram = false;
}

abbrev pub inq0 : Inq
inq0 = record {
  backlog_list = [];
  handshake_list = [];
  stream_list = waiting ∷ [];
  early_list = [];
  recv_list = [];
  max_bytes = 200;
  bytes = 0;
  highest = 8;
  max_data = 200;
  events = 0;
  rmem_alloc = 3;
}

abbrev pub packet : ℕ → List ℕ → PacketSent
packet number ids = record {
  sent_time = 10;
  number = number;
  level = 0;
  frame_len = 100;
  frame_array = ids;
}

abbrev pub outq0 : Outq
outq0 = record {
  packet_sent_list = packet 4 [] ∷ packet 5 [] ∷ packet 6 (11 ∷ []) ∷ [];
  transmitted_list = [];
  datagram_list = [];
  control_list = [];
  stream_list = [];
  stream_list_len = 0;
  unsent_bytes = 0;
  inflight = 300;
  window = 14000;
  pto_count = 1;
  max_ack_delay = 25000;
  wmem = 0;
  sndbuf = 28000;
  sndbuf_locked = false;
}

abbrev pub cong0 : Cong
cong0 = record {
  max_ack_delay = 25000;
  smoothed_rtt = 100000;
  latest_rtt = 90000;
  min_rtt = 80000;
  rttvar = 10000;
  pto = 140000;
  recovery_time = 0;
  pacing_rate = 1000000;
  pacing_time = 0;
  time = 0;
  max_window = 1000000;
  min_window = 2800;
  loss_delay = 12;
  ssthresh = u32_max;
  window = 14000;
  mss = 1400;
  priv = record {
    pending_w_add = 0;
    origin_point = 0;
    epoch_start = 0;
    pending_add = 0;
    w_last_max = 0;
    w_tcp = 0;
    k = 0;
    current_round_min_rtt = 0;
    css_baseline_min_rtt = 0;
    last_round_min_rtt = 0;
    rtt_sample_count = 0;
    css_rounds = 0;
    window_end = none;
  };
  initial_srtt = 333000;
  algo = reno;
  min_rtt_valid = true;
  is_rtt_set = true;
  state = slow_start;
}

-- Packets 4 to 6 are sent.
abbrev pub client : Conn
client = record {
  is_serv = false;
  streams = record {
    head = λ i. if i == 2 then sent_stream ∷ [] else [];
    send = limits0;
    recv = limits0;
  };
  inq = record inq0 { stream_list = []; rmem_alloc = 0 };
  outq = outq0;
  credit = record { last_max_bytes = 0; max_bytes = 100; bytes = 40; data_blocked = false };
  spaces = λ l. record space_new { next_pn = 7; inflight = if l == 0 then 300 else 0 };
  cong = cong0;
  ack_delay_exponent = 3;
  max_datagram_frame_size = 0;
  close_errcode = 0;
  close_frame = 0;
  close_phrase = [];
  closed = false;
  crypto = λ l. record { recv_offset = 0; ticket_ready = false };
  ticket = [];
  token_pending = false;
}

abbrev pub server : Conn
server = record client {
  is_serv = true;
  streams = record {
    head = λ i. if i == 2 then read_stream ∷ [] else [];
    send = limits0;
    recv = limits0;
  };
  inq = inq0;
}

abbrev pub rx0 : Env
rx0 = record {
  rcvbuf = 1000;
  schedule = λ n. true;
  alloc = λ l. true;
  update_bytes = λ i s z. i ∷ s ∷ z ∷ [];
  ticket_memory = λ n. replicate n 0;
}

abbrev pub env0 : FrameEnv
env0 = record {
  rx = rx0;
  stream_mem = λ i. true;
  nframe_mem = true;
  tx_frame = some 77;
  phrase_mem = true;
  append_mem = λ n. true;
  path = 0;
  pressure = false;
  error_bytes = λ i s e z. i ∷ s ∷ e ∷ z ∷ [];
  max_data_bytes = λ i m. i ∷ m ∷ [];
  id_bytes = λ i. i ∷ [];
  close_bytes = λ e f p. e ∷ f ∷ p;
}

abbrev pub sack0 : SackEnv
sack0 = record {
  rx = rx0;
  error_bytes = λ i s e z. i ∷ s ∷ e ∷ z ∷ [];
  stack = (0, 0);
  now = 50;
  max_rate = 1000000;
  validated = true;
}
