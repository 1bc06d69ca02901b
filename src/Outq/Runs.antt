-- ===== src/Outq/Runs.antt =====
-- Runs of the send queues: three packets of the application, and one handshake packet.
use quic.Prelude.{
  ◌≤◌, ℕ, ◌+◌, ◌≡◌, ◌⊎◌, refl, arith, true, false, if◌then◌else◌, ◌==◌, ltb, none, some, List, [],
  ◌∷◌, All, map,
}
use quic.Stream.{Stream, zero_stream}
use quic.PnSpace.{PnSpace, EcnCount}
use quic.Prelude.Words.{u32_max}
use quic.Cong.Types.{Cong, reno, slow_start, check_persistent_congestion, persistent_threshold}
use quic.Cong.Ops.{on_packet_lost}
use quic.Cong.Reno.{reno_on_packet_lost}
use quic.Outq.{TxFrame, stream_kind, Outq, PacketSent, packet_sent_tail}
use quic.Outq.Loss.{Sending, retransmit_mark}
use quic.Outq.Loss.Inflight.{IsAccounted, sent_bytes, level_bytes, retransmit_mark-IsAccounted}
use quic.Outq.Loss.Found.{IsInOrder, IsLeft, retransmit_mark-IsLeft}
use quic.Outq.Loss.Frames.{kept_frames, kept-retransmit_mark}
use quic.Outq.Loss.Order.{packet_sent_tail-IsInOrder}
use quic.Outq.Timeouts.{update_loss_timer}
use quic.Outq.Timeouts.Earliest.{IsEarliest, update_loss_timer_lem}
use quic.Outq.Flow.{Credit, out_flow_control, wspace, blocked-wspace}

abbrev no_marks : EcnCount
no_marks = record { ect1 = 0; ect0 = 0; ce = 0 }

abbrev packet : ℕ → ℕ → ℕ → List ℕ → PacketSent
packet level number time ids = record {
  sent_time = time;
  number = number;
  level = level;
  frame_len = 100;
  frame_array = ids;
}

abbrev frame : ℕ → ℕ → TxFrame
frame id number = record {
  id = id;
  stream = some 0;
  kind = stream_kind;
  level = 0;
  number = some number;
  bytes = 90;
  len = 100;
  ack_eliciting = true;
  transmitted = true;
  path = 0;
  content = [];
}

abbrev outq0 : Outq
outq0 = record {
  packet_sent_list = packet 2 4 10 [] ∷ packet 0 1 20 (11 ∷ []) ∷ packet 0 7 30 (12 ∷ []) ∷ [];
  transmitted_list = frame 11 1 ∷ frame 12 7 ∷ [];
  datagram_list = [];
  control_list = [];
  stream_list = [];
  stream_list_len = 0;
  unsent_bytes = 0;
  inflight = 300;
  window = 10000;
  pto_count = 0;
  max_ack_delay = 25000;
  wmem = 180;
  sndbuf = 20000;
  sndbuf_locked = false;
}

-- Packet 5 of the application was acknowledged, and the loss delay is 12.
abbrev space0 : PnSpace
space0 = record {
  ecn_local = no_marks;
  ecn_peer = no_marks;
  pn_map = [];
  need_sack = 0;
  sack_path = 0;
  last_max_pn_seen = 0;
  last_max_pn_time = 0;
  min_pn_seen = 0;
  max_pn_seen = 0;
  max_pn_time = 0;
  base_pn = none;
  time = 0;
  max_pn_acked_seen = 5;
  max_pn_acked_time = 25;
  last_sent_time = 30;
  loss_time = 0;
  next_pn = 8;
  max_time_limit = 999000;
  inflight = 200;
}

abbrev cong0 : Cong
cong0 = record {
  max_ack_delay = 25000;
  smoothed_rtt = 100000;
  latest_rtt = 90000;
  min_rtt = 80000;
  rttvar = 10000;
  pto = 140000;
  recovery_time = 0;
  pacing_rate = 1000000;
  pacing_time = 0;
  time = 0;
  max_window = 1000000;
  min_window = 2800;
  loss_delay = 12;
  ssthresh = u32_max;
  window = 14000;
  mss = 1400;
  priv = record {
    pending_w_add = 0;
    origin_point = 0;
    epoch_start = 0;
    pending_add = 0;
    w_last_max = 0;
    w_tcp = 0;
    k = 0;
    current_round_min_rtt = 0;
    css_baseline_min_rtt = 0;
    last_round_min_rtt = 0;
    rtt_sample_count = 0;
    css_rounds = 0;
    window_end = none;
  };
  initial_srtt = 333000;
  algo = reno;
  min_rtt_valid = true;
  is_rtt_set = true;
  state = slow_start;
}

abbrev sending0 : Sending
sending0 = record { outq = outq0; space = space0; cong = cong0 }

sending0-IsAccounted : IsAccounted 0 sending0
unfolding sent_bytes level_bytes
sending0-IsAccounted = record {
  all = refl;
  mine = refl;
  word = omega arith;
  space_word = omega arith;
}

retransmit_mark-IsAccounted_example : IsAccounted 0 (retransmit_mark sending0 0 false 35)
retransmit_mark-IsAccounted_example =
    retransmit_mark-IsAccounted sending0 0 false 35 sending0-IsAccounted

outq0-IsInOrder : IsInOrder outq0.packet_sent_list
outq0-IsInOrder = ground arith

retransmit_mark-IsLeft_example :
    All (IsLeft 0 5 35 12) (retransmit_mark sending0 0 false 35).outq.packet_sent_list
retransmit_mark-IsLeft_example =
    retransmit_mark-IsLeft sending0 0 35 outq0-IsInOrder
      (omega arith, (omega arith, (omega arith, tt))) (omega arith)

kept-retransmit_mark_example :
    kept_frames 11 (retransmit_mark sending0 0 false 35).outq ≡ kept_frames 11 outq0
kept-retransmit_mark_example = kept-retransmit_mark 11 sending0 0 false 35

-- Packet 1 is lost by its number, and its frame goes back to the stream's queue.
abbrev queue_after : Outq → List ℕ × List ℕ × ℕ
queue_after q = (map (λ p. p.number) q.packet_sent_list, map (λ f. f.id) q.stream_list, q.inflight)

found_run : queue_after (retransmit_mark sending0 0 false 35).outq ≡ (4 ∷ 7 ∷ [], 11 ∷ [], 200)
unfolding retransmit_mark on_packet_lost reno_on_packet_lost check_persistent_congestion
    persistent_threshold
found_run = refl

abbrev waiting0 : Outq
waiting0 = record outq0 { stream_list = record (frame 14 0) { number = none } ∷ [] }

packet_sent_tail-IsInOrder_example :
    IsInOrder (packet_sent_tail outq0 (packet 2 5 40 [])).packet_sent_list
packet_sent_tail-IsInOrder_example =
    packet_sent_tail-IsInOrder outq0 (packet 2 5 40 []) (ground arith) outq0-IsInOrder

abbrev spaces0 : ℕ → PnSpace
spaces0 level =
    if level == 0
    then record space0 { loss_time = 50 }
    else if level == 1
    then space0
    else record space0 { loss_time = 40 }

update_loss_timer_lem_example :
    (t : ℕ) × (update_loss_timer spaces0 outq0 140000 true true false 4 35 ≡ some t)
    × (((level : ℕ) → level ≤ 2 → (spaces0 level).loss_time ≡ 0)
        ⊎ ((level : ℕ) × IsEarliest spaces0 level
            × ((((spaces0 level).loss_time ≤ 35 + 4) × (t ≡ 4))
                ⊎ (35 + t ≡ (spaces0 level).loss_time))))
update_loss_timer_lem_example =
    update_loss_timer_lem spaces0 outq0 140000 true true 4 35 (omega arith) (omega arith)

abbrev credit0 : Credit
credit0 = record { last_max_bytes = 0; max_bytes = 100; bytes = 40; data_blocked = false }

abbrev stream0 : Stream
stream0 =
    (let s = zero_stream 0 in record s { send = record s.send { max_bytes = 50; bytes = 10 } })

blocked-wspace_example :
    (out_flow_control credit0 stream0 41 true (true, true)).blocked
    ≡ ltb (wspace credit0 (some stream0) 1000) 41
blocked-wspace_example =
    blocked-wspace credit0 stream0 41 1000 true (true, true) (omega arith) (omega arith)
      (omega arith) (omega arith) (omega arith)
