-- ===== src/Inq/Params.antt =====
-- The transport parameters of inqueue.c.
use quic.Prelude.{ℕ, ◌*◌, Bool, not, ◌&&◌, ◌||◌, ltb, ◌==◌, if◌then◌else◌}
use quic.Inq.{Inq}

-- The parameters in `struct quic_inqueue` and `struct quic_transport_param`.
pub record RxParams : Type 0 where
  pub disable_compatible_version : Bool
  pub disable_1rtt_encryption : Bool
  pub max_datagram_frame_size : ℕ
  pub max_udp_payload_size : ℕ
  pub ack_delay_exponent : ℕ
  pub max_idle_timeout : ℕ
  pub grease_quic_bit : Bool
  pub stateless_reset : Bool
  pub max_ack_delay : ℕ
  pub max_data : ℕ

-- The queue with its own parameters; `rcvbuf` is the socket's, and `taglen` the packet's.
pub record InqParams : Type 0 where
  pub inq : Inq
  pub local : RxParams
  pub timeout : ℕ
  pub rcvbuf : ℕ
  pub taglen : ℕ

abbrev pub inq_get_param : InqParams → Bool → RxParams → RxParams
inq_get_param q remote p = if remote then p else q.local

-- For a `max_data` below 2 ^ 30, as the socket makes sure of.
unfoldable pub inq_set_param : InqParams → Bool → RxParams → InqParams
inq_set_param q remote p =
    if remote
    then (let mine = q.local.max_idle_timeout in
        let q1 =
          if not (p.max_idle_timeout == 0) && ((mine == 0) || ltb p.max_idle_timeout mine)
          then record q { timeout = p.max_idle_timeout }
          else q in
        if q.local.disable_1rtt_encryption && p.disable_1rtt_encryption
        then record q1 { taglen = 0 }
        else q1)
    else record q {
      inq = record q.inq { max_data = p.max_data; max_bytes = p.max_data };
      local = p;
      timeout = p.max_idle_timeout;
      rcvbuf = p.max_data * 2;
    }
