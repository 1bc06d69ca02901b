-- ===== src/Inq/Flow/Credit.antt =====
-- What flow control promises to the peer, and where it takes a promise back.
use quic.Prelude.{
  ℕ, ◌+◌, ◌-◌, ◌/◌, ◌%◌, ◌≤◌, ◌<◌, ◌≡◌, refl, subst, ap, ◌∙◌, arith, Bool, true, false, ◌&&◌, ltb,
  if◌then◌else◌, max,
}
use quic.Prelude.Words.{u32_mod, u64_mod, add64}
use quic.Stream.{Stream, recv_state_recvd}
use quic.Inq.{Inq}
use quic.Inq.Flow.{Link, flow_control, update_connection, update_stream, is_due, reduced}

-- Enough credit is out: the peer may send all of the window but a part too small for a frame.
abbrev pub IsGenerous : Link → ℕ → ℕ → ℕ → Type 0
IsGenerous link window bytes max_bytes = bytes + window ≤ max_bytes + max link.mss (window / 16)

abbrev updated : Link → Bool → ℕ → ℕ → ℕ → ℕ
updated link receiving window bytes max_bytes =
    if receiving && is_due link window bytes max_bytes
    then add64 bytes (reduced link window)
    else max_bytes

update_lem :
    (link : Link) (receiving : Bool) (window bytes max_bytes new : ℕ)
    → link.pressure ≡ false
    → max_bytes ≤ bytes + window
    → bytes + window < u64_mod
    → new ≡ updated link receiving window bytes max_bytes
    → (max_bytes ≤ new)
      × (new ≤ bytes + window)
      × (receiving ≡ true → IsGenerous link window bytes new)
update_lem link receiving window bytes max_bytes new calm below small e =
    ground (arith, calm, below, small, e)

-- Under pressure the limit is half a window ahead, wherever it was.
retreat_lem :
    (link : Link) (window bytes max_bytes new : ℕ)
    → link.pressure ≡ true
    → max_bytes ≤ bytes + window
    → bytes + window < u64_mod
    → max link.mss (window / 16) ≤ bytes + window - max_bytes
    → bytes + window / 2 < max_bytes
    → new ≡ updated link true window bytes max_bytes
    → new < max_bytes
retreat_lem link window bytes max_bytes new pressed below small is_due low e =
    ground (arith, pressed, below, small, is_due, low, e)

connection_limit :
    (link : Link) (q : Inq) (s : Stream) (n : ℕ)
    → 0 < n
    → q.max_data < u32_mod
    → q.bytes + n < u64_mod
    → (flow_control link q s n).inq.max_bytes
      ≡ updated link true q.max_data (q.bytes + n) q.max_bytes
unfolding flow_control update_connection
connection_limit link q s n some_read word small =
    let window : q.max_data % u32_mod ≡ q.max_data = omega (arith, word) in
    let read : add64 q.bytes n ≡ q.bytes + n = omega (arith, small) in
    let raw : (flow_control link q s n).inq.max_bytes
        ≡ updated link true (q.max_data % u32_mod) (add64 q.bytes n) q.max_bytes =
      ground (arith, some_read) in
    raw
    ∙ ap (λ w. updated link true w (add64 q.bytes n) q.max_bytes) window
    ∙ ap (λ b. updated link true q.max_data b q.max_bytes) read

stream_limit :
    (link : Link) (q : Inq) (s : Stream) (n : ℕ)
    → 0 < n
    → (flow_control link q s n).stream.recv.max_bytes
      ≡ updated link
          (ltb s.recv.state recv_state_recvd)
          (s.recv.window % u32_mod)
          (add64 s.recv.bytes n)
          s.recv.max_bytes
unfolding flow_control update_stream
stream_limit link q s n some_read = ground (arith, some_read)

-- What a reader gets for `n` bytes read without memory pressure: the limits of the connection and of
-- the stream never fall, and stay at most a window ahead of what was read; and the credit that is
-- held back, also of a stream that still receives, is at most what makes a frame due. It holds where
-- the limits were at most a window ahead before, both windows fit 32 bits, and the sums are words.
pub flow_control_credit :
    (link : Link) (q : Inq) (s : Stream) (n : ℕ)
    → link.pressure ≡ false
    → 0 < n
    → q.max_data < u32_mod
    → q.max_bytes ≤ q.bytes + q.max_data
    → q.bytes + n + q.max_data < u64_mod
    → s.recv.window < u32_mod
    → s.recv.max_bytes ≤ s.recv.bytes + s.recv.window
    → s.recv.bytes + n + s.recv.window < u64_mod
    → ((q.max_bytes ≤ (flow_control link q s n).inq.max_bytes)
        × ((flow_control link q s n).inq.max_bytes ≤ q.bytes + n + q.max_data)
        × IsGenerous link q.max_data (q.bytes + n) (flow_control link q s n).inq.max_bytes)
      × ((s.recv.max_bytes ≤ (flow_control link q s n).stream.recv.max_bytes)
          × ((flow_control link q s n).stream.recv.max_bytes ≤ s.recv.bytes + n + s.recv.window)
          × (ltb s.recv.state recv_state_recvd ≡ true
              → IsGenerous link s.recv.window
                  (s.recv.bytes + n)
                  (flow_control link q s n).stream.recv.max_bytes))
flow_control_credit link q s n calm some_read word below small word' below' small' =
    let window' : s.recv.window % u32_mod ≡ s.recv.window = omega (arith, word') in
    let read' : add64 s.recv.bytes n ≡ s.recv.bytes + n = omega (arith, small') in
    let receiving = ltb s.recv.state recv_state_recvd in
    let (up, within, credit) =
      update_lem link true q.max_data (q.bytes + n) q.max_bytes
        (flow_control link q s n).inq.max_bytes calm (omega (arith, below)) small
        (connection_limit link q s n some_read word (omega (arith, small))) in
    (
      (up, within, credit refl),
      update_lem link receiving s.recv.window (s.recv.bytes + n) s.recv.max_bytes
          (flow_control link q s n).stream.recv.max_bytes calm (omega (arith, below')) small'
          (subst
            (λ b.
              (flow_control link q s n).stream.recv.max_bytes
              ≡ updated link receiving s.recv.window b s.recv.max_bytes)
            read'
            (subst
              (λ w.
                (flow_control link q s n).stream.recv.max_bytes
                ≡ updated link receiving w (add64 s.recv.bytes n) s.recv.max_bytes)
              window' (stream_limit link q s n some_read))),
    )

-- Under memory pressure, a limit advertised before is taken back: where a frame is due, and the limit
-- is more than half a window ahead of what is read, reading lowers the limit that the connection
-- enforces on the peer.
pub flow_control_retreats :
    (link : Link) (q : Inq) (s : Stream) (n : ℕ)
    → link.pressure ≡ true
    → 0 < n
    → q.max_data < u32_mod
    → q.max_bytes ≤ q.bytes + q.max_data
    → q.bytes + n + q.max_data < u64_mod
    → max link.mss (q.max_data / 16) ≤ q.bytes + n + q.max_data - q.max_bytes
    → q.bytes + n + q.max_data / 2 < q.max_bytes
    → (flow_control link q s n).inq.max_bytes < q.max_bytes
flow_control_retreats link q s n pressed some_read word below small is_due low =
    retreat_lem link q.max_data (q.bytes + n) q.max_bytes (flow_control link q s n).inq.max_bytes
      pressed (omega (arith, below)) small is_due low
      (connection_limit link q s n some_read word (omega (arith, small)))
