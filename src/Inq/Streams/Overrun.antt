-- ===== src/Inq/Streams/Overrun.antt =====
-- The FIN that an in-order frame brings is not checked: where the stream would end.
use quic.Prelude.{ℕ, ◌-◌, ◌≤◌, ◌<◌, ◌≡◌, refl, arith, Bool, true, false, ltb, ◌==◌, none, ap}
use quic.Inq.{RxFrame, Env, set_owner_r, len, no_room}
use quic.Inq.Streams.{
  Rx, overrun, end_of, stream_tail, stream_recv, recv_now, raise_highest, merge_rest, then_handled,
  announce, is_duplicate, recv_state_size_known, with_inq,
}
use quic.Inq.Streams.Steps.{announce_same}

tail_overruns :
    (env : Env) (is_serv : Bool) (r : Rx) (f : RxFrame)
    → end_of f < r.stream.recv.offset
    → stream_tail env is_serv r f ≡ none
unfolding stream_tail
tail_overruns env is_serv r f ends =
    let over : ltb (len f) (r.stream.recv.offset - f.offset) ≡ true = ground (arith, ends) in
    rw over refl

recv_now_overruns :
    (env : Env) (is_serv : Bool) (r : Rx) (f : RxFrame) (highest : ℕ)
    → end_of f < r.stream.recv.offset
    → recv_now env is_serv r f highest ≡ overrun
unfolding recv_now
recv_now_overruns env is_serv r f highest ends =
    ap (λ o. then_handled o (merge_rest env is_serv))
      (tail_overruns env is_serv (raise_highest r highest) f ends)

-- A frame with FIN that ends before what was delivered already, on a stream whose final size is not
-- known yet, makes the length of the frame wrap around below 0, if the receive buffer has room for
-- it: no check of the final size is reached.
pub stream_recv_overruns :
    (env : Env) (is_serv : Bool) (r : Rx) (f : RxFrame)
    → f.stream_fin ≡ true
    → (r.stream.recv.state == recv_state_size_known) ≡ false
    → end_of f < r.stream.recv.offset
    → r.stream.recv.offset ≤ r.stream.recv.highest
    → no_room env r.inq (len f) ≡ false
    → stream_recv env is_serv r f ≡ overrun
unfolding stream_recv
stream_recv_overruns env is_serv r f fin unknown ends seen room =
    let charged = with_inq r (set_owner_r (len f) r.inq) in
    let same = (announce_same env charged).0 in
    let new : is_duplicate r.stream f ≡ false = ground (arith, fin, unknown) in
    let low : ltb r.stream.recv.highest (end_of f) ≡ false = ground (arith, ends, seen) in
    let now : ltb r.stream.recv.offset f.offset ≡ false = ground (arith, ends) in
    rw (new, room, low, now)
      (recv_now_overruns env is_serv (announce env charged) f (end_of f - r.stream.recv.highest)
        (rw same ends))
