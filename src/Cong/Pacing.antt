-- ===== src/Cong/Pacing.antt =====
-- Pacing in cong.c: the earliest time of the next packet, and the rate it is computed from.
use quic.Prelude.{ℕ, ◌+◌, ◌-◌, ◌*◌, ◌/◌, ◌≤◌, ◌<◌, ◌≡◌, max, min, arith}
use quic.Prelude.Words.{u64_mod}
use quic.Cong.Types.{Cong, nsec_per_sec}
use quic.Cong.Cubic.{cubic_on_packet_sent}
use quic.Cong.Ops.{update_pacing_time, notify_sent, on_packet_sent}

on_packet_sent_time :
    (c : Cong) (now bytes number : ℕ)
    → 0 < bytes
    → 0 < c.pacing_rate
    → bytes * nsec_per_sec < u64_mod
    → max c.pacing_time now + bytes * nsec_per_sec / c.pacing_rate < u64_mod
    → let ns = bytes * nsec_per_sec / c.pacing_rate in
      let late = max c.pacing_time now - c.pacing_time in
      (on_packet_sent c now bytes number).pacing_time
      ≡ max c.pacing_time now + (ns - min (ns / 2) late)
unfolding on_packet_sent notify_sent update_pacing_time cubic_on_packet_sent
on_packet_sent_time c now bytes number some_bytes rate fits fits' = ground arith

-- Where the pacing is on and nothing wraps, a packet sent at `now` pushes the time of the next one to
-- `now` or the old time, whichever is later, plus between one half of the packet's share of a second
-- and all of it; so the time never moves back.
pub pacing-on_packet_sent :
    (c : Cong) (now bytes number : ℕ)
    → 0 < bytes
    → 0 < c.pacing_rate
    → bytes * nsec_per_sec < u64_mod
    → max c.pacing_time now + bytes * nsec_per_sec / c.pacing_rate < u64_mod
    → let ns = bytes * nsec_per_sec / c.pacing_rate in
      let next = (on_packet_sent c now bytes number).pacing_time in
      (max c.pacing_time now + ns / 2 ≤ next)
      × (next ≤ max c.pacing_time now + ns)
      × (now ≤ c.pacing_time → next ≡ c.pacing_time + ns)
pacing-on_packet_sent c now bytes number some_bytes rate fits fits' =
    let next = on_packet_sent_time c now bytes number some_bytes rate fits fits' in
    (omega (arith, next), omega (arith, next), λ early. omega (arith, next))
