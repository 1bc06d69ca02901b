-- ===== src/Outq/Timeouts.antt =====
-- The loss timer in outqueue.c. `spaces` is `quic_pnspace` of a level; the clock is an argument.
pub mod Earliest
use quic.Prelude.{
  ℕ, ◌+◌, ◌-◌, ◌*◌, ◌^◌, ◌≤◌, ◌<◌, ◌≡◌, ◌≢◌, ◌⊎◌, inl, inr, refl, arith, Bool, true, false, not,
  ◌&&◌, ◌||◌, ltb, ◌==◌, if◌then◌else◌, Option, none, some,
}
use quic.Prelude.Words.{add64, mul64}
use quic.PnSpace.{PnSpace}
use quic.Outq.{Outq}

abbrev pub level_app : ℕ
level_app = 0

abbrev pub level_initial : ℕ
level_initial = 1

abbrev pub level_handshake : ℕ
level_handshake = 2

-- A time of 0 is none. The pairs are a time and the level that it is of.
abbrev pub earlier_of : ℕ × ℕ → ℕ → ℕ → ℕ × ℕ
earlier_of (time, level) t other =
    if not (t == 0) && ((time == 0) || ltb t time) then (t, other) else (time, level)

unfoldable pub get_loss_time : (ℕ → PnSpace) → ℕ × ℕ
get_loss_time spaces =
    let initial : ℕ × ℕ = ((spaces level_initial).loss_time, level_initial) in
    let handshake : ℕ × ℕ = earlier_of initial (spaces level_handshake).loss_time level_handshake in
    earlier_of handshake (spaces level_app).loss_time level_app

-- For the application's level the peer's delay is added. Where the source sets no level, none being
-- in flight, the time is 0.
unfoldable pub get_pto_time : (ℕ → PnSpace) → Outq → ℕ → Bool → ℕ → ℕ × ℕ
get_pto_time spaces q pto handshake_ready now =
    let duration = mul64 pto (2 ^ q.pto_count) in
    let sent : ℕ → ℕ = λ level. add64 (spaces level).last_sent_time duration in
    let inflight : ℕ → Bool = λ level. not ((spaces level).inflight == 0) in
    if q.inflight == 0
    then (add64 now duration, if handshake_ready then level_handshake else level_initial)
    else let initial : ℕ × ℕ =
        if inflight level_initial
        then (sent level_initial, level_initial)
        else (0, level_initial) in
      let handshake : ℕ × ℕ =
        if inflight level_handshake && ((initial.0 == 0) || ltb (sent level_handshake) initial.0)
        then (sent level_handshake, level_handshake)
        else initial in
      if not (handshake.0 == 0)
      then handshake
      else if inflight level_app
      then (
        add64 (spaces level_app).last_sent_time
            (add64 duration (mul64 q.max_ack_delay (2 ^ q.pto_count))),
        level_app,
      )
      else handshake

-- The timer is stopped (`none`) or set to run for a time; `tick` is the time of one jiffy.
unfoldable pub update_loss_timer : (ℕ → PnSpace) → Outq → ℕ → Bool → Bool → Bool → ℕ → ℕ → Option ℕ
unfolding get_loss_time get_pto_time
update_loss_timer spaces q pto handshake_ready established blocked tick now =
    let loss = (get_loss_time spaces).0 in
    let wait : ℕ → ℕ = λ time. if ltb (add64 now tick) time then time - now else tick in
    if not (loss == 0)
    then some (wait loss)
    else if (q.inflight == 0) && established || blocked
    then none
    else some (wait (get_pto_time spaces q pto handshake_ready now).0)
