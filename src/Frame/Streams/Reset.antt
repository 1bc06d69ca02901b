-- ===== src/Frame/Streams/Reset.antt =====
-- A RESET_STREAM frame and the data that waits for its stream.
use quic.Prelude.{
  ℕ, ◌+◌, ◌≡◌, refl, ap, inl, inr, true, false, some, List, [], ◌∷◌, All, arith, Bool-cases, ◌%◌,
  ◌⊎◌, leb,
}
use quic.Prelude.Words.{u32_mod}
use quic.Prelude.Result.{ok}
use quic.Stream.{Stream, StreamTable, recv_state_recvd}
use quic.Stream.Ops.{get}
use quic.Inq.{Env, Inq, RxFrame, rfree, of_stream, list_purge, event_recv, event_stream_update}
use quic.Inq.Streams.{size_changed, error_final_size}
use quic.Inq.Streams.Memory.{total, event_recv-Balanced}
use quic.Inq.Streams.Charges.{IsCharged}
use quic.Frame.{Conn, FrameEnv, Processed, took, failed, overrun, used, with_event}
use quic.Frame.Streams.{
  ResetHead, reset_recv, reset_stream, reset_head, reset_stream_process, with_purged,
  recv_state_reset_recvd,
}

-- No frame of the list is one of the stream's.
abbrev pub IsWithout : ℕ → List RxFrame → Type 0
IsWithout id = All (λ f. of_stream (some id) f ≡ false)

list_purge-IsWithout : (fs : List RxFrame) (id : ℕ) → IsWithout id (list_purge fs (some id)).0
unfolding list_purge
list_purge-IsWithout [] id = tt
list_purge-IsWithout (f ∷ fs) id = elim (Bool-cases (of_stream (some id) f)) [
  | inl e ↦ rw e (list_purge-IsWithout fs id)
  | inr e ↦ rw e (e, list_purge-IsWithout fs id)
]

total-list_purge :
    (fs : List RxFrame) (id : ℕ)
    → total (list_purge fs (some id)).0 + (list_purge fs (some id)).1 ≡ total fs
unfolding list_purge total
total-list_purge [] id = omega arith
total-list_purge (f ∷ fs) id = elim (Bool-cases (of_stream (some id) f)) [
  | inl e ↦ rw e (omega (arith, total-list_purge fs id))
  | inr e ↦ rw e (omega (arith, total-list_purge fs id))
]

with_purged-IsCharged :
    (c : Conn) (id : ℕ)
    → IsCharged c.inq
    → IsCharged (with_purged c id).inq
      × IsWithout id (with_purged c id).inq.stream_list
      × IsWithout id (with_purged c id).inq.recv_list
unfolding rfree
with_purged-IsCharged c id e = (
  omega (arith, e, total-list_purge c.inq.stream_list id, total-list_purge c.inq.recv_list id),
  list_purge-IsWithout c.inq.stream_list id,
  list_purge-IsWithout c.inq.recv_list id,
)

stream_list-event :
    (env : Env) (q : Inq) (event : ℕ) (payload : List ℕ)
    → (event_recv env q event payload).0.stream_list ≡ q.stream_list
unfolding event_recv
stream_list-event env q event payload = ground arith

event-IsCharged :
    (env : Env) (q : Inq) (event : ℕ) (payload : List ℕ)
    → IsCharged q
    → IsCharged (event_recv env q event payload).0
event-IsCharged env q event payload e =
    let same = ap total (stream_list-event env q event payload) in
    omega (arith, e, same, event_recv-Balanced env q event payload)

-- What a RESET_STREAM frame does, by the stream that it finds: where all of the stream has arrived
-- already nothing, where the final size is another than before an error, and else it takes the
-- stream's data out of two lists.
abbrev pub SettlesAfter : Stream → ResetHead → Conn → Processed Conn → Type 0
SettlesAfter s h c (took n c') =
    IsCharged c'.inq
    × (((leb recv_state_recvd s.recv.state ≡ true) × (c' ≡ c))
        ⊎ ((leb recv_state_recvd s.recv.state ≡ false)
            × (size_changed s h.finalsz ≡ false)
            × IsWithout s.id c'.inq.stream_list
            × IsWithout s.id c'.inq.recv_list))
SettlesAfter s h c (failed e code c') =
    (leb recv_state_recvd s.recv.state ≡ false)
    × (size_changed s h.finalsz ≡ true)
    × (code ≡ error_final_size)
    × (c' ≡ c)
SettlesAfter s h c overrun = ⊥

reset_recv-Settles :
    (env : FrameEnv) (c : Conn) (s : Stream) (h : ResetHead)
    → IsCharged c.inq
    → IsCharged (reset_recv env c s h).inq
      × IsWithout s.id (reset_recv env c s h).inq.stream_list
      × IsWithout s.id (reset_recv env c s h).inq.recv_list
unfolding reset_recv
reset_recv-Settles env c s h e =
    let payload =
      env.error_bytes h.stream_id recv_state_reset_recvd (h.errcode % u32_mod) h.finalsz in
    with_purged-IsCharged (with_event env c event_stream_update payload) s.id
      (event-IsCharged env.rx c.inq event_stream_update payload e)

reset_stream-Settles :
    (env : FrameEnv) (c : Conn) (s : Stream) (h : ResetHead) (n : ℕ)
    → IsCharged c.inq
    → SettlesAfter s h c (reset_stream env c s h n)
unfolding reset_stream
reset_stream-Settles env c s h n e = elim (Bool-cases (leb recv_state_recvd s.recv.state)) [
  | inl ended ↦ rw ended (e, inl (ended, refl))
  | inr going ↦ elim (Bool-cases (size_changed s h.finalsz)) [
    | inl changed ↦ rw (going, changed) (going, changed, refl, refl)
    | inr kept ↦
        let (charged, streams, received) = reset_recv-Settles env c s h e in
        rw (going, kept) (charged, inr (going, kept, streams, received))
  ]
]

-- A RESET_STREAM frame for a stream that is found keeps the memory charged for received data that
-- of the frames held. Exactly where all of the stream has arrived, or it was reset before, nothing
-- changes behind the lookup; else a final size that contradicts what arrived, or an earlier one, is
-- FINAL_SIZE_ERROR, which changes nothing either; and else no data of the stream is left in the list
-- of frames that wait, nor in that of the reader.
pub reset_stream_process-Settles :
    (env : FrameEnv) (p : List ℕ) (c : Conn) (h : ResetHead) (t : StreamTable) (s : Stream)
    → IsCharged c.inq
    → reset_head p ≡ some h
    → get c.streams h.stream_id false c.is_serv false env.stream_mem ≡ ok (t, s)
    → SettlesAfter s h (record c { streams = t }) (reset_stream_process env p c)
unfolding reset_stream_process
reset_stream_process-Settles env p c h t s e read found =
    rw (read, reset_stream_process, found)
      (reset_stream-Settles env (record c { streams = t }) s h (used p h.rest) e)
