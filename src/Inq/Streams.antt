-- ===== src/Inq/Streams.antt =====
-- STREAM frames in inqueue.c: `quic_inq_stream_tail` and `quic_inq_stream_recv`. Offsets are u64, and
-- below 2 ^ 63 as the frame's parser makes them.
pub mod Slices
pub mod Steps
pub mod Order
pub mod Receive
pub mod Delivery
pub mod Merge
pub mod Memory
pub mod Charges
pub mod Waiting
pub mod Raises
pub mod Limits
pub mod Overrun
use quic.Prelude.{
  ℕ, ◌+◌, ◌-◌, Bool, true, false, not, ◌&&◌, ◌||◌, ltb, leb, ◌==◌, if◌then◌else◌, Option, none,
  some, List, [], ◌∷◌, ◌++◌, length, drop,
}
use quic.Prelude.Words.{add32, sub32}
use quic.Prelude.Result.{Errno, einval, enobufs}
use quic.Stream.{Stream, StreamTable, recv_state_recvd, write}
use quic.Stream.Ops.{put, put_stream}
use quic.Inq.{RxFrame, Inq, Env, len, rfree, set_owner_r, no_room, event_recv, event_stream_update}

abbrev pub recv_state_recv : ℕ
recv_state_recv = 6

abbrev pub recv_state_size_known : ℕ
recv_state_size_known = 7

abbrev pub error_flow_control : ℕ
error_flow_control = 3

abbrev pub error_final_size : ℕ
error_final_size = 6

abbrev pub sid : RxFrame → ℕ
sid f = elim f.stream [ none ↦ 0 | some i ↦ i ]

abbrev pub end_of : RxFrame → ℕ
end_of f = f.offset + len f

-- What a stream's frame works on: the queue, the table, and the stream pointed to, which is written
-- back to the table at the end.
pub record Rx : Type 0 where
  pub inq : Inq
  pub table : StreamTable
  pub stream : Stream

-- `failed` has the error and the frame's `errcode`. `overrun` is no return: the length of the frame
-- would fall below 0, and its data point behind the buffer.
pub data Handled : Type 0 where
  handled : Rx → Handled
  failed : Errno → ℕ → Rx → Handled
  overrun : Handled

abbrev pub with_inq : Rx → Inq → Rx
with_inq r q = record r { inq = q }

abbrev pub with_recv_state : Stream → ℕ → Stream
with_recv_state s state = record s { recv = record s.recv { state = state } }

unfoldable pub notify : Env → Rx → ℕ → ℕ → Rx
unfolding event_recv
notify env r state finalsz =
    with_inq r
      (event_recv env r.inq event_stream_update (env.update_bytes r.stream.id state finalsz)).0

-- The frame without the bytes before the stream's offset.
abbrev pub trimmed : RxFrame → ℕ → RxFrame
trimmed f overlap = record f { bytes = drop overlap f.bytes; offset = f.offset + overlap }

-- The whole stream has arrived.
unfoldable pub finish_stream : Env → Rx → Bool → ℕ → Rx
unfolding notify put put_stream
finish_stream env r is_serv finalsz =
    let r' = notify env r recv_state_recvd finalsz in
    let s = with_recv_state r'.stream recv_state_recvd in
    record r' { table = put r'.table s is_serv false; stream = put_stream r'.table s is_serv false }

unfoldable pub queue_frame : Inq → RxFrame → Inq
queue_frame q f =
    if not (f.level == 0)
    then record q { early_list = q.early_list ++ (record f { level = 0; offset = 0 } ∷ []) }
    else record q { recv_list = q.recv_list ++ (record f { offset = 0 } ∷ []) }

-- The memory of the bytes dropped is given back, and the stream's offset moves on.
unfoldable pub advance : Rx → ℕ → RxFrame → Rx
unfolding rfree set_owner_r
advance r overlap f' =
    let s = r.stream in
    record r {
      inq = if overlap == 0 then r.inq else set_owner_r (len f') (rfree (len f' + overlap) r.inq);
      stream = record s { recv = record s.recv { offset = s.recv.offset + len f' } };
    }

-- A FIN in order is the end of the stream.
unfoldable pub finish_if : Env → Bool → Rx → RxFrame → Rx
unfolding finish_stream
finish_if env is_serv r f = if f.stream_fin then finish_stream env r is_serv (end_of f) else r

unfoldable pub deliver : Env → Bool → Rx → RxFrame → Rx
unfolding finish_if queue_frame
deliver env is_serv r f = let r' = finish_if env is_serv r f in with_inq r' (queue_frame r'.inq f)

-- `none` is an overrun.
unfoldable pub stream_tail : Env → Bool → Rx → RxFrame → Option Rx
unfolding advance deliver
stream_tail env is_serv r f =
    let overlap = r.stream.recv.offset - f.offset in
    let f' = trimmed f overlap in
    if ltb (len f) overlap then none else some (deliver env is_serv (advance r overlap f') f')

abbrev pub keep : RxFrame → Option (List RxFrame) → Option (List RxFrame)
keep g none = none
keep g (some l) = some (g ∷ l)

-- A frame in its place by stream and offset; `none` where another covers it.
unfoldable pub insert_frame : List RxFrame → RxFrame → Option (List RxFrame)
insert_frame [] f = some (f ∷ [])
insert_frame (g ∷ gs) f =
    let behind = keep g (insert_frame gs f) in
    if ltb (sid g) (sid f)
    then behind
    else if ltb (sid f) (sid g) || ltb f.offset g.offset
    then some (f ∷ g ∷ gs)
    else if leb (end_of f) (end_of g) && (g.stream_fin || not f.stream_fin)
    then none
    else behind

abbrev pub skip : RxFrame → Option (List RxFrame × Rx) → Option (List RxFrame × Rx)
skip f none = none
skip f (some (kept, r)) = some (f ∷ kept, r)

abbrev pub then_merge : Option Rx → (Rx → Option (List RxFrame × Rx)) → Option (List RxFrame × Rx)
then_merge none go = none
then_merge (some r) go = go r

abbrev pub with_frags : Rx → ℕ → Rx
with_frags r n = record r { stream = record r.stream { recv = record r.stream.recv { frags = n } } }

abbrev pub one_less : Rx → Rx
one_less r = with_frags r (sub32 r.stream.recv.frags 1)

-- The frames of the list that are now in order are delivered; the rest stays.
unfoldable pub merge : Env → Bool → ℕ → List RxFrame → Rx → Option (List RxFrame × Rx)
unfolding stream_tail rfree
merge env is_serv id [] r = some ([], r)
merge env is_serv id (f ∷ fs) r =
    let skipped = skip f (merge env is_serv id fs r) in
    let s = r.stream in
    let taken = one_less r in
    let dropped = merge env is_serv id fs (with_inq taken (rfree (len f) taken.inq)) in
    let tailed = then_merge (stream_tail env is_serv taken f) (merge env is_serv id fs) in
    if ltb (sid f) id
    then skipped
    else if ltb id (sid f) || ltb s.recv.offset f.offset
    then some (f ∷ fs, r)
    else if leb (end_of f) s.recv.offset && ((s.recv.state == recv_state_recvd) || not f.stream_fin)
    then dropped
    else tailed

-- `inq->highest` and the stream's move on together.
abbrev pub raise_highest : Rx → ℕ → Rx
raise_highest r n = record r {
  inq = record r.inq { highest = r.inq.highest + n };
  stream = record r.stream { recv = record r.stream.recv { highest = r.stream.recv.highest + n } };
}

abbrev pub buffered : Rx → ℕ → Rx
buffered r n = raise_highest (with_frags r (add32 r.stream.recv.frags 1)) n

abbrev pub with_stream_list : Rx → List RxFrame → Rx
with_stream_list r l = record r { inq = record r.inq { stream_list = l } }

-- The end of the call: the stream is in the table.
abbrev pub done : Rx → Handled
done r = handled (record r { table = write r.table r.stream })

-- The final size is another than what has arrived or was announced.
abbrev pub size_changed : Stream → ℕ → Bool
size_changed s off =
    ltb off s.recv.highest || (not (s.recv.finalsz == 0) && not (s.recv.finalsz == off))

-- The frame that waits; its FIN tells the final size.
unfoldable pub recv_placed : Env → Rx → RxFrame → ℕ → List RxFrame → Handled
unfolding notify rfree
recv_placed env r f highest l =
    if not f.stream_fin
    then done (buffered (with_stream_list r l) highest)
    else if size_changed r.stream (end_of f)
    then failed einval error_final_size (with_inq r (rfree (len f) r.inq))
    else let r1 = notify env r recv_state_size_known (end_of f) in
      let s = r1.stream in
      let r2 = record r1 {
        stream = record s {
          recv = record s.recv { state = recv_state_size_known; finalsz = end_of f };
        };
      } in
      done (buffered (with_stream_list r2 l) highest)

abbrev pub recv_covered : Env → Rx → RxFrame → ℕ → Option (List RxFrame) → Handled
recv_covered env r f highest none = done (with_inq r (rfree (len f) r.inq))
recv_covered env r f highest (some l) = recv_placed env r f highest l

-- Out of order: the frame waits in the list.
unfoldable pub recv_later : Env → Rx → RxFrame → ℕ → Handled
unfolding insert_frame recv_placed
recv_later env r f highest = recv_covered env r f highest (insert_frame r.inq.stream_list f)

abbrev pub then_handled : Option Rx → (Rx → Handled) → Handled
then_handled none go = overrun
then_handled (some r) go = go r

abbrev pub end_merge : Option (List RxFrame × Rx) → Handled
end_merge none = overrun
end_merge (some (kept, r)) = done (with_stream_list r kept)

unfoldable pub merge_rest : Env → Bool → Rx → Handled
unfolding merge
merge_rest env is_serv r =
    if r.stream.recv.frags == 0
    then done r
    else end_merge (merge env is_serv r.stream.id r.inq.stream_list r)

-- In order: the frame is delivered, and what it was missing for.
unfoldable pub recv_now : Env → Bool → Rx → RxFrame → ℕ → Handled
unfolding stream_tail merge_rest
recv_now env is_serv r f highest =
    then_handled (stream_tail env is_serv (raise_highest r highest) f) (merge_rest env is_serv)

-- Nothing new, and no FIN to be learnt.
abbrev pub is_duplicate : Stream → RxFrame → Bool
is_duplicate s f =
    leb (end_of f) s.recv.offset && ((s.recv.state == recv_state_size_known) || not f.stream_fin)

-- Does the frame go beyond what the connection, or the stream, allows?
abbrev pub exceeds : Rx → ℕ → Bool
exceeds r highest =
    ltb r.inq.max_bytes (r.inq.highest + highest)
    || ltb r.stream.recv.max_bytes (r.stream.recv.highest + highest)

abbrev pub beyond_final : Stream → ℕ → Bool
beyond_final s off = not (s.recv.finalsz == 0) && ltb s.recv.finalsz off

-- The first frame of a stream is announced.
unfoldable pub announce : Env → Rx → Rx
unfolding notify
announce env r = if r.stream.recv.highest == 0 then notify env r recv_state_recv 0 else r

unfoldable pub stream_recv : Env → Bool → Rx → RxFrame → Handled
unfolding no_room set_owner_r rfree announce recv_later recv_now
stream_recv env is_serv r f =
    let s = r.stream in
    let highest = end_of f - s.recv.highest in
    if is_duplicate s f
    then handled r
    else if no_room env r.inq (len f)
    then failed enobufs 0 r
    else let charged = with_inq r (set_owner_r (len f) r.inq) in
      let freed = with_inq charged (rfree (len f) charged.inq) in
      if ltb s.recv.highest (end_of f) && exceeds r highest
      then failed enobufs error_flow_control freed
      else if ltb s.recv.highest (end_of f) && beyond_final s (end_of f)
      then failed einval error_final_size freed
      else let r' = announce env charged in
        if ltb s.recv.offset f.offset
        then recv_later env r' f highest
        else recv_now env is_serv r' f highest
