-- ===== src/Inq.antt =====
-- modules/net/quic/inqueue.c and inqueue.h: received data on its way to the application. A frame's
-- `data` and `len` are the list of its bytes; `stream` is the ID of the stream pointed to. The
-- kernel's memory accounting, the layout of the event structures and the allocations are the fields
-- of `Env`; what wakes the reader up is not modelled.
pub mod Streams
pub mod Handshake
pub mod Flow
pub mod Params
mod Runs
use quic.Prelude.{
  ℕ, ◌+◌, ◌-◌, ◌*◌, ◌/◌, ◌%◌, ◌^◌, Bool, true, false, not, ◌&&◌, ◌||◌, ltb, leb, ◌==◌,
  if◌then◌else◌, Option, none, some, List, [], ◌∷◌, ◌++◌, length,
}
use quic.Prelude.Result.{Errno, einval, enomem, enobufs}

pub record RxFrame : Type 0 where
  pub stream : Option ℕ
  pub level : ℕ
  pub offset : ℕ
  pub bytes : List ℕ
  pub stream_fin : Bool
  pub event : Bool
  pub dgram : Bool

abbrev pub len : RxFrame → ℕ
len f = length f.bytes

-- `rmem_alloc` is the socket's count of the bytes charged for received data.
pub record Inq : Type 0 where
  pub backlog_list : List (List ℕ)
  pub handshake_list : List RxFrame
  pub stream_list : List RxFrame
  pub early_list : List RxFrame
  pub recv_list : List RxFrame
  pub max_bytes : ℕ
  pub bytes : ℕ
  pub highest : ℕ
  pub max_data : ℕ
  pub events : ℕ
  pub rmem_alloc : ℕ

-- `schedule` is `quic_sk_rmem_schedule`, which asks the kernel for memory; `alloc` tells whether the
-- frame of an event can be allocated; `update_bytes` is `struct quic_stream_update` in memory, for
-- an ID, a state and a final size; `ticket_memory n` is the socket's memory, `n` bytes of it, from
-- its `struct quic_data ticket` on.
pub record Env : Type 0 where
  pub rcvbuf : ℕ
  pub schedule : ℕ → Bool
  pub alloc : List ℕ → Bool
  pub update_bytes : ℕ → ℕ → ℕ → List ℕ
  pub ticket_memory : ℕ → List ℕ

abbrev pub event_stream_update : ℕ
event_stream_update = 1

abbrev pub event_new_session_ticket : ℕ
event_new_session_ticket = 9

abbrev pub event_max : ℕ
event_max = 10

unfoldable pub rfree : ℕ → Inq → Inq
rfree n q = record q { rmem_alloc = q.rmem_alloc - n }

unfoldable pub set_owner_r : ℕ → Inq → Inq
set_owner_r n q = record q { rmem_alloc = q.rmem_alloc + n }

-- Has the receive buffer, or the kernel, no room for `n` bytes more?
unfoldable pub no_room : Env → Inq → ℕ → Bool
no_room env q n = ltb env.rcvbuf (q.rmem_alloc + n) || not (env.schedule n)

-- An event frame goes before the first frame of stream or datagram data.
unfoldable pub insert_event : List RxFrame → RxFrame → List RxFrame
insert_event [] f = f ∷ []
insert_event (g ∷ gs) f =
    if (g.level == 0) && not g.event then f ∷ g ∷ gs else g ∷ insert_event gs f

abbrev pub event_frame : List ℕ → RxFrame
event_frame content = record {
  stream = none;
  level = 0;
  offset = 0;
  bytes = content;
  stream_fin = false;
  event = true;
  dgram = false;
}

abbrev pub has_event : Inq → ℕ → Bool
has_event q event = not (q.events / 2 ^ event % 2 == 0)

-- The result is 0 (`none`) or the error.
unfoldable pub event_recv : Env → Inq → ℕ → List ℕ → Inq × Option Errno
unfolding insert_event set_owner_r
event_recv env q event payload =
    if (event == 0) || leb event_max event
    then (q, some einval)
    else if not (has_event q event)
    then (q, none)
    else if not (env.alloc (event ∷ payload))
    then (q, some enomem)
    else (
      set_owner_r (length (event ∷ payload))
          (record q { recv_list = insert_event q.recv_list (event_frame (event ∷ payload)) }),
      none,
    )

unfoldable pub dgram_recv : Env → Inq → RxFrame → Inq × Option Errno
unfolding no_room set_owner_r
dgram_recv env q f = if no_room env q (len f) then (q, some enobufs) else (
  set_owner_r (len f)
      (record q { recv_list = q.recv_list ++ (record f { dgram = true; offset = 0 } ∷ []) }),
  none,
)

unfoldable pub data_read : Inq → ℕ → Inq
unfolding rfree
data_read q n = rfree n q

abbrev pub inq_backlog_max : ℕ
inq_backlog_max = 128

-- A packet beyond the limit is dropped.
unfoldable pub backlog_tail : Inq → List ℕ → Inq
backlog_tail q skb =
    if leb inq_backlog_max (length q.backlog_list)
    then q
    else record q { backlog_list = q.backlog_list ++ (skb ∷ []) }

abbrev pub of_stream : Option ℕ → RxFrame → Bool
of_stream none f = true
of_stream (some id) f = elim f.stream [ none ↦ false | some i ↦ i == id ]

-- The frames of a stream, or all of them, taken out of a list; and how many bytes they held.
unfoldable pub list_purge : List RxFrame → Option ℕ → List RxFrame × ℕ
list_purge [] which = ([], 0)
list_purge (f ∷ fs) which =
    let (kept, bytes) = list_purge fs which in
    if of_stream which f then (kept, bytes + len f) else (f ∷ kept, bytes)
