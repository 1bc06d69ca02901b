-- ===== src/Stream/Limits.antt =====
-- The limits of stream.c: the transport parameters that set them, and the update that advertises
-- new ones for the streams released.
use quic.Prelude.{ℕ, ◌+◌, ◌-◌, Bool, false, not, ◌||◌, ◌==◌, if◌then◌else◌, []}
use quic.Prelude.Words.{u64_mod, add64, sub64, mul64}
use quic.Prelude.Result.{enomem, Result, ok, err}
use quic.Stream.{StreamTable, stream_id_step, id_to_streams, streams_to_id}
use quic.Stream.Ops.{limits, with_limits}

-- The fields of `struct quic_transport_param` that streams use.
pub record TransportParam : Type 0 where
  pub remote : Bool
  pub max_stream_data_bidi_remote : ℕ
  pub max_stream_data_bidi_local : ℕ
  pub max_stream_data_uni : ℕ
  pub max_streams_bidi : ℕ
  pub max_streams_uni : ℕ

unfoldable pub init : StreamTable → Bool → Result StreamTable
init t mem = if mem then ok (record t { head = λ i. [] }) else err enomem

unfoldable pub get_param : StreamTable → TransportParam → TransportParam
get_param t p =
    let l = limits t p.remote in
    record p {
      max_stream_data_bidi_remote = l.max_stream_data_bidi_remote;
      max_stream_data_bidi_local = l.max_stream_data_bidi_local;
      max_stream_data_uni = l.max_stream_data_uni;
      max_streams_bidi = l.max_streams_bidi;
      max_streams_uni = l.max_streams_uni;
    }

-- The initiator whose streams the limits are for: the client's IDs are even.
abbrev pub initiator : Bool → Bool → ℕ
initiator remote is_serv = if remote then (if is_serv then 1 else 0) else if is_serv then 0 else 1

unfoldable pub set_param : StreamTable → TransportParam → Bool → StreamTable
unfolding streams_to_id
set_param t p is_serv =
    let l = limits t p.remote in
    let bidi_type = initiator p.remote is_serv in
    let uni_type = initiator p.remote is_serv + 2 in
    with_limits t p.remote (record l {
      max_stream_data_bidi_remote = p.max_stream_data_bidi_remote;
      max_stream_data_bidi_local = p.max_stream_data_bidi_local;
      max_stream_data_uni = p.max_stream_data_uni;
      max_streams_bidi = p.max_streams_bidi;
      max_streams_uni = p.max_streams_uni;
      active_stream_id = u64_mod - 1;
      max_bidi_stream_id = streams_to_id p.max_streams_bidi bidi_type;
      next_bidi_stream_id = bidi_type;
      max_uni_stream_id = streams_to_id p.max_streams_uni uni_type;
      next_uni_stream_id = uni_type;
    })

-- The largest ID for `max_streams` streams, of which `streams` are open.
abbrev pub window_end : ℕ → ℕ → ℕ → ℕ
window_end next max_streams streams =
    add64 (sub64 next stream_id_step) (mul64 (sub64 max_streams streams) 4)

unfoldable pub update_uni : StreamTable → StreamTable × ℕ
unfolding id_to_streams
update_uni t =
    let r = t.recv in
    let end = window_end r.next_uni_stream_id r.max_streams_uni r.streams_uni in
    if r.uni_pending
    then (
      record t { recv = record r { max_uni_stream_id = end; uni_pending = false } },
      id_to_streams end,
    )
    else (t, 0)

unfoldable pub update_bidi : StreamTable → StreamTable × ℕ
unfolding id_to_streams
update_bidi t =
    let r = t.recv in
    let end = window_end r.next_bidi_stream_id r.max_streams_bidi r.streams_bidi in
    if r.bidi_pending
    then (
      record t { recv = record r { max_bidi_stream_id = end; bidi_pending = false } },
      id_to_streams end,
    )
    else (t, 0)

pub record StreamsUpdate : Type 0 where
  pub table : StreamTable
  pub max_uni : ℕ
  pub max_bidi : ℕ
  pub changed : Bool

unfoldable pub max_streams_update : StreamTable → StreamsUpdate
unfolding update_uni update_bidi
max_streams_update t =
    let (t1, max_uni) = update_uni t in
    let (t2, max_bidi) = update_bidi t1 in
    record {
      table = t2;
      max_uni = max_uni;
      max_bidi = max_bidi;
      changed = not (max_uni == 0) || not (max_bidi == 0);
    }
