-- ===== src/Stream/Ops.antt =====
-- The operations of stream.c: to open, to look up, to release, and to advertise new limits. `mem i`
-- tells whether the `i`-th allocation of a call succeeds.
use quic.Prelude.{
  ℕ, zero, suc, ◌+◌, ◌-◌, ◌/◌, ◌%◌, Bool, true, not, ◌&&◌, ◌||◌, ltb, ◌==◌, if◌then◌else◌, Option,
  none, some, List, [], ◌∷◌, length,
}
use quic.Prelude.Words.{u16_mod, add64, sub64}
use quic.Prelude.Result.{einval, enostr, eagain, Result, ok, err}
use quic.Stream.{
  Stream, StreamLimits, StreamTable, slt, sle, stream_id_step, send_state_ready, send_state_recvd,
  send_state_reset_recvd, recv_state_recvd, id_to_streams, id_valid, id_local, id_uni, find, add,
  delete, write, new_stream,
}

-- The loop that allocates the streams up to `last`, newest first; `none` where an allocation fails.
unfoldable pub create_loop :
    ℕ → StreamTable → Bool → Bool → (ℕ → Bool) → ℕ → ℕ → List Stream → Option (ℕ × List Stream)
unfolding new_stream
create_loop zero t send is_serv mem last id made = none
create_loop (suc fuel) t send is_serv mem last id made =
    let rest =
      create_loop fuel t send is_serv (λ i. mem (suc i)) last (add64 id stream_id_step)
        (new_stream t send is_serv id ∷ made) in
    if not (sle id last) then some (id, made) else if not (mem 0) then none else rest

unfoldable pub add_all : List Stream → StreamTable → StreamTable
add_all [] t = t
add_all (s ∷ ss) t = add_all ss (add t s)

abbrev pub next_id : StreamLimits → ℕ → ℕ
next_id l id = if id_uni id then l.next_uni_stream_id else l.next_bidi_stream_id

-- The next ID and the count behind `count` new streams.
unfoldable pub opened : StreamLimits → ℕ → ℕ → StreamLimits
opened l id count =
    if id_uni id
    then record l { next_uni_stream_id = id; streams_uni = (l.streams_uni + count) % u16_mod }
    else record l { next_bidi_stream_id = id; streams_bidi = (l.streams_bidi + count) % u16_mod }

abbrev pub limits : StreamTable → Bool → StreamLimits
limits t send = if send then t.send else t.recv

abbrev pub with_limits : StreamTable → Bool → StreamLimits → StreamTable
with_limits t send l = if send then record t { send = l } else record t { recv = l }

-- The stream returned is the last one allocated.
unfoldable pub create : StreamTable → ℕ → Bool → Bool → (ℕ → Bool) → Option (StreamTable × Stream)
unfolding create_loop add_all opened
create t last send is_serv mem =
    let first = next_id (limits t send) last in
    elim (create_loop (last / 4 + 2) t send is_serv mem last first []) [
      | none ↦ none
      | some (_, []) ↦ none
      | some (id, s ∷ ss) ↦
          let t' = add_all (s ∷ ss) t in
          some (with_limits t' send (opened (limits t' send) id (length (s ∷ ss))), s)
    ]

unfoldable pub id_closed : StreamTable → ℕ → Bool → Bool
id_closed t id send = slt id (next_id (limits t send) id)

unfoldable pub id_exceeds : StreamTable → ℕ → Bool → Bool
id_exceeds t id send =
    if not send
    then if id_uni id then slt t.recv.max_uni_stream_id id else slt t.recv.max_bidi_stream_id id
    else if id_uni id
    then slt t.send.max_uni_stream_id id
      || ltb t.send.max_streams_uni
          (add64 (id_to_streams (sub64 id t.send.next_uni_stream_id)) t.send.streams_uni)
    else slt t.send.max_bidi_stream_id id
      || ltb t.send.max_streams_bidi
          (add64 (id_to_streams (sub64 id t.send.next_bidi_stream_id)) t.send.streams_bidi)

-- A new stream becomes the active one where this side can send on it.
abbrev pub set_active : StreamTable → ℕ → Bool → Bool → StreamTable
set_active t id is_serv send =
    if send || id_valid id is_serv (not send)
    then record t { send = record t.send { active_stream_id = id } }
    else t

-- `new` is the flag MSG_QUIC_STREAM_NEW.
unfoldable pub get :
    StreamTable → ℕ → Bool → Bool → Bool → (ℕ → Bool) → Result (StreamTable × Stream)
unfolding create id_closed id_exceeds
get t id new is_serv send mem =
    if not (id_valid id is_serv send) then err einval else elim (find t id) [
      | some s ↦
          if send && new && not (s.send.state == send_state_ready) then err einval else ok (t, s)
      | none ↦
          if not send && id_local id is_serv
          then if id_closed t id (not send) then err enostr else err einval
          else if id_closed t id send
          then err enostr
          else if send && not new
          then err einval
          else if id_exceeds t id send
          then err eagain
          else elim (create t id send is_serv mem) [
            | none ↦ err enostr
            | some (t', s) ↦ ok (set_active t' id is_serv send, s)
          ]
    ]

abbrev pub dec16 : ℕ → ℕ
dec16 n = (n + u16_mod - 1) % u16_mod

-- The last lines of `quic_stream_put`: a fully read or reset stream is deleted.
unfoldable pub reap : StreamTable → Stream → StreamTable
unfolding write delete
reap t s = if ltb recv_state_recvd s.recv.state then delete t s.id else write t s

-- The count of a stream that both sides are done with, once.
unfoldable pub release_bidi : StreamTable → Stream → Bool → StreamTable × Stream
release_bidi t s is_serv =
    if id_local s.id is_serv
    then if s.send.done then (t, s) else (
      record t { send = record t.send { streams_bidi = dec16 t.send.streams_bidi } },
      record s { send = record s.send { done = true } },
    )
    else if s.recv.done
    then (t, s)
    else (
      record t {
        recv = record t.recv { streams_bidi = dec16 t.recv.streams_bidi; bidi_pending = true };
      },
      record s { recv = record s.recv { done = true } },
    )

unfoldable pub release_uni : StreamTable → Stream → StreamTable × Stream
release_uni t s = if s.recv.done then (t, s) else (
  record t { recv = record t.recv { streams_uni = dec16 t.recv.streams_uni; uni_pending = true } },
  record s { recv = record s.recv { done = true } },
)

-- Is the other side of a bidirectional stream still at work?
abbrev pub half_open : Stream → Bool → Bool
half_open s send =
    if send
    then ltb s.recv.state recv_state_recvd
    else not (s.send.state == send_state_recvd) && not (s.send.state == send_state_reset_recvd)

unfoldable pub put : StreamTable → Stream → Bool → Bool → StreamTable
unfolding reap release_bidi release_uni delete
put t s is_serv send =
    if id_uni s.id
    then if send
      then delete (record t { send = record t.send { streams_uni = dec16 t.send.streams_uni } })
          s.id
      else (let (t', s') = release_uni t s in reap t' s')
    else if half_open s send
    then t
    else (let (t', s') = release_bidi t s is_serv in reap t' s')

-- The stream behind `quic_stream_put`, which marks it done at most.
unfoldable pub put_stream : StreamTable → Stream → Bool → Bool → Stream
unfolding release_bidi release_uni
put_stream t s is_serv send =
    if id_uni s.id
    then if send then s else (release_uni t s).1
    else if half_open s send
    then s
    else (release_bidi t s is_serv).1
