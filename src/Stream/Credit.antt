-- ===== src/Stream/Credit.antt =====
-- The credit that the peer has for opening streams, and the update of it.
use quic.Prelude.{
  ℕ, ◌+◌, ◌-◌, ◌*◌, ◌/◌, ◌≤◌, ◌<◌, ◌≡◌, ◌∙◌, ap, sym, Bool, true, false, not, ◌||◌, ◌==◌, arith,
}
use quic.Prelude.Words.{u16_mod}
use quic.Stream.{
  Stream, StreamTable, StreamLimits, delete, write, with_bucket, id_uni, id_to_streams,
}
use quic.Stream.Ops.{put, reap, release_uni, dec16}
use quic.Stream.Limits.{max_streams_update, update_uni, update_bidi, window_end}

-- The limit for unidirectional streams is the ID that the open ones and the credit give.
abbrev pub IsSettledUni : StreamLimits → Type 0
IsSettledUni r =
    (r.uni_pending ≡ false)
    × (r.streams_uni ≤ r.max_streams_uni)
    × (r.streams_uni < u16_mod)
    × (r.max_streams_uni < 0x1_0000_0000)
    × (r.next_uni_stream_id < 0x4000_0000_0000_0000)
    × (r.max_uni_stream_id + 4 ≡ r.next_uni_stream_id + (r.max_streams_uni - r.streams_uni) * 4)

recv-put_uni :
    (t : StreamTable) (s : Stream) (is_serv : Bool)
    → id_uni s.id ≡ true
    → s.recv.done ≡ false
    → (put t s is_serv false).recv
      ≡ record t.recv { streams_uni = dec16 t.recv.streams_uni; uni_pending = true }
unfolding put reap release_uni delete write with_bucket
recv-put_uni t s is_serv uni not_done = ground arith

update_lem :
    (t : StreamTable)
    → t.recv.uni_pending ≡ true
    → let u = max_streams_update t in
      let end = window_end t.recv.next_uni_stream_id t.recv.max_streams_uni t.recv.streams_uni in
      (u.table.recv.max_uni_stream_id ≡ end)
      × (u.max_uni ≡ id_to_streams end)
      × (u.table.recv.uni_pending ≡ false)
      × (u.table.recv.next_uni_stream_id ≡ t.recv.next_uni_stream_id)
      × (u.table.recv.max_streams_uni ≡ t.recv.max_streams_uni)
      × (u.table.recv.streams_uni ≡ t.recv.streams_uni)
      × (u.changed ≡ (not (u.max_uni == 0) || not (u.max_bidi == 0)))
unfolding max_streams_update update_uni update_bidi
update_lem t pending = ground arith

window_end_lem :
    (next max_streams streams : ℕ)
    → 0 < streams
    → streams ≤ max_streams
    → streams < u16_mod
    → max_streams < 0x1_0000_0000
    → next < 0x4000_0000_0000_0000
    → window_end next max_streams (dec16 streams) ≡ next + (max_streams - streams) * 4
window_end_lem next max_streams streams pos le small small' small'' = omega arith

id_to_streams_small : (id : ℕ) → id < 0x4000_0100_0000_0000 → id_to_streams id ≡ id / 4 + 1
unfolding id_to_streams
id_to_streams_small id small = ground arith

one_more :
    (next max_streams streams max_id : ℕ)
    → 0 < streams
    → streams ≤ max_streams
    → streams < u16_mod
    → max_streams < 0x1_0000_0000
    → next < 0x4000_0000_0000_0000
    → max_id + 4 ≡ next + (max_streams - streams) * 4
    → let end = window_end next max_streams (dec16 streams) in
      (end ≡ max_id + 4) × (id_to_streams end ≡ end / 4 + 1)
one_more next max_streams streams max_id pos le small small' small'' h =
    let end_is = window_end_lem next max_streams streams pos le small small' small'' in
    (omega (arith, end_is), id_to_streams_small _ (omega (arith, end_is)))

nonzero_or : (a b : ℕ) → 0 < a → (not (a == 0) || not (b == 0)) ≡ true
nonzero_or a b pos = ground arith

-- From settled limits, once the application is done with a unidirectional stream of the peer that was
-- not done before, the next update raises the limit by one stream, reports the new number of
-- streams as changed, and leaves the limits settled.
pub update-put_uni :
    (t : StreamTable) (s : Stream) (is_serv : Bool)
    → IsSettledUni t.recv
    → id_uni s.id ≡ true
    → s.recv.done ≡ false
    → 0 < t.recv.streams_uni
    → let u = max_streams_update (put t s is_serv false) in
      (u.table.recv.max_uni_stream_id ≡ t.recv.max_uni_stream_id + 4)
      × (u.max_uni ≡ u.table.recv.max_uni_stream_id / 4 + 1)
      × (u.changed ≡ true)
      × IsSettledUni u.table.recv
update-put_uni t s is_serv settled uni not_done some_open =
    let r = t.recv in
    let (_, le, small, small', small'', is_end) = settled in
    let same = recv-put_uni t s is_serv uni not_done in
    let (end_is, count_is) =
      one_more r.next_uni_stream_id r.max_streams_uni r.streams_uni r.max_uni_stream_id some_open le
        small small' small'' is_end in
    let (max_is, told, done, next_is, cap_is, open_is, changed) =
      update_lem (put t s is_serv false) (ap (λ x. x.uni_pending) same) in
    let end_same = ap (λ x. window_end x.next_uni_stream_id x.max_streams_uni x.streams_uni) same in
    let max_new = max_is ∙ end_same in
    let told_new = told ∙ ap id_to_streams end_same ∙ count_is in
    let next_new = next_is ∙ ap (λ x. x.next_uni_stream_id) same in
    let cap_new = cap_is ∙ ap (λ x. x.max_streams_uni) same in
    let open_new = open_is ∙ ap (λ x. x.streams_uni) same in
    (
      max_new ∙ end_is,
      told_new ∙ ap (λ x. x / 4 + 1) (sym max_new),
      changed
          ∙ nonzero_or (max_streams_update (put t s is_serv false)).max_uni
              (max_streams_update (put t s is_serv false)).max_bidi (omega (arith, told_new)),
      (
        done,
        omega (arith, cap_new, open_new),
        omega (arith, open_new),
        omega (arith, cap_new),
        omega (arith, next_new),
        omega (arith, max_new, end_is, next_new, cap_new, open_new),
      ),
    )
