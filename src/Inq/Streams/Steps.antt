-- ===== src/Inq/Streams/Steps.antt =====
-- What the merge of quic_inq_stream_recv does with the first frame of the list.
use quic.Prelude.{
  ℕ, ◌≤◌, ◌<◌, ◌≡◌, ◌⊎◌, inl, inr, refl, arith, Bool, true, false, not, ◌&&◌, ◌||◌, ltb, leb, ◌==◌,
  if◌then◌else◌, none, some, ◌-◌, sym, subst, List, [], ◌∷◌, Bool-cases,
}
use quic.Stream.{recv_state_recvd, Stream, StreamTable}
use quic.Stream.Ops.{put_stream, release_bidi, release_uni}
use quic.Inq.{RxFrame, Env, len, rfree, set_owner_r, event_recv}
use quic.Inq.Streams.{
  Rx, sid, end_of, merge, skip, then_merge, one_less, with_inq, stream_tail, advance, deliver,
  trimmed, finish_if, finish_stream, notify, queue_frame, with_recv_state, announce,
  recv_state_recv,
}

abbrev pub drop_first : Rx → RxFrame → Rx
drop_first r f = with_inq (one_less r) (rfree (len f) r.inq)

pub data MergeStep (env : Env) (is_serv : Bool) (id : ℕ) (f : RxFrame) (fs : List RxFrame) (r : Rx)
    : Type 0 where
  of_earlier :
      sid f < id
      → merge env is_serv id (f ∷ fs) r ≡ skip f (merge env is_serv id fs r)
      → MergeStep env is_serv id f fs r
  at_end :
      (id < sid f) ⊎ ((sid f ≡ id) × (r.stream.recv.offset < f.offset))
      → merge env is_serv id (f ∷ fs) r ≡ some (f ∷ fs, r)
      → MergeStep env is_serv id f fs r
  old :
      sid f ≡ id
      → end_of f ≤ r.stream.recv.offset
      → merge env is_serv id (f ∷ fs) r ≡ merge env is_serv id fs (drop_first r f)
      → MergeStep env is_serv id f fs r
  due :
      sid f ≡ id
      → f.offset ≤ r.stream.recv.offset
      → (r.stream.recv.offset ≤ end_of f) ⊎ (f.stream_fin ≡ true)
      → merge env is_serv id (f ∷ fs) r
        ≡ then_merge (stream_tail env is_serv (one_less r) f) (merge env is_serv id fs)
      → MergeStep env is_serv id f fs r

at_end_lem :
    (i id off o : ℕ)
    → ltb i id ≡ false
    → (ltb id i || ltb off o) ≡ true
    → (id < i) ⊎ ((i ≡ id) × (off < o))
at_end_lem i id off o a b = ground arith

due_lem :
    (i id off o e : ℕ) (recvd fin : Bool)
    → ltb i id ≡ false
    → (ltb id i || ltb off o) ≡ false
    → (leb e off && (recvd || not fin)) ≡ false
    → (i ≡ id) × (o ≤ off) × ((off ≤ e) ⊎ (fin ≡ true))
due_lem i id off o e recvd fin a b c = ground arith

old_lem :
    (i id off o e : ℕ) (c : Bool)
    → ltb i id ≡ false
    → (ltb id i || ltb off o) ≡ false
    → (leb e off && c) ≡ true
    → (i ≡ id) × (e ≤ off)
old_lem i id off o e c a b h = ground arith

pub merge-nil :
    (env : Env) (is_serv : Bool) (id : ℕ) (r : Rx) → merge env is_serv id [] r ≡ some ([], r)
unfolding merge
merge-nil env is_serv id r = refl

pub merge_step :
    (env : Env) (is_serv : Bool) (id : ℕ) (f : RxFrame) (fs : List RxFrame) (r : Rx)
    → MergeStep env is_serv id f fs r
unfolding merge
merge_step env is_serv id f fs r =
    let off = r.stream.recv.offset in
    let past = ltb id (sid f) || ltb off f.offset in
    let recvd = r.stream.recv.state == recv_state_recvd in
    let stale = leb (end_of f) off && (recvd || not f.stream_fin) in
    elim (Bool-cases (ltb (sid f) id)) [
      | inl lower ↦ of_earlier (ground (arith, lower)) (rw lower refl)
      | inr a ↦ elim (Bool-cases past) [
        | inl b ↦ at_end (at_end_lem (sid f) id off f.offset a b) (rw a (rw b refl))
        | inr b ↦ elim (Bool-cases stale) [
          | inl c ↦
              let (mine, past_it) =
                old_lem (sid f) id off f.offset (end_of f) (recvd || not f.stream_fin) a b c in
              old mine past_it (rw a (rw b (rw c refl)))
          | inr c ↦
              let (mine, starts, ends) =
                due_lem (sid f) id off f.offset (end_of f) recvd f.stream_fin a b c in
              due mine starts ends (rw a (rw b (rw c refl)))
        ]
      ]
    ]

-- What the delivery of a frame leaves as it is.
pub record Keeps (r r' : Rx) : Type 0 where
  pub id : r'.stream.id ≡ r.stream.id
  pub waiting : r'.inq.stream_list ≡ r.inq.stream_list
  pub highest : r'.inq.highest ≡ r.inq.highest
  pub max_bytes : r'.inq.max_bytes ≡ r.inq.max_bytes
  pub stream_highest : r'.stream.recv.highest ≡ r.stream.recv.highest
  pub stream_max_bytes : r'.stream.recv.max_bytes ≡ r.stream.recv.max_bytes
  pub frags : r'.stream.recv.frags ≡ r.stream.recv.frags

pub event_recv-Keeps :
    (env : Env) (r : Rx) (event : ℕ) (payload : List ℕ)
    → Keeps r (with_inq r (event_recv env r.inq event payload).0)
unfolding event_recv set_owner_r
event_recv-Keeps env r event payload = record {
  id = refl;
  waiting = ground arith;
  highest = ground arith;
  max_bytes = ground arith;
  stream_highest = refl;
  stream_max_bytes = refl;
  frags = refl;
}

put_stream_recv :
    (t : StreamTable) (s : Stream) (is_serv send : Bool)
    → ((put_stream t s is_serv send).recv.highest ≡ s.recv.highest)
      × ((put_stream t s is_serv send).recv.max_bytes ≡ s.recv.max_bytes)
      × ((put_stream t s is_serv send).recv.frags ≡ s.recv.frags)
      × ((put_stream t s is_serv send).id ≡ s.id)
unfolding put_stream release_bidi release_uni
put_stream_recv t s is_serv send = ground arith

finish_if-Keeps :
    (env : Env) (is_serv : Bool) (r : Rx) (f : RxFrame) → Keeps r (finish_if env is_serv r f)
unfolding finish_if finish_stream notify
finish_if-Keeps env is_serv r f =
    let k = event_recv-Keeps env r 1 (env.update_bytes r.stream.id 8 (end_of f)) in
    let (high, limit, count, same) =
      put_stream_recv r.table (with_recv_state r.stream 8) is_serv false in
    record {
      id = ground (arith, same);
      waiting = ground (arith, k.waiting);
      highest = ground (arith, k.highest);
      max_bytes = ground (arith, k.max_bytes);
      stream_highest = ground (arith, high);
      stream_max_bytes = ground (arith, limit);
      frags = ground (arith, count);
    }

deliver-Keeps :
    (env : Env) (is_serv : Bool) (r : Rx) (f : RxFrame) → Keeps r (deliver env is_serv r f)
unfolding deliver queue_frame
deliver-Keeps env is_serv r f =
    let k = finish_if-Keeps env is_serv r f in
    record {
      id = k.id;
      waiting = ground (arith, k.waiting);
      highest = ground (arith, k.highest);
      max_bytes = ground (arith, k.max_bytes);
      stream_highest = k.stream_highest;
      stream_max_bytes = k.stream_max_bytes;
      frags = k.frags;
    }

if_some {ℓ} :
    {A : Type ℓ} (c : Bool) (x y : A)
    → (if c then none else some x) ≡ some y
    → (c ≡ false) × (y ≡ x)
if_some true x y e = absurd (ground (arith, e))
if_some false x y e = (refl, sym (cc e))

abbrev pub overlap : Rx → RxFrame → ℕ
overlap r f = r.stream.recv.offset - f.offset

pub stream_tail-some :
    (env : Env) (is_serv : Bool) (r r' : Rx) (f : RxFrame)
    → stream_tail env is_serv r f ≡ some r'
    → (overlap r f ≤ len f)
      × (r'
          ≡ deliver env is_serv
              (advance r (overlap r f) (trimmed f (overlap r f)))
              (trimmed f (overlap r f)))
unfolding stream_tail
stream_tail-some env is_serv r r' f run =
    let f' = trimmed f (overlap r f) in
    let (fits, same) =
      if_some (ltb (len f) (overlap r f)) (deliver env is_serv (advance r (overlap r f) f') f') r'
        run in
    (ground (arith, fits), same)

Keeps-advance : (r r' : Rx) (o : ℕ) (f : RxFrame) → Keeps (advance r o f) r' → Keeps r r'
unfolding advance rfree set_owner_r
Keeps-advance r r' o f k = record {
  id = k.id;
  waiting = ground (arith, k.waiting);
  highest = ground (arith, k.highest);
  max_bytes = ground (arith, k.max_bytes);
  stream_highest = k.stream_highest;
  stream_max_bytes = k.stream_max_bytes;
  frags = k.frags;
}

pub stream_tail-Keeps :
    (env : Env) (is_serv : Bool) (r r' : Rx) (f : RxFrame)
    → stream_tail env is_serv r f ≡ some r'
    → Keeps r r'
stream_tail-Keeps env is_serv r r' f run =
    let f' = trimmed f (overlap r f) in
    let moved = advance r (overlap r f) f' in
    let same = (stream_tail-some env is_serv r r' f run).1 in
    Keeps-advance r r' (overlap r f) f'
      (subst (λ x. Keeps moved x) (sym same) (deliver-Keeps env is_serv moved f'))

pub announce_same :
    (env : Env) (r : Rx)
    → ((announce env r).stream ≡ r.stream) × ((announce env r).inq.stream_list ≡ r.inq.stream_list)
unfolding announce notify
announce_same env r = elim (Bool-cases (r.stream.recv.highest == 0)) [
  | inl first ↦
      rw first
        (refl, (event_recv-Keeps env r 1 (env.update_bytes r.stream.id recv_state_recv 0)).waiting)
  | inr again ↦ rw again (refl, refl)
]
