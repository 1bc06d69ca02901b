-- ===== src/Inq/Streams/Delivery.antt =====
-- What the application gets: the stream's bytes in order, each one once.
use quic.Prelude.{
  ℕ, subst, ◌+◌, ◌-◌, ◌≤◌, ◌≡◌, ◌⊎◌, refl, sym, ap, ◌∙◌, Bool, true, false, ltb, some, List, [],
  ◌∷◌, ◌++◌, length, drop, arith, inl, inr, Bool-cases, All,
}
use mathlib.Core.List.{append_assoc, append-nil}
use quic.Stream.{Stream, StreamTable}
use quic.Stream.Ops.{put_stream, release_bidi, release_uni}
use quic.Inq.{RxFrame, of_stream, Inq, Env, len, rfree, set_owner_r}
use quic.Inq.Streams.{
  Rx, sid, end_of, notify, finish_stream, stream_tail, advance, deliver, finish_if, trimmed,
  queue_frame, merge, skip, then_merge, one_less, with_recv_state,
}
use quic.Inq.Streams.Steps.{of_earlier, at_end, old, due, merge_step, merge-nil, drop_first}
use quic.Inq.Streams.Slices.{
  slice, length-slice, drop-slice, slice-append, slice-cong, data_of, data_of-append,
  data_of-event_recv,
}

-- A frame of the stream whose bytes are `d` and whose final size is `size`.
pub record IsPiece (d : ℕ → ℕ) (size : ℕ) (id : ℕ) (f : RxFrame) : Type 0 where
  pub stream : f.stream ≡ some id
  pub level : f.level ≡ 0
  pub bytes : f.bytes ≡ slice d f.offset (len f)
  pub within : end_of f ≤ size
  pub final : f.stream_fin ≡ true → end_of f ≡ size

pub reaches_end :
    (d : ℕ → ℕ) (size id : ℕ) (f : RxFrame) (offset : ℕ)
    → IsPiece d size id f
    → offset ≤ size
    → (offset ≤ end_of f) ⊎ (f.stream_fin ≡ true)
    → offset ≤ end_of f
reaches_end d size id f offset piece below (inl ends) = ends
reaches_end d size id f offset piece below (inr fin) = omega (arith, below, piece.final fin)

abbrev pub PiecesIn : (ℕ → ℕ) → ℕ → ℕ → List RxFrame → Type 0
PiecesIn d size id fs = All (λ g. sid g ≡ id → IsPiece d size id g) fs

-- So is each frame of the stream that waits.
abbrev pub Pieces : (ℕ → ℕ) → ℕ → Rx → Type 0
Pieces d size r = PiecesIn d size r.stream.id r.inq.stream_list

pub Pieces-kept :
    (d : ℕ → ℕ) (size : ℕ) (r r' : Rx)
    → r'.stream.id ≡ r.stream.id
    → r'.inq.stream_list ≡ r.inq.stream_list
    → Pieces d size r
    → Pieces d size r'
Pieces-kept d size r r' same waiting pieces =
    subst (λ i. PiecesIn d size i r'.inq.stream_list) (sym same)
      (subst (λ l. PiecesIn d size r.stream.id l) (sym waiting) pieces)

-- From `r` to `r'`, the bytes between the two offsets were delivered, and nothing else.
pub record Delivers (d : ℕ → ℕ) (r r' : Rx) : Type 0 where
  pub id : r'.stream.id ≡ r.stream.id
  pub forward : r.stream.recv.offset ≤ r'.stream.recv.offset
  pub bytes :
      data_of r.stream.id r'.inq.recv_list
      ≡ data_of r.stream.id r.inq.recv_list
        ++ slice d r.stream.recv.offset (r'.stream.recv.offset - r.stream.recv.offset)

put_stream_keeps :
    (t : StreamTable) (s : Stream) (is_serv send : Bool)
    → ((put_stream t s is_serv send).id ≡ s.id)
      × ((put_stream t s is_serv send).recv.offset ≡ s.recv.offset)
unfolding put_stream release_bidi release_uni
put_stream_keeps t s is_serv send = ground arith

finish_stream_keeps :
    (env : Env) (is_serv : Bool) (r : Rx) (finalsz id : ℕ)
    → (data_of id (finish_stream env r is_serv finalsz).inq.recv_list ≡ data_of id r.inq.recv_list)
      × ((finish_stream env r is_serv finalsz).stream.id ≡ r.stream.id)
      × ((finish_stream env r is_serv finalsz).stream.recv.offset ≡ r.stream.recv.offset)
unfolding finish_stream notify
finish_stream_keeps env is_serv r finalsz id =
    let kept = put_stream_keeps r.table (with_recv_state r.stream 8) is_serv false in
    (data_of-event_recv id env r.inq 1 (env.update_bytes r.stream.id 8 finalsz), kept.0, kept.1)

-- The delivered data of a frame that holds the next bytes, or some before them.
pub trimmed_bytes :
    (d : ℕ → ℕ) (f : RxFrame) (offset : ℕ)
    → f.bytes ≡ slice d f.offset (len f)
    → f.offset ≤ offset
    → drop (offset - f.offset) f.bytes ≡ slice d offset (end_of f - offset)
trimmed_bytes d f offset held starts =
    ap (λ l. drop (offset - f.offset) l) held
    ∙ drop-slice d (offset - f.offset) f.offset (len f)
    ∙ slice-cong d (omega (arith, starts)) (omega (arith, starts))

pub trimmed_length :
    (d : ℕ → ℕ) (f : RxFrame) (offset : ℕ)
    → f.bytes ≡ slice d f.offset (len f)
    → f.offset ≤ offset
    → length (drop (offset - f.offset) f.bytes) ≡ end_of f - offset
trimmed_length d f offset held starts =
    ap (λ l. length l) (trimmed_bytes d f offset held starts)
    ∙ length-slice d offset (end_of f - offset)

data_of-single : (id : ℕ) (f : RxFrame) → f.stream ≡ some id → data_of id (f ∷ []) ≡ f.bytes
unfolding data_of
data_of-single id f mine =
    let on : of_stream (some id) f ≡ true = ground (arith, mine) in rw on (append-nil f.bytes)

data_of-queue_frame :
    (id : ℕ) (q : Inq) (f : RxFrame)
    → f.level ≡ 0
    → f.stream ≡ some id
    → data_of id (queue_frame q f).recv_list ≡ data_of id q.recv_list ++ f.bytes
unfolding queue_frame
data_of-queue_frame id q f level mine =
    let recv : (queue_frame q f).recv_list ≡ q.recv_list ++ (record f { offset = 0 } ∷ []) =
      ground (arith, level) in
    ap (λ l. data_of id l) recv
    ∙ data_of-append id q.recv_list (record f { offset = 0 } ∷ [])
    ∙ ap (λ l. data_of id q.recv_list ++ l) (data_of-single id (record f { offset = 0 }) mine)

finish_if_keeps :
    (env : Env) (is_serv : Bool) (r : Rx) (f : RxFrame) (id : ℕ)
    → (data_of id (finish_if env is_serv r f).inq.recv_list ≡ data_of id r.inq.recv_list)
      × ((finish_if env is_serv r f).stream.id ≡ r.stream.id)
      × ((finish_if env is_serv r f).stream.recv.offset ≡ r.stream.recv.offset)
unfolding finish_if
finish_if_keeps env is_serv r f id = elim (Bool-cases f.stream_fin) [
  | inl fin ↦ rw fin (finish_stream_keeps env is_serv r (end_of f) id)
  | inr more ↦ rw more (refl, refl, refl)
]

deliver_keeps :
    (env : Env) (is_serv : Bool) (r : Rx) (f : RxFrame) (id : ℕ)
    → f.level ≡ 0
    → f.stream ≡ some id
    → (data_of id (deliver env is_serv r f).inq.recv_list ≡ data_of id r.inq.recv_list ++ f.bytes)
      × ((deliver env is_serv r f).stream.id ≡ r.stream.id)
      × ((deliver env is_serv r f).stream.recv.offset ≡ r.stream.recv.offset)
unfolding deliver
deliver_keeps env is_serv r f id level mine =
    let (recv, same_id, offset) = finish_if_keeps env is_serv r f id in
    (
      data_of-queue_frame id (finish_if env is_serv r f).inq f level mine
          ∙ ap (λ l. l ++ f.bytes) recv,
      same_id,
      offset,
    )

advance_keeps :
    (r : Rx) (overlap : ℕ) (f' : RxFrame)
    → ((advance r overlap f').inq.recv_list ≡ r.inq.recv_list)
      × ((advance r overlap f').stream.id ≡ r.stream.id)
      × ((advance r overlap f').stream.recv.offset ≡ r.stream.recv.offset + len f')
unfolding advance rfree set_owner_r
advance_keeps r overlap f' = ground arith

pub tail-Delivers :
    (env : Env) (is_serv : Bool) (d : ℕ → ℕ) (size : ℕ) (r : Rx) (f : RxFrame)
    → IsPiece d size r.stream.id f
    → f.offset ≤ r.stream.recv.offset
    → r.stream.recv.offset ≤ end_of f
    → (r' : Rx) × (stream_tail env is_serv r f ≡ some r')
      × Delivers d r r'
      × (r'.stream.recv.offset ≡ end_of f)
unfolding stream_tail
tail-Delivers env is_serv d size r f piece starts ends =
    let overlap = r.stream.recv.offset - f.offset in
    let f' = trimmed f overlap in
    let fits : ltb (len f) overlap ≡ false = ground (arith, starts, ends) in
    let moved = advance r overlap f' in
    let kept = deliver_keeps env is_serv moved f' r.stream.id piece.level piece.stream in
    let first = advance_keeps r overlap f' in
    let size' = trimmed_length d f r.stream.recv.offset piece.bytes starts in
    let off : (deliver env is_serv moved f').stream.recv.offset ≡ end_of f =
      omega (arith, kept.2, first.2, size', ends) in
    (
      deliver env is_serv moved f',
      rw fits refl,
      record {
        id = kept.1 ∙ first.1;
        forward = omega (arith, off, ends);
        bytes =
            kept.0
            ∙ ap (λ l. data_of r.stream.id l ++ f'.bytes) first.0
            ∙ ap (λ l. data_of r.stream.id r.inq.recv_list ++ l)
                (trimmed_bytes d f r.stream.recv.offset piece.bytes starts
                  ∙ slice-cong d refl (ap (λ x. x - r.stream.recv.offset) (sym off)));
      },
      off,
    )

pub Delivers-refl :
    (d : ℕ → ℕ) (r r' : Rx)
    → r'.stream.id ≡ r.stream.id
    → r'.stream.recv.offset ≡ r.stream.recv.offset
    → data_of r.stream.id r'.inq.recv_list ≡ data_of r.stream.id r.inq.recv_list
    → Delivers d r r'
unfolding slice
Delivers-refl d r r' id offset recv = record {
  id = id;
  forward = omega (arith, offset);
  bytes =
      recv
      ∙ sym (append-nil (data_of r.stream.id r.inq.recv_list))
      ∙ ap (λ l. data_of r.stream.id r.inq.recv_list ++ l)
          (slice-cong d {n = 0} refl (omega (arith, offset)));
}

pub Delivers-trans :
    (d : ℕ → ℕ) (r r' r'' : Rx) → Delivers d r r' → Delivers d r' r'' → Delivers d r r''
Delivers-trans d r r' r'' a b =
    let o = r.stream.recv.offset in
    let o' = r'.stream.recv.offset in
    let o'' = r''.stream.recv.offset in
    let shown = data_of r.stream.id r.inq.recv_list in
    let later : data_of r.stream.id r''.inq.recv_list
        ≡ data_of r.stream.id r'.inq.recv_list ++ slice d o' (o'' - o') =
      subst (λ i. data_of i r''.inq.recv_list ≡ data_of i r'.inq.recv_list ++ slice d o' (o'' - o'))
        a.id b.bytes in
    record {
      id = b.id ∙ a.id;
      forward = omega (arith, a.forward, b.forward);
      bytes =
          later
          ∙ ap (λ l. l ++ slice d o' (o'' - o')) a.bytes
          ∙ append_assoc shown (slice d o (o' - o)) (slice d o' (o'' - o'))
          ∙ ap (λ l. shown ++ l)
              (ap (λ l. slice d o (o' - o) ++ l) (slice-cong d (omega (arith, a.forward)) refl)
                ∙ slice-append d o (o' - o) (o'' - o')
                ∙ slice-cong d refl (omega (arith, a.forward, b.forward)));
    }

-- What is delivered of a list of frames is in order, and all of it.
pub merge-Delivers :
    (env : Env) (is_serv : Bool) (d : ℕ → ℕ) (size id : ℕ) (fs : List RxFrame) (r : Rx)
    → All (λ g. sid g ≡ id → IsPiece d size id g) fs
    → r.stream.id ≡ id
    → r.stream.recv.offset ≤ size
    → (kept : List RxFrame) × (r' : Rx) × (merge env is_serv id fs r ≡ some (kept, r'))
      × Delivers d r r'
      × (r'.stream.recv.offset ≤ size)
unfolding rfree
merge-Delivers env is_serv d size id [] r pieces same below =
    ([], r, merge-nil env is_serv id r, Delivers-refl d r r refl refl refl, below)
merge-Delivers env is_serv d size id (f ∷ fs) r (piece, pieces) same below =
    elim (merge_step env is_serv id f fs r) [
      | of_earlier lower e ↦
          let (kept, r', run, delivered, below') =
            merge-Delivers env is_serv d size id fs r pieces same below in
          (f ∷ kept, r', e ∙ ap (skip f) run, delivered, below')
      | at_end past e ↦ (f ∷ fs, r, e, Delivers-refl d r r refl refl refl, below)
      | old mine ends e ↦
          let (kept, r', run, delivered, below') =
            merge-Delivers env is_serv d size id fs (drop_first r f) pieces same below in
          (
            kept,
            r',
            e ∙ run,
            Delivers-trans d r (drop_first r f) r'
                (Delivers-refl d r (drop_first r f) refl refl refl) delivered,
            below',
          )
      | due mine starts ends e ↦
          let now = piece mine in
          let (r', run, delivered, stops) =
            tail-Delivers env is_serv d size (one_less r) f
              (subst (λ i. IsPiece d size i f) (sym same) now) starts
              (reaches_end d size id f r.stream.recv.offset now below ends) in
          let (kept, r'', run', delivered', below') =
            merge-Delivers env is_serv d size id fs r' pieces (delivered.id ∙ same)
              (omega (arith, stops, now.within)) in
          (
            kept,
            r'',
            e ∙ ap (λ o. then_merge o (merge env is_serv id fs)) run ∙ run',
            Delivers-trans d r r' r''
                (Delivers-trans d r (one_less r) r' (Delivers-refl d r (one_less r) refl refl refl)
                  delivered)
                delivered',
            below',
          )
    ]
