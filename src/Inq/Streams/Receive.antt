-- ===== src/Inq/Streams/Receive.antt =====
-- A whole call of quic_inq_stream_recv, and the bytes that the application gets by it.
use quic.Prelude.{
  ℕ, subst, ◌-◌, ◌≤◌, ◌≡◌, ◌⊎◌, refl, sym, ◌∙◌, Bool, true, false, not, ◌&&◌, ◌||◌, ltb, leb, ◌==◌,
  if◌then◌else◌, Option, none, some, List, arith, inl, inr, Bool-cases,
}
use quic.Stream.{Stream}
use quic.Inq.{no_room, RxFrame, Env, len, rfree, set_owner_r}
use quic.Inq.Streams.{
  Rx, size_changed, recv_state_size_known, is_duplicate, insert_frame, recv_placed, recv_covered,
  announce, recv_state_recv, exceeds, beyond_final, Handled, handled, failed, overrun, end_of,
  notify, merge_rest, then_handled, done, raise_highest, with_stream_list, with_inq, recv_now,
  recv_later, stream_recv,
}
use quic.Inq.Streams.Steps.{event_recv-Keeps, stream_tail-Keeps}
use quic.Inq.Streams.Slices.{data_of-event_recv}
use quic.Inq.Streams.Delivery.{
  IsPiece, Pieces, Pieces-kept, Delivers, Delivers-refl, Delivers-trans, merge-Delivers,
  tail-Delivers, reaches_end,
}

-- Nothing but the stream's next bytes was given to the application, and the call did not overrun.
abbrev pub Outcome : (ℕ → ℕ) → Rx → Handled → Type 0
Outcome d r (handled r') = Delivers d r r'
Outcome d r (failed e code r') = Delivers d r r' × (r'.stream ≡ r.stream)
Outcome d r overrun = ⊥

-- The end of a call writes the stream to the table.
done-Delivers :
    (d : ℕ → ℕ) (r r' : Rx) (kept : List RxFrame)
    → Delivers d r r'
    → Outcome d r (done (with_stream_list r' kept))
done-Delivers d r r' kept h = record { id = h.id; forward = h.forward; bytes = h.bytes }

merge_rest-Delivers :
    (env : Env) (is_serv : Bool) (d : ℕ → ℕ) (size : ℕ) (r r' : Rx)
    → Pieces d size r'
    → r'.stream.recv.offset ≤ size
    → Delivers d r r'
    → Outcome d r (merge_rest env is_serv r')
unfolding merge_rest
merge_rest-Delivers env is_serv d size r r' pieces below delivered =
    elim (Bool-cases (r'.stream.recv.frags == 0)) [
      | inl empty ↦ rw empty (done-Delivers d r r' r'.inq.stream_list delivered)
      | inr some_left ↦
          let (kept, r'', run, more, _) =
            merge-Delivers env is_serv d size r'.stream.id r'.inq.stream_list r' pieces refl
              below in
          rw (some_left, run)
            (done-Delivers d r r'' kept (Delivers-trans d r r' r'' delivered more))
    ]

recv_now_delivers :
    (env : Env) (is_serv : Bool) (d : ℕ → ℕ) (size : ℕ) (r : Rx) (f : RxFrame) (highest : ℕ)
    → IsPiece d size r.stream.id f
    → Pieces d size r
    → r.stream.recv.offset ≤ size
    → f.offset ≤ r.stream.recv.offset
    → (r.stream.recv.offset ≤ end_of f) ⊎ (f.stream_fin ≡ true)
    → Outcome d r (recv_now env is_serv r f highest)
unfolding recv_now
recv_now_delivers env is_serv d size r f highest piece pieces below starts ends =
    let raised = raise_highest r highest in
    let (r', run, delivered, stops) =
      tail-Delivers env is_serv d size raised f piece starts
        (reaches_end d size r.stream.id f r.stream.recv.offset piece below ends) in
    let k = stream_tail-Keeps env is_serv raised r' f run in
    subst (λ o. Outcome d r (then_handled o (merge_rest env is_serv))) (sym run)
      (merge_rest-Delivers env is_serv d size r r'
        (Pieces-kept d size raised r' delivered.id k.waiting pieces)
        (omega (arith, stops, piece.within))
        (Delivers-trans d r raised r' (Delivers-refl d r raised refl refl refl) delivered))

Outcome-if :
    (d : ℕ → ℕ) (r : Rx) (c : Bool) (h h' : Handled)
    → (c ≡ true → Outcome d r h)
    → (c ≡ false → Outcome d r h')
    → Outcome d r (if c then h else h')
Outcome-if d r true h h' on off = on refl
Outcome-if d r false h h' on off = off refl

Outcome-from :
    (d : ℕ → ℕ) (r r' : Rx) (h : Handled)
    → Delivers d r r'
    → r'.stream ≡ r.stream
    → Outcome d r' h
    → Outcome d r h
Outcome-from d r r' (handled r'') first same rest = Delivers-trans d r r' r'' first rest
Outcome-from d r r' (failed e code r'') first same (rest, same') =
    (Delivers-trans d r r' r'' first rest, same' ∙ same)
Outcome-from d r r' overrun first same rest = rest

-- An event is no data.
notify-Delivers :
    (d : ℕ → ℕ) (env : Env) (r : Rx) (state finalsz : ℕ) → Delivers d r (notify env r state finalsz)
unfolding notify
notify-Delivers d env r state finalsz =
    Delivers-refl d r (notify env r state finalsz) refl refl
      (data_of-event_recv r.stream.id env r.inq 1 (env.update_bytes r.stream.id state finalsz))

announce_keeps :
    (d : ℕ → ℕ) (env : Env) (r : Rx)
    → Delivers d r (announce env r)
      × ((announce env r).stream ≡ r.stream)
      × ((announce env r).inq.stream_list ≡ r.inq.stream_list)
unfolding announce notify
announce_keeps d env r = elim (Bool-cases (r.stream.recv.highest == 0)) [
  | inl first ↦ rw first (
    notify-Delivers d env r recv_state_recv 0,
    refl,
    (event_recv-Keeps env r 1 (env.update_bytes r.stream.id recv_state_recv 0)).waiting,
  )
  | inr again ↦ rw again (Delivers-refl d r r refl refl refl, refl, refl)
]

recv_placed_delivers :
    (env : Env) (d : ℕ → ℕ) (r : Rx) (f : RxFrame) (highest : ℕ) (l : List RxFrame)
    → Outcome d r (recv_placed env r f highest l)
unfolding recv_placed rfree
recv_placed_delivers env d r f highest l =
    Outcome-if d r (not f.stream_fin) _ _ (λ more. Delivers-refl d r _ refl refl refl)
      (λ fin.
        Outcome-if d r (size_changed r.stream (end_of f)) _ _
          (λ changed. (Delivers-refl d r _ refl refl refl, refl))
          (λ kept.
            (let n = notify-Delivers d env r recv_state_size_known (end_of f) in
              record { id = n.id; forward = n.forward; bytes = n.bytes })))

recv_covered_delivers :
    (env : Env) (d : ℕ → ℕ) (r : Rx) (f : RxFrame) (highest : ℕ) (l : Option (List RxFrame))
    → Outcome d r (recv_covered env r f highest l)
unfolding rfree
recv_covered_delivers env d r f highest none = Delivers-refl d r _ refl refl refl
recv_covered_delivers env d r f highest (some l) = recv_placed_delivers env d r f highest l

is_new_lem :
    (off e : ℕ) (known fin : Bool)
    → (leb e off && (known || not fin)) ≡ false
    → (off ≤ e) ⊎ (fin ≡ true)
is_new_lem off e known fin h = ground arith

recv_accepted_delivers :
    (env : Env) (is_serv : Bool) (d : ℕ → ℕ) (size : ℕ) (r : Rx) (s : Stream) (f : RxFrame)
    (highest : ℕ)
    → r.stream ≡ s
    → IsPiece d size s.id f
    → Pieces d size r
    → s.recv.offset ≤ size
    → (s.recv.offset ≤ end_of f) ⊎ (f.stream_fin ≡ true)
    → Outcome d r (
        if ltb s.recv.offset f.offset
        then recv_later env r f highest
        else recv_now env is_serv r f highest)
unfolding recv_later
recv_accepted_delivers env is_serv d size r s f highest same piece pieces below ends =
    Outcome-if d r (ltb s.recv.offset f.offset) _ _
      (λ later. recv_covered_delivers env d r f highest (insert_frame r.inq.stream_list f))
      (λ now.
        recv_now_delivers env is_serv d size r f highest
          (subst (λ x. IsPiece d size x.id f) (sym same) piece) pieces
          (subst (λ x. x.recv.offset ≤ size) (sym same) below)
          (subst (λ x. f.offset ≤ x.recv.offset) (sym same) (ground (arith, now)))
          (subst (λ x. (x.recv.offset ≤ end_of f) ⊎ (f.stream_fin ≡ true)) (sym same) ends))

-- Where the frames of a stream, of encryption level 0, are pieces of one byte string `d` with one
-- final size, which the stream's offset is within, a frame makes the queue give the application exactly the bytes between the old and the new offset of the stream:
-- in order, none missing and none twice, whether or not buffered frames are merged. Errors give it
-- nothing and leave the stream as it was, and the length of a frame never wraps around.
pub stream_recv_delivers :
    (env : Env) (is_serv : Bool) (d : ℕ → ℕ) (size : ℕ) (r : Rx) (f : RxFrame)
    → IsPiece d size r.stream.id f
    → Pieces d size r
    → r.stream.recv.offset ≤ size
    → Outcome d r (stream_recv env is_serv r f)
unfolding stream_recv set_owner_r rfree
stream_recv_delivers env is_serv d size r f piece pieces below =
    let s = r.stream in
    let highest = end_of f - s.recv.highest in
    let beyond = ltb s.recv.highest (end_of f) in
    let charged = with_inq r (set_owner_r (len f) r.inq) in
    let (first, same, waiting) = announce_keeps d env charged in
    let before : Delivers d r (announce env charged) = record {
      id = first.id;
      forward = first.forward;
      bytes = first.bytes;
    } in
    Outcome-if d r (is_duplicate s f) _ _ (λ old. Delivers-refl d r r refl refl refl)
      (λ new.
        Outcome-if d r (no_room env r.inq (len f)) _ _
          (λ full. (Delivers-refl d r r refl refl refl, refl))
          (λ room.
            Outcome-if d r (beyond && exceeds r highest) _ _
              (λ much. (Delivers-refl d r _ refl refl refl, refl))
              (λ fits.
                Outcome-if d r (beyond && beyond_final s (end_of f)) _ _
                  (λ late. (Delivers-refl d r _ refl refl refl, refl))
                  (λ fine. Outcome-from d r (announce env charged) _ before same (
                    recv_accepted_delivers env is_serv d size (announce env charged) s f highest
                      same piece
                      (Pieces-kept d size charged (announce env charged) first.id waiting pieces)
                      below
                      (is_new_lem s.recv.offset (end_of f) (s.recv.state == recv_state_size_known)
                        f.stream_fin new))))))
