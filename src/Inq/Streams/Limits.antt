-- ===== src/Inq/Streams/Limits.antt =====
-- What a call charges to the limits on received data.
use quic.Prelude.{
  ℕ, ◌+◌, ◌-◌, ◌≤◌, ◌≡◌, ◌⊎◌, inl, inr, refl, sym, ◌∙◌, subst, ap, arith, Bool, true, false, not,
  ◌&&◌, ltb, ◌==◌, if◌then◌else◌, Option, none, some, List, Bool-cases, Option-cases,
}
use quic.Inq.{RxFrame, Env, rfree, set_owner_r, len, no_room}
use quic.Inq.Streams.{
  Rx, Handled, handled, failed, overrun, end_of, stream_tail, stream_recv, recv_now, recv_later,
  recv_placed, recv_covered, merge_rest, end_merge, then_handled, announce, notify, insert_frame,
  raise_highest, is_duplicate, exceeds, beyond_final, with_inq, size_changed, recv_state_recv,
}
use quic.Inq.Streams.Steps.{event_recv-Keeps, stream_tail-Keeps, announce_same}
use quic.Inq.Streams.Raises.{
  Raises, Raises-trans, Raises-zero, RaisesMerge, merge-Raises, same_limits,
}

-- A call moves the counts on by `n`, unless the frame is passed over, as `P` says; an error never
-- does.
abbrev pub RaisesAfter : Type 0 → ℕ → Rx → Handled → Type 0
RaisesAfter P n r (handled r') = (P × Raises 0 r r') ⊎ Raises n r r'
RaisesAfter P n r (failed e code r') = Raises 0 r r'
RaisesAfter P n r overrun = Unit

RaisesAfter-if :
    (P : Type 0) (n : ℕ) (r : Rx) (c : Bool) (h h' : Handled)
    → (c ≡ true → RaisesAfter P n r h)
    → (c ≡ false → RaisesAfter P n r h')
    → RaisesAfter P n r (if c then h else h')
RaisesAfter-if P n r true h h' on off = on refl
RaisesAfter-if P n r false h h' on off = off refl

RaisesAfter-from :
    (P : Type 0) (n : ℕ) (r r' : Rx) (h : Handled)
    → Raises 0 r r'
    → RaisesAfter P n r' h
    → RaisesAfter P n r h
RaisesAfter-from P n r r' (handled r'') first (inl (passed, none_new)) =
    inl (passed, Raises-trans 0 0 0 r r' r'' (omega arith) first none_new)
RaisesAfter-from P n r r' (handled r'') first (inr rest) =
    inr (Raises-trans 0 n n r r' r'' (omega arith) first rest)
RaisesAfter-from P n r r' (failed e code r'') first rest =
    Raises-trans 0 0 0 r r' r'' (omega arith) first rest
RaisesAfter-from P n r r' overrun first rest = tt

end_merge-Raises :
    (P : Type 0) (n : ℕ) (r r' : Rx) (o : Option (List RxFrame × Rx))
    → Raises n r r'
    → RaisesMerge r' o
    → RaisesAfter P n r (end_merge o)
end_merge-Raises P n r r' none first rest = tt
end_merge-Raises P n r r' (some (kept, r'')) first rest =
    let all : Raises n r r'' = Raises-trans n 0 n r r' r'' (omega arith) first rest in
    inr (record {
      highest = all.highest;
      max_bytes = all.max_bytes;
      stream_highest = all.stream_highest;
      stream_max_bytes = all.stream_max_bytes;
    })

recv_now-Raises :
    (P : Type 0) (env : Env) (is_serv : Bool) (r : Rx) (f : RxFrame) (n : ℕ)
    → RaisesAfter P n r (recv_now env is_serv r f n)
unfolding recv_now merge_rest
recv_now-Raises P env is_serv r f n =
    elim (Option-cases (stream_tail env is_serv (raise_highest r n) f)) [
      | inl over ↦
          subst (λ o. RaisesAfter P n r (then_handled o (merge_rest env is_serv))) (sym over) tt
      | inr (r', run) ↦
          let k = stream_tail-Keeps env is_serv (raise_highest r n) r' f run in
          let first : Raises n r r' = record {
            highest = k.highest;
            max_bytes = k.max_bytes;
            stream_highest = k.stream_highest;
            stream_max_bytes = k.stream_max_bytes;
          } in
          subst (λ o. RaisesAfter P n r (then_handled o (merge_rest env is_serv))) (sym run)
            (RaisesAfter-if P n r (r'.stream.recv.frags == 0) _ _
              (λ last. inr (record {
                highest = first.highest;
                max_bytes = first.max_bytes;
                stream_highest = first.stream_highest;
                stream_max_bytes = first.stream_max_bytes;
              }))
              (λ more.
                end_merge-Raises P n r r' _ first
                  (merge-Raises env is_serv r'.stream.id r'.inq.stream_list r')))
    ]

recv_covered-Raises :
    (P : Type 0) (env : Env) (r : Rx) (f : RxFrame) (n : ℕ) (o : Option (List RxFrame))
    → (o ≡ none → P)
    → RaisesAfter P n r (recv_covered env r f n o)
unfolding recv_placed notify rfree
recv_covered-Raises P env r f n none passed = inl (
  passed refl,
  record {
    highest = omega arith;
    max_bytes = refl;
    stream_highest = omega arith;
    stream_max_bytes = refl;
  },
)
recv_covered-Raises P env r f n (some l) passed =
    let k = event_recv-Keeps env r 1 (env.update_bytes r.stream.id 7 (end_of f)) in
    RaisesAfter-if P n r (not f.stream_fin) _ _
      (λ more. inr (record {
        highest = refl;
        max_bytes = refl;
        stream_highest = refl;
        stream_max_bytes = refl;
      }))
      (λ fin.
        RaisesAfter-if P n r (size_changed r.stream (end_of f)) _ _
          (λ changed. record {
            highest = omega arith;
            max_bytes = refl;
            stream_highest = omega arith;
            stream_max_bytes = refl;
          })
          (λ kept. inr (record {
            highest = ap (λ x. x + n) k.highest;
            max_bytes = k.max_bytes;
            stream_highest = refl;
            stream_max_bytes = refl;
          })))

announce-Raises : (env : Env) (r : Rx) → Raises 0 r (announce env r)
unfolding announce notify
announce-Raises env r =
    let k =
      Raises-zero r _ (event_recv-Keeps env r 1 (env.update_bytes r.stream.id recv_state_recv 0)) in
    elim (Bool-cases (r.stream.recv.highest == 0)) [
      | inl first ↦ rw first k
      | inr again ↦ rw again (same_limits r)
    ]

-- The counts of what was received are within the limits of the connection and the stream.
abbrev pub IsWithin : Rx → Type 0
IsWithin r = (r.inq.highest ≤ r.inq.max_bytes) × (r.stream.recv.highest ≤ r.stream.recv.max_bytes)

abbrev pub WithinAfter : Handled → Type 0
WithinAfter (handled r) = IsWithin r
WithinAfter (failed e code r) = IsWithin r
WithinAfter overrun = Unit

RaisesAfter-within :
    (P : Type 0) (n : ℕ) (r : Rx) (h : Handled)
    → IsWithin r
    → r.inq.highest + n ≤ r.inq.max_bytes
    → r.stream.recv.highest + n ≤ r.stream.recv.max_bytes
    → RaisesAfter P n r h
    → WithinAfter h
RaisesAfter-within P n r (handled r') (a, b) fits fits' (inl (_, e)) = (
  omega (arith, a, e.highest, e.max_bytes),
  omega (arith, b, e.stream_highest, e.stream_max_bytes),
)
RaisesAfter-within P n r (handled r') (a, b) fits fits' (inr e) = (
  omega (arith, fits, e.highest, e.max_bytes),
  omega (arith, fits', e.stream_highest, e.stream_max_bytes),
)
RaisesAfter-within P n r (failed e' code r') (a, b) fits fits' e = (
  omega (arith, a, e.highest, e.max_bytes),
  omega (arith, b, e.stream_highest, e.stream_max_bytes),
)
RaisesAfter-within P n r overrun within fits fits' e = tt

-- What a frame adds beyond the highest offset seen on its stream.
abbrev pub new_bytes : Rx → RxFrame → ℕ
new_bytes r f = end_of f - r.stream.recv.highest

-- A frame is passed over if it is a duplicate, or if one that waits covers it.
abbrev pub IsPassedOver : Rx → RxFrame → Type 0
IsPassedOver r f = (is_duplicate r.stream f ≡ true) ⊎ (insert_frame r.inq.stream_list f ≡ none)

stream_recv-Raises :
    (env : Env) (is_serv : Bool) (r : Rx) (f : RxFrame)
    → RaisesAfter (IsPassedOver r f) (new_bytes r f) r (stream_recv env is_serv r f)
unfolding stream_recv set_owner_r rfree recv_later
stream_recv-Raises env is_serv r f =
    let s = r.stream in
    let n = new_bytes r f in
    let P = IsPassedOver r f in
    let beyond = ltb s.recv.highest (end_of f) in
    let charged = with_inq r (set_owner_r (len f) r.inq) in
    let told = announce-Raises env charged in
    let first : Raises 0 r (announce env charged) = record {
      highest = told.highest;
      max_bytes = told.max_bytes;
      stream_highest = told.stream_highest;
      stream_max_bytes = told.stream_max_bytes;
    } in
    let freed : Raises 0 r (with_inq charged (rfree (len f) charged.inq)) = record {
      highest = omega arith;
      max_bytes = refl;
      stream_highest = omega arith;
      stream_max_bytes = refl;
    } in
    RaisesAfter-if P n r (is_duplicate s f) _ _ (λ old. inl (inl old, same_limits r))
      (λ new.
        RaisesAfter-if P n r (no_room env r.inq (len f)) _ _ (λ full. same_limits r)
          (λ room.
            RaisesAfter-if P n r (beyond && exceeds r n) _ _ (λ much. freed)
              (λ fits.
                RaisesAfter-if P n r (beyond && beyond_final s (end_of f)) _ _ (λ late. freed)
                  (λ fine. RaisesAfter-from P n r (announce env charged) _ first (
                    RaisesAfter-if P n (announce env charged) (ltb s.recv.offset f.offset) _ _
                      (λ later.
                        recv_covered-Raises P env (announce env charged) f n
                          (insert_frame (announce env charged).inq.stream_list f)
                          (λ covered. inr (
                            ap (λ l. insert_frame l f) (sym (announce_same env charged).1)
                            ∙ covered)))
                      (λ now. recv_now-Raises P env is_serv (announce env charged) f n))))))

WithinAfter-if :
    (c : Bool) (h h' : Handled)
    → (c ≡ true → WithinAfter h)
    → (c ≡ false → WithinAfter h')
    → WithinAfter (if c then h else h')
WithinAfter-if true h h' on off = on refl
WithinAfter-if false h h' on off = off refl

exceeding-within :
    (env : Env) (is_serv : Bool) (r : Rx) (f : RxFrame)
    → (ltb r.stream.recv.highest (end_of f) && exceeds r (new_bytes r f)) ≡ true
    → IsWithin r
    → WithinAfter (stream_recv env is_serv r f)
unfolding stream_recv set_owner_r rfree
exceeding-within env is_serv r f much within =
    WithinAfter-if (is_duplicate r.stream f) _ _ (λ old. within)
      (λ new.
        WithinAfter-if (no_room env r.inq (len f)) _ _ (λ full. within) (λ room. rw much within))

-- A frame is charged to the connection and to its stream alike: both counts of received data grow by
-- what it adds beyond the stream's highest offset, unless it is passed over, as a duplicate or as
-- covered by one that waits; then, and on an error, they stay. And however much the peer sends, both
-- counts stay within the limits advertised, if they were before.
pub stream_recv_limits :
    (env : Env) (is_serv : Bool) (r : Rx) (f : RxFrame)
    → IsWithin r
    → RaisesAfter (IsPassedOver r f) (new_bytes r f) r (stream_recv env is_serv r f)
      × WithinAfter (stream_recv env is_serv r f)
stream_recv_limits env is_serv r f within =
    let n = new_bytes r f in
    let beyond = ltb r.stream.recv.highest (end_of f) in
    let all = stream_recv-Raises env is_serv r f in
    (
      all,
      elim (Bool-cases (beyond && exceeds r n)) [
        | inl much ↦ exceeding-within env is_serv r f much within
        | inr fits ↦
            RaisesAfter-within (IsPassedOver r f) n r (stream_recv env is_serv r f) within
              (ground (arith, fits, within)) (ground (arith, fits, within)) all
      ],
    )
