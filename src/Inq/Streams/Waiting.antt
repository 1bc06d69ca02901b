-- ===== src/Inq/Streams/Waiting.antt =====
-- The list of waiting frames over a whole call of quic_inq_stream_recv.
use quic.Prelude.{
  ℕ, ◌+◌, ◌-◌, ◌<◌, ◌≡◌, inl, inr, refl, sym, subst, ap, ◌∙◌, arith, Bool, true, false, not, ◌&&◌,
  ltb, ◌==◌, if◌then◌else◌, Option, none, some, List, [], ◌∷◌, ltb→lt, Option-cases, All,
}
use quic.Prelude.Words.{add32, u32_mod}
use quic.Stream.{Stream}
use quic.Inq.{RxFrame, Env, rfree, set_owner_r, len, no_room}
use quic.Inq.Streams.{
  Rx, Handled, handled, failed, overrun, sid, end_of, stream_tail, stream_recv, recv_now,
  recv_later, recv_placed, recv_covered, merge_rest, end_merge, then_handled, announce, notify,
  insert_frame, raise_highest, is_duplicate, exceeds, beyond_final, with_inq, size_changed,
}
use quic.Inq.Streams.Steps.{stream_tail-Keeps, announce_same}
use quic.Inq.Streams.Order.{IsSorted, count, insert-All, insert-IsSorted, insert-count}
use quic.Inq.Streams.Merge.{IsAhead, AfterMerge, merge_leaves}

-- The list is in order, the stream's frames in it wait for bytes that are missing, and `frags` counts
-- them.
pub record IsValid (r : Rx) : Type 0 where
  pub sorted : IsSorted r.inq.stream_list
  pub ahead : All (IsAhead r.stream.id r.stream.recv.offset) r.inq.stream_list
  pub counted : r.stream.recv.frags ≡ count r.stream.id r.inq.stream_list

abbrev pub ValidAfter : Handled → Type 0
ValidAfter (handled r) = IsValid r
ValidAfter (failed e code r) = IsValid r
ValidAfter overrun = Unit

ValidAfter-if :
    (c : Bool) (h h' : Handled)
    → (c ≡ true → ValidAfter h)
    → (c ≡ false → ValidAfter h')
    → ValidAfter (if c then h else h')
ValidAfter-if true h h' on off = on refl
ValidAfter-if false h h' on off = off refl

-- A count of none: no frame of the stream is there.
none_waiting : (id offset : ℕ) (fs : List RxFrame) → count id fs ≡ 0 → All (IsAhead id offset) fs
unfolding count
none_waiting id offset [] e = tt
none_waiting id offset (f ∷ fs) e =
    (λ mine. absurd (ground (arith, e, mine)), none_waiting id offset fs (ground (arith, e)))

end_merge-IsValid :
    (id : ℕ) (fs : List RxFrame) (o : Option (List RxFrame × Rx))
    → AfterMerge id fs o
    → ValidAfter (end_merge o)
end_merge-IsValid id fs none left = tt
end_merge-IsValid id fs (some (kept, r)) left = record {
  sorted = left.sorted;
  ahead = subst (λ i. All (IsAhead i r.stream.recv.offset) kept) (sym left.same) left.ahead;
  counted = left.counted ∙ ap (λ i. count i kept) (sym left.same);
}

merge_rest-IsValid :
    (env : Env) (is_serv : Bool) (r : Rx)
    → IsSorted r.inq.stream_list
    → r.stream.recv.frags ≡ count r.stream.id r.inq.stream_list
    → count r.stream.id r.inq.stream_list < u32_mod
    → ValidAfter (merge_rest env is_serv r)
unfolding merge_rest
merge_rest-IsValid env is_serv r sorted counted small =
    ValidAfter-if (r.stream.recv.frags == 0) _ _
      (λ zero_left. record {
        sorted = sorted;
        ahead = none_waiting _ _ _ (ground (arith, counted, zero_left));
        counted = counted;
      })
      (λ more.
        end_merge-IsValid r.stream.id r.inq.stream_list _
          (merge_leaves env is_serv r.stream.id r.inq.stream_list r refl sorted counted small))

recv_now-IsValid :
    (env : Env) (is_serv : Bool) (r : Rx) (f : RxFrame) (highest : ℕ)
    → IsValid r
    → count r.stream.id r.inq.stream_list < u32_mod
    → ValidAfter (recv_now env is_serv r f highest)
unfolding recv_now
recv_now-IsValid env is_serv r f highest valid small =
    elim (Option-cases (stream_tail env is_serv (raise_highest r highest) f)) [
      | inl over ↦ subst (λ o. ValidAfter (then_handled o (merge_rest env is_serv))) (sym over) tt
      | inr (r', run) ↦
          let k = stream_tail-Keeps env is_serv (raise_highest r highest) r' f run in
          let held : count r'.stream.id r'.inq.stream_list ≡ count r.stream.id r.inq.stream_list =
            ap (λ i. count i r'.inq.stream_list) k.id ∙ ap (λ l. count r.stream.id l) k.waiting in
          subst (λ o. ValidAfter (then_handled o (merge_rest env is_serv))) (sym run)
            (merge_rest-IsValid env is_serv r' (subst IsSorted (sym k.waiting) valid.sorted)
              (k.frags ∙ valid.counted ∙ sym held) (subst (λ n. n < u32_mod) (sym held) small))
    ]

buffered_count : (a n : ℕ) → a ≡ n → n + 1 < u32_mod → add32 a 1 ≡ n + 1
buffered_count a n e small = omega (arith, e, small)

recv_covered-IsValid :
    (env : Env) (r : Rx) (f : RxFrame) (highest : ℕ) (o : Option (List RxFrame))
    → ((l : List RxFrame)
        → o ≡ some l
        → IsSorted l
          × All (IsAhead r.stream.id r.stream.recv.offset) l
          × (add32 r.stream.recv.frags 1 ≡ count r.stream.id l))
    → IsValid r
    → ValidAfter (recv_covered env r f highest o)
unfolding recv_placed notify rfree
recv_covered-IsValid env r f highest none placed valid = record {
  sorted = valid.sorted;
  ahead = valid.ahead;
  counted = valid.counted;
}
recv_covered-IsValid env r f highest (some l) placed valid =
    let (sorted, ahead, counted) = placed l refl in
    ValidAfter-if (not f.stream_fin) _ _
      (λ more. record { sorted = sorted; ahead = ahead; counted = counted })
      (λ fin.
        ValidAfter-if (size_changed r.stream (end_of f)) _ _
          (λ changed. record {
            sorted = valid.sorted;
            ahead = valid.ahead;
            counted = valid.counted;
          })
          (λ kept. record { sorted = sorted; ahead = ahead; counted = counted }))

recv_later-IsValid :
    (env : Env) (r : Rx) (f : RxFrame) (highest : ℕ)
    → sid f ≡ r.stream.id
    → r.stream.recv.offset < f.offset
    → IsValid r
    → count r.stream.id r.inq.stream_list + 1 < u32_mod
    → ValidAfter (recv_later env r f highest)
unfolding recv_later
recv_later-IsValid env r f highest mine later valid small =
    recv_covered-IsValid env r f highest (insert_frame r.inq.stream_list f)
      (λ l run. (
        insert-IsSorted r.inq.stream_list f l run valid.sorted,
        insert-All (IsAhead r.stream.id r.stream.recv.offset) r.inq.stream_list f l run
            (λ same. later) valid.ahead,
        buffered_count r.stream.recv.frags (count r.stream.id r.inq.stream_list) valid.counted small
            ∙ sym (insert-count r.stream.id r.inq.stream_list f l run mine),
      ))
      valid

-- Validity is a matter of the stream and the list.
IsValid-subst :
    (r r' : Rx)
    → r'.stream ≡ r.stream
    → r'.inq.stream_list ≡ r.inq.stream_list
    → IsValid r
    → IsValid r'
IsValid-subst r r' same waiting valid =
    let fs = r'.inq.stream_list in
    let ahead : All (IsAhead r.stream.id r.stream.recv.offset) fs =
      subst (All (IsAhead r.stream.id r.stream.recv.offset)) (sym waiting) valid.ahead in
    let counted : r.stream.recv.frags ≡ count r.stream.id fs =
      valid.counted ∙ ap (count r.stream.id) (sym waiting) in
    record {
      sorted = subst IsSorted (sym waiting) valid.sorted;
      ahead = subst (λ s. All (IsAhead s.id s.recv.offset) fs) (sym same) ahead;
      counted = subst (λ s. s.recv.frags ≡ count s.id fs) (sym same) counted;
    }

recv_accepted-IsValid :
    (env : Env) (is_serv : Bool) (r : Rx) (s : Stream) (f : RxFrame) (highest : ℕ)
    → r.stream ≡ s
    → sid f ≡ s.id
    → IsValid r
    → count s.id r.inq.stream_list + 1 < u32_mod
    → ValidAfter (
        if ltb s.recv.offset f.offset
        then recv_later env r f highest
        else recv_now env is_serv r f highest)
recv_accepted-IsValid env is_serv r s f highest same mine valid small =
    let small' : count r.stream.id r.inq.stream_list + 1 < u32_mod =
      subst (λ x. count x.id r.inq.stream_list + 1 < u32_mod) (sym same) small in
    ValidAfter-if (ltb s.recv.offset f.offset) _ _
      (λ later.
        recv_later-IsValid env r f highest (subst (λ x. sid f ≡ x.id) (sym same) mine)
          (subst (λ x. x.recv.offset < f.offset) (sym same) (ltb→lt s.recv.offset f.offset later))
          valid small')
      (λ now. recv_now-IsValid env is_serv r f highest valid (omega (arith, small')))

-- Whatever a frame of the stream does, the list of waiting frames stays in order, `frags` stays the
-- number of the stream's frames in it, and none of these could be delivered already: each starts
-- beyond the offset reached. It holds of errors too. The number that wait is below 2 ^ 32 - 1.
pub stream_recv-IsValid :
    (env : Env) (is_serv : Bool) (r : Rx) (f : RxFrame)
    → f.stream ≡ some r.stream.id
    → IsValid r
    → count r.stream.id r.inq.stream_list + 1 < u32_mod
    → ValidAfter (stream_recv env is_serv r f)
unfolding stream_recv set_owner_r rfree
stream_recv-IsValid env is_serv r f mine valid small =
    let s = r.stream in
    let highest = end_of f - s.recv.highest in
    let beyond = ltb s.recv.highest (end_of f) in
    let charged = with_inq r (set_owner_r (len f) r.inq) in
    let valid' : IsValid charged = record {
      sorted = valid.sorted;
      ahead = valid.ahead;
      counted = valid.counted;
    } in
    let freed : IsValid (with_inq charged (rfree (len f) charged.inq)) = record {
      sorted = valid.sorted;
      ahead = valid.ahead;
      counted = valid.counted;
    } in
    let (same, waiting) = announce_same env charged in
    ValidAfter-if (is_duplicate s f) _ _ (λ old. valid)
      (λ new.
        ValidAfter-if (no_room env r.inq (len f)) _ _ (λ full. valid)
          (λ room.
            ValidAfter-if (beyond && exceeds r highest) _ _ (λ much. freed)
              (λ fits.
                ValidAfter-if (beyond && beyond_final s (end_of f)) _ _ (λ late. freed)
                  (λ fine.
                    recv_accepted-IsValid env is_serv (announce env charged) s f highest same
                      (ground (arith, mine))
                      (IsValid-subst charged (announce env charged) same waiting valid')
                      (subst (λ l. count s.id l + 1 < u32_mod) (sym waiting) small)))))
