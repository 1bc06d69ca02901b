-- ===== src/Inq/Streams/Charges.antt =====
-- The balance of memory and frames over a whole call of quic_inq_stream_recv.
use quic.Prelude.{
  ℕ, ◌+◌, ◌-◌, ◌≡◌, inl, inr, refl, sym, subst, ◌∙◌, arith, Bool, true, false, not, ◌&&◌, ltb, ◌==◌,
  if◌then◌else◌, Option, none, some, List, [], ◌∷◌, Bool-cases, Option-cases,
}
use quic.Inq.{RxFrame, Inq, Env, rfree, set_owner_r, len, no_room}
use quic.Inq.Streams.{
  Rx, Handled, handled, failed, overrun, end_of, merge, skip, then_merge, one_less, stream_tail,
  stream_recv, recv_now, recv_later, recv_placed, recv_covered, merge_rest, end_merge, then_handled,
  announce, notify, insert_frame, raise_highest, is_duplicate, exceeds, beyond_final, with_inq,
  size_changed, recv_state_recv,
}
use quic.Inq.Streams.Steps.{
  stream_tail-Keeps, announce_same, of_earlier, at_end, old, due, merge_step, merge-nil, drop_first,
}
use quic.Inq.Streams.Memory.{
  total, held, Balanced, tail_balanced, event_recv-Balanced, total-insert_frame,
}

-- Every byte charged is a byte held.
abbrev pub IsCharged : Inq → Type 0
IsCharged q = q.rmem_alloc ≡ held q + total q.stream_list

abbrev pub ChargedAfter : Handled → Type 0
ChargedAfter (handled r) = IsCharged r.inq
ChargedAfter (failed e code r) = IsCharged r.inq
ChargedAfter overrun = Unit

ChargedAfter-if :
    (c : Bool) (h h' : Handled)
    → (c ≡ true → ChargedAfter h)
    → (c ≡ false → ChargedAfter h')
    → ChargedAfter (if c then h else h')
ChargedAfter-if true h h' on off = on refl
ChargedAfter-if false h h' on off = off refl

abbrev ChargedMerge : ℕ → Option (List RxFrame × Rx) → Type 0
ChargedMerge x none = Unit
ChargedMerge x (some (kept, r)) = r.inq.rmem_alloc ≡ held r.inq + total kept + x

ChargedMerge-skip :
    (f : RxFrame) (x : ℕ) (o : Option (List RxFrame × Rx))
    → ChargedMerge (len f + x) o
    → ChargedMerge x (skip f o)
unfolding total
ChargedMerge-skip f x none h = tt
ChargedMerge-skip f x (some (kept, r)) h = omega (arith, h)

ChargedMerge-then :
    (x : ℕ) (o : Option Rx) (go : Rx → Option (List RxFrame × Rx))
    → ((r : Rx) → o ≡ some r → ChargedMerge x (go r))
    → ChargedMerge x (then_merge o go)
ChargedMerge-then x none go each = tt
ChargedMerge-then x (some r) go each = each r refl

merge-Charged :
    (env : Env) (is_serv : Bool) (id : ℕ) (fs : List RxFrame) (r : Rx) (x : ℕ)
    → r.inq.rmem_alloc ≡ held r.inq + total fs + x
    → ChargedMerge x (merge env is_serv id fs r)
unfolding rfree total
merge-Charged env is_serv id [] r x e = subst (ChargedMerge x) (sym (merge-nil env is_serv id r)) e
merge-Charged env is_serv id (f ∷ fs) r x e = elim (merge_step env is_serv id f fs r) [
  | of_earlier lower run ↦
      subst (ChargedMerge x) (sym run)
        (ChargedMerge-skip f x _ (merge-Charged env is_serv id fs r (len f + x) (omega (arith, e))))
  | at_end past run ↦ subst (ChargedMerge x) (sym run) e
  | old mine ends run ↦
      subst (ChargedMerge x) (sym run)
        (merge-Charged env is_serv id fs (drop_first r f) x (omega (arith, e)))
  | due mine starts ends run ↦ subst (ChargedMerge x) (sym run) (
      ChargedMerge-then x (stream_tail env is_serv (one_less r) f) (merge env is_serv id fs)
        (λ r' tail. merge-Charged env is_serv id fs r' x (
          tail_balanced env is_serv (one_less r) r' f (total fs + x) tail (omega (arith, e))
          ∙ omega arith)))
]

end_merge-Charged : (o : Option (List RxFrame × Rx)) → ChargedMerge 0 o → ChargedAfter (end_merge o)
end_merge-Charged none h = tt
end_merge-Charged (some (kept, r)) h = omega (arith, h)

recv_now-Charged :
    (env : Env) (is_serv : Bool) (r : Rx) (f : RxFrame) (n : ℕ)
    → r.inq.rmem_alloc ≡ held r.inq + len f + total r.inq.stream_list
    → ChargedAfter (recv_now env is_serv r f n)
unfolding recv_now merge_rest
recv_now-Charged env is_serv r f n e =
    elim (Option-cases (stream_tail env is_serv (raise_highest r n) f)) [
      | inl over ↦ subst (λ o. ChargedAfter (then_handled o (merge_rest env is_serv))) (sym over) tt
      | inr (r', run) ↦
          let k = (stream_tail-Keeps env is_serv (raise_highest r n) r' f run).waiting in
          let paid =
            tail_balanced env is_serv (raise_highest r n) r' f (total r.inq.stream_list) run e in
          let charged : IsCharged r'.inq =
            subst (λ l. r'.inq.rmem_alloc ≡ held r'.inq + total l) (sym k) paid in
          subst (λ o. ChargedAfter (then_handled o (merge_rest env is_serv))) (sym run)
            (ChargedAfter-if (r'.stream.recv.frags == 0) _ _ (λ last. charged)
              (λ more. end_merge-Charged _ (
                merge-Charged env is_serv r'.stream.id r'.inq.stream_list r' 0
                  (omega (arith, charged)))))
    ]

recv_covered-Charged :
    (env : Env) (r : Rx) (f : RxFrame) (n : ℕ) (o : Option (List RxFrame))
    → ((l : List RxFrame) → o ≡ some l → total l ≡ total r.inq.stream_list + len f)
    → r.inq.rmem_alloc ≡ held r.inq + len f + total r.inq.stream_list
    → ChargedAfter (recv_covered env r f n o)
unfolding recv_placed notify rfree
recv_covered-Charged env r f n none placed e = omega (arith, e)
recv_covered-Charged env r f n (some l) placed e =
    let told = event_recv-Balanced env r.inq 1 (env.update_bytes r.stream.id 7 (end_of f)) in
    ChargedAfter-if (not f.stream_fin) _ _ (λ more. omega (arith, e, placed l refl))
      (λ fin.
        ChargedAfter-if (size_changed r.stream (end_of f)) _ _ (λ changed. omega (arith, e))
          (λ kept. omega (arith, e, told, placed l refl)))

announce-Charged : (env : Env) (r : Rx) → Balanced r.inq (announce env r).inq
unfolding announce notify
announce-Charged env r =
    let told = event_recv-Balanced env r.inq 1 (env.update_bytes r.stream.id recv_state_recv 0) in
    elim (Bool-cases (r.stream.recv.highest == 0)) [
      | inl first ↦ rw first told
      | inr again ↦ rw again refl
    ]

-- The memory charged to the socket stays the number of the bytes that the queue holds, waiting or
-- ready, whichever way a frame goes: delivered, cut, kept, dropped as a duplicate, merged or refused.
pub stream_recv-IsCharged :
    (env : Env) (is_serv : Bool) (r : Rx) (f : RxFrame)
    → IsCharged r.inq
    → ChargedAfter (stream_recv env is_serv r f)
unfolding stream_recv set_owner_r rfree recv_later
stream_recv-IsCharged env is_serv r f e =
    let s = r.stream in
    let n = end_of f - s.recv.highest in
    let beyond = ltb s.recv.highest (end_of f) in
    let charged = with_inq r (set_owner_r (len f) r.inq) in
    let told = announce-Charged env charged in
    let waiting = (announce_same env charged).1 in
    let freed : IsCharged (rfree (len f) charged.inq) = omega (arith, e) in
    let paid : (announce env charged).inq.rmem_alloc
        ≡ held (announce env charged).inq + len f + total (announce env charged).inq.stream_list =
      subst
        (λ l.
          (announce env charged).inq.rmem_alloc ≡ held (announce env charged).inq + len f + total l)
        (sym waiting) (omega (arith, e, told)) in
    ChargedAfter-if (is_duplicate s f) _ _ (λ old. e)
      (λ new.
        ChargedAfter-if (no_room env r.inq (len f)) _ _ (λ full. e)
          (λ room.
            ChargedAfter-if (beyond && exceeds r n) _ _ (λ much. freed)
              (λ fits.
                ChargedAfter-if (beyond && beyond_final s (end_of f)) _ _ (λ late. freed)
                  (λ fine.
                    ChargedAfter-if (ltb s.recv.offset f.offset) _ _
                      (λ later.
                        recv_covered-Charged env (announce env charged) f n
                          (insert_frame (announce env charged).inq.stream_list f)
                          (λ l run.
                            total-insert_frame (announce env charged).inq.stream_list f l run)
                          paid)
                      (λ now. recv_now-Charged env is_serv (announce env charged) f n paid)))))
