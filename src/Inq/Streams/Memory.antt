-- ===== src/Inq/Streams/Memory.antt =====
-- The memory charged for received data is that of the frames held.
use quic.Prelude.{
  ℕ, ◌+◌, ◌≡◌, inl, inr, refl, sym, subst, ap, ◌∙◌, arith, Bool, some, List, [], ◌∷◌, ◌++◌,
  length-drop, Bool-cases,
}
use quic.Inq.{RxFrame, Inq, Env, rfree, set_owner_r, len, event_recv, insert_event, event_frame}
use quic.Inq.Streams.{
  Rx, end_of, stream_tail, advance, deliver, finish_if, finish_stream, queue_frame, trimmed, notify,
  insert_frame,
}
use quic.Inq.Streams.Steps.{stream_tail-some, overlap}
use quic.Inq.Streams.Order.{behind, here, covered, insert_step, insert-nil, keep-some, shown}

unfoldable pub total : List RxFrame → ℕ
total [] = 0
total (f ∷ fs) = len f + total fs

-- The bytes held outside the list of waiting frames.
abbrev pub held : Inq → ℕ
held q = total q.recv_list + total q.early_list + total q.handshake_list

total-append : (fs gs : List RxFrame) → total (fs ++ gs) ≡ total fs + total gs
unfolding total
total-append [] gs = omega arith
total-append (f ∷ fs) gs = omega (arith, total-append fs gs)

total-insert_event :
    (fs : List RxFrame) (f : RxFrame) → total (insert_event fs f) ≡ total fs + len f
unfolding total insert_event
total-insert_event [] f = omega arith
total-insert_event (g ∷ gs) f = ground (arith, total-insert_event gs f)

pub total-insert_frame :
    (gs : List RxFrame) (f : RxFrame) (l : List RxFrame)
    → insert_frame gs f ≡ some l
    → total l ≡ total gs + len f
unfolding total
total-insert_frame [] f l e = ap total (insert-nil f l e) ∙ omega arith
total-insert_frame (g ∷ gs) f l e = elim (insert_step g gs f) [
  | behind before run ↦
      let (l', inner, same) = keep-some g (insert_frame gs f) l (sym run ∙ e) in
      ap total same ∙ omega (arith, total-insert_frame gs f l' inner)
  | here before run ↦ ap total (sym (shown (sym run ∙ e))) ∙ omega arith
  | covered run ↦ absurd (ground (arith, run, e))
]

-- From `q` to `q'`, as much memory was charged as frames were taken up.
abbrev pub Balanced : Inq → Inq → Type 0
Balanced q q' = q'.rmem_alloc + held q ≡ q.rmem_alloc + held q'

pub event_recv-Balanced :
    (env : Env) (q : Inq) (event : ℕ) (payload : List ℕ)
    → Balanced q (event_recv env q event payload).0
unfolding event_recv set_owner_r
event_recv-Balanced env q event payload =
    let put = total-insert_event q.recv_list (event_frame (event ∷ payload)) in ground (arith, put)

finish_if-Balanced :
    (env : Env) (is_serv : Bool) (r : Rx) (f : RxFrame)
    → Balanced r.inq (finish_if env is_serv r f).inq
unfolding finish_if finish_stream notify
finish_if-Balanced env is_serv r f =
    let told = event_recv-Balanced env r.inq 1 (env.update_bytes r.stream.id 8 (end_of f)) in
    elim (Bool-cases f.stream_fin) [ inl fin ↦ rw fin told | inr more ↦ rw more refl ]

held-queue_frame :
    (q : Inq) (f : RxFrame)
    → (held (queue_frame q f) ≡ held q + len f) × ((queue_frame q f).rmem_alloc ≡ q.rmem_alloc)
unfolding queue_frame total
held-queue_frame q f =
    let early = total-append q.early_list (record f { level = 0; offset = 0 } ∷ []) in
    let now = total-append q.recv_list (record f { offset = 0 } ∷ []) in ground (arith, early, now)

pub tail_balanced :
    (env : Env) (is_serv : Bool) (r r' : Rx) (f : RxFrame) (x : ℕ)
    → stream_tail env is_serv r f ≡ some r'
    → r.inq.rmem_alloc ≡ held r.inq + len f + x
    → r'.inq.rmem_alloc ≡ held r'.inq + x
unfolding advance deliver rfree set_owner_r
tail_balanced env is_serv r r' f x run e =
    let o = overlap r f in
    let f' = trimmed f o in
    let (fits, same) = stream_tail-some env is_serv r r' f run in
    let short = length-drop o f.bytes in
    let moved = advance r o f' in
    let fin = finish_if-Balanced env is_serv moved f' in
    let (queued, kept) = held-queue_frame (finish_if env is_serv moved f').inq f' in
    let paid : moved.inq.rmem_alloc ≡ held r.inq + len f' + x = ground (arith, e, short, fits) in
    let same_held : held moved.inq ≡ held r.inq = ground arith in
    subst (λ y. y.inq.rmem_alloc ≡ held y.inq + x) (sym same)
      (omega (arith, fin, queued, kept, paid, same_held))
