-- ===== src/Outq/Loss/Frames.antt =====
-- No frame is forgotten: where the frames of lost packets go.
use quic.Prelude.{
  ℕ, ◌+◌, ◌≡◌, refl, sym, subst, ◌∙◌, arith, Bool, false, not, ◌&&◌, ◌||◌, ◌==◌, if◌then◌else◌,
  Option, none, some, List, [], ◌∷◌, inl, inr, Bool-cases,
}
use quic.Prelude.Words.{sub32}
use quic.Cong.Ops.{on_packet_lost}
use quic.Outq.{
  TxFrame, Outq, PacketSent, before, is_unsent, number_lt, is_stream, insert_retransmit,
  retransmit_frame, wfree, sync_window,
}
use quic.Outq.Loss.{
  Sending, lose, lost_frames, take_frame, put_back, requeue, mark_loop, retransmit_mark, started,
  set_loss_time, is_dropped,
}
use quic.Outq.Loss.Steps.{beyond, other, newer, recent, gone, mark_step}

-- One for a frame with the ID that is to be sent again when it is lost.
unfoldable weight : ℕ → TxFrame → ℕ
weight id f = if (f.id == id) && not (is_dropped f.kind) then 1 else 0

unfoldable pub weights : ℕ → List TxFrame → ℕ
unfolding weight
weights id [] = 0
weights id (f ∷ fs) = weight id f + weights id fs

-- How often such a frame is in the queues.
abbrev pub kept_frames : ℕ → Outq → ℕ
kept_frames id q =
    weights id q.transmitted_list + weights id q.stream_list + weights id q.control_list

abbrev TakenFrom : ℕ → List TxFrame → Option (TxFrame × List TxFrame) → Type 0
TakenFrom id fs none = Unit
TakenFrom id fs (some (f, rest)) = weights id fs ≡ weight id f + weights id rest

TakenFrom-put_back :
    (id : ℕ) (g : TxFrame) (fs : List TxFrame) (o : Option (TxFrame × List TxFrame))
    → TakenFrom id fs o
    → TakenFrom id (g ∷ fs) (put_back g o)
unfolding weights
TakenFrom-put_back id g fs none h = tt
TakenFrom-put_back id g fs (some (f, rest)) h = omega (arith, h)

take_frame-TakenFrom : (id i : ℕ) (fs : List TxFrame) → TakenFrom id fs (take_frame i fs)
unfolding take_frame weights
take_frame-TakenFrom id i [] = tt
take_frame-TakenFrom id i (f ∷ fs) = elim (Bool-cases (f.id == i)) [
  | inl mine ↦ rw mine refl
  | inr more ↦ rw more (TakenFrom-put_back id f fs (take_frame i fs) (take_frame-TakenFrom id i fs))
]

weights-insert_retransmit :
    (id : ℕ) (gs : List TxFrame) (f : TxFrame)
    → weights id (insert_retransmit gs f) ≡ weights id gs + weight id f
unfolding weights insert_retransmit
weights-insert_retransmit id [] f = omega arith
weights-insert_retransmit id (g ∷ gs) f =
    elim (Bool-cases (before f.level g.level (is_unsent g.number || number_lt f.number g.number))) [
      | inl a ↦ rw a (omega arith)
      | inr a ↦ rw a (omega (arith, weights-insert_retransmit id gs f))
    ]

kept-retransmit_frame :
    (id : ℕ) (q : Outq) (f : TxFrame)
    → kept_frames id (retransmit_frame q f) ≡ kept_frames id q + weight id f
unfolding retransmit_frame
kept-retransmit_frame id q f = elim (Bool-cases (is_stream f.kind)) [
  | inl a ↦ rw a (omega (arith, weights-insert_retransmit id q.stream_list f))
  | inr a ↦ rw a (omega (arith, weights-insert_retransmit id q.control_list f))
]

kept-requeue :
    (id : ℕ) (q : Outq) (o : Option (TxFrame × List TxFrame))
    → TakenFrom id q.transmitted_list o
    → kept_frames id (requeue q o).0 ≡ kept_frames id q
unfolding weight
kept-requeue id q none h = refl
kept-requeue id q (some (f, rest)) h =
    let q' = record q { transmitted_list = rest } in
    let put = kept-retransmit_frame id q' (record f { transmitted = false }) in
    elim (Bool-cases (is_dropped f.kind)) [
      | inl dropped ↦
          let light : weight id f ≡ 0 = ground (arith, dropped) in
          rw dropped (omega (arith, h, light))
      | inr again ↦ rw again (omega (arith, h, put))
    ]

kept-lost_frames :
    (id : ℕ) (ids : List ℕ) (q : Outq) (bytes : ℕ)
    → kept_frames id (lost_frames ids q bytes) ≡ kept_frames id q
unfolding lost_frames wfree
kept-lost_frames id [] q bytes = refl
kept-lost_frames id (i ∷ ids) q bytes =
    let o = take_frame i q.transmitted_list in
    kept-lost_frames id ids (requeue q o).0 (bytes + (requeue q o).1)
    ∙ kept-requeue id q o (take_frame-TakenFrom id i q.transmitted_list)

kept-sync_window : (id : ℕ) (q : Outq) (w : ℕ) → kept_frames id (sync_window q w) ≡ kept_frames id q
unfolding sync_window
kept-sync_window id q w = ground arith

kept-lose :
    (id : ℕ) (s : Sending) (p : PacketSent) → kept_frames id (lose s p).outq ≡ kept_frames id s.outq
unfolding lose
kept-lose id s p =
    let q = record s.outq { inflight = sub32 s.outq.inflight p.frame_len } in
    kept-sync_window id (lost_frames p.frame_array q 0)
      (on_packet_lost s.cong s.space.max_pn_acked_time).window
    ∙ kept-lost_frames id p.frame_array q 0

kept-set_loss_time :
    (id : ℕ) (s : Sending) (p : PacketSent)
    → kept_frames id (set_loss_time s p).outq ≡ kept_frames id s.outq
kept-set_loss_time id s p = ground arith

mark_loop-kept :
    (id : ℕ) (immediate : Bool) (level : ℕ) (list : List PacketSent) (s : Sending)
    → kept_frames id (mark_loop immediate level list s).1.outq ≡ kept_frames id s.outq
unfolding mark_loop
mark_loop-kept id immediate level [] s = refl
mark_loop-kept id immediate level (p ∷ ps) s =
    let Kept : List PacketSent × Sending → Type 0 =
      λ r. kept_frames id r.1.outq ≡ kept_frames id s.outq in
    elim (mark_step immediate level p ps s) [
      | beyond above app e ↦ subst Kept (sym e) refl
      | other differs e ↦ subst Kept (sym e) (mark_loop-kept id immediate level ps s)
      | newer same later e ↦ subst Kept (sym e) refl
      | recent same young e ↦ subst Kept (sym e) (kept-set_loss_time id s p)
      | gone same e ↦
          subst Kept (sym e) (mark_loop-kept id immediate level ps (lose s p) ∙ kept-lose id s p)
    ]

-- A frame that is to be sent again when it is lost, which all are but DATAGRAM and PING, is neither
-- forgotten nor doubled when packets are declared lost: it is in the queues of transmitted, stream and
-- control frames as often as before, whichever packets held it, even if several did.
pub kept-retransmit_mark :
    (id : ℕ) (s : Sending) (level : ℕ) (immediate : Bool) (now : ℕ)
    → kept_frames id (retransmit_mark s level immediate now).outq ≡ kept_frames id s.outq
unfolding retransmit_mark
kept-retransmit_mark id s level immediate now =
    mark_loop-kept id immediate level s.outq.packet_sent_list (started s now)
