-- ===== src/Frame/Sack/Effects.antt =====
-- What the functions of frame.c for the frames of an acknowledged packet leave alone.
use quic.Prelude.{
  ℕ, ◌+◌, ◌≡◌, refl, ap, ◌∙◌, arith, inl, inr, Option, none, some, List, [], ◌∷◌, Option-cases,
}
use quic.Stream.{Stream, find}
use quic.Outq.{
  TxFrame, Outq, FrameKind, stream_kind, dgram_kind, ping_kind, other_kind, reset_stream_kind,
  new_token_kind, data_blocked_kind, stream_data_blocked_kind, streams_blocked_bidi_kind,
  streams_blocked_uni_kind, wfree,
}
use quic.Outq.Loss.{take_frame}
use quic.Frame.{Conn}
use quic.Frame.Sack.{
  SackEnv, end_sending, reset_stream_ack, stream_ack, stream_data_blocked_ack, on_stream,
  frame_acked, unlink, ack_one, sack_frames, in_transmitted, in_stream, in_control,
}

-- What an acknowledged frame leaves alone.
abbrev Keeps : Conn → Conn → Type 0
Keeps c c' = (c'.outq ≡ c.outq) × (c'.spaces ≡ c.spaces)

Keeps-on_stream :
    (c : Conn) (id : Option ℕ) (f : Stream → Conn)
    → ((s : Stream) → Keeps c (f s))
    → Keeps c (on_stream c id f)
Keeps-on_stream c none f h = (refl, refl)
Keeps-on_stream c (some id) f h = elim (Option-cases (find c.streams id)) [
  | inl e ↦ rw (e, on_stream) (refl, refl)
  | inr (s, e) ↦ rw (e, on_stream) (h s)
]

Keeps-stream_ack : (env : SackEnv) (c : Conn) (s : Stream) → Keeps c (stream_ack env c s)
unfolding stream_ack end_sending
Keeps-stream_ack env c s = ground arith

Keeps-reset_stream_ack :
    (env : SackEnv) (c : Conn) (s : Stream) → Keeps c (reset_stream_ack env c s)
unfolding reset_stream_ack end_sending
Keeps-reset_stream_ack env c s = (refl, refl)

Keeps-frame_acked :
    (env : SackEnv) (c : Conn) (k : FrameKind) (stream : Option ℕ)
    → Keeps c (frame_acked env c k stream)
unfolding frame_acked
Keeps-frame_acked env c stream_kind stream =
    Keeps-on_stream c stream (stream_ack env c) (Keeps-stream_ack env c)
Keeps-frame_acked env c reset_stream_kind stream =
    Keeps-on_stream c stream (reset_stream_ack env c) (Keeps-reset_stream_ack env c)
Keeps-frame_acked env c new_token_kind stream = (refl, refl)
Keeps-frame_acked env c data_blocked_kind stream = (refl, refl)
Keeps-frame_acked env c stream_data_blocked_kind stream =
    Keeps-on_stream c stream (stream_data_blocked_ack c) (λ s. (refl, refl))
Keeps-frame_acked env c streams_blocked_bidi_kind stream = (refl, refl)
Keeps-frame_acked env c streams_blocked_uni_kind stream = (refl, refl)
Keeps-frame_acked env c dgram_kind stream = (refl, refl)
Keeps-frame_acked env c ping_kind stream = (refl, refl)
Keeps-frame_acked env c other_kind stream = (refl, refl)

-- And what taking it out of its list does.
abbrev KeepsInflight : Outq → Option (TxFrame × Outq) → Type 0
KeepsInflight q none = Unit
KeepsInflight q (some (f, q')) = q'.inflight ≡ q.inflight

unlink-KeepsInflight : (id : ℕ) (q : Outq) → KeepsInflight q (unlink id q)
unfolding unlink
unlink-KeepsInflight id q = from_transmitted (take_frame id q.transmitted_list)
  where
    from_control : (o : Option (TxFrame × List TxFrame)) → KeepsInflight q (in_control q o)
    from_control none = tt
    from_control (some (f, rest)) = refl

    from_stream : (o : Option (TxFrame × List TxFrame)) → KeepsInflight q (in_stream id q o)
    from_stream none = from_control (take_frame id q.control_list)
    from_stream (some (f, rest)) = refl

    from_transmitted :
        (o : Option (TxFrame × List TxFrame)) → KeepsInflight q (in_transmitted id q o)
    from_transmitted none = from_stream (take_frame id q.stream_list)
    from_transmitted (some (f, rest)) = refl

abbrev Balances : Conn → Conn → Type 0
Balances c c' = (c'.outq.inflight ≡ c.outq.inflight) × (c'.spaces ≡ c.spaces)

ack_one-Balances :
    (env : SackEnv) (c : Conn) (o : Option (TxFrame × Outq))
    → KeepsInflight c.outq o
    → Balances c (ack_one env c o).0
ack_one-Balances env c none h = (refl, refl)
ack_one-Balances env c (some (f, q)) h =
    let (queue, spaces) = Keeps-frame_acked env (record c { outq = q }) f.kind f.stream in
    (ap (λ (u : Outq). u.inflight) queue ∙ h, spaces)

pub sack_frames-Balances :
    (env : SackEnv) (ids : List ℕ) (c : Conn) (acked : ℕ) → Balances c (sack_frames env ids c acked)
unfolding sack_frames wfree
sack_frames-Balances env [] c acked = (refl, refl)
sack_frames-Balances env (id ∷ ids) c acked =
    let one = ack_one env c (unlink id c.outq) in
    let (queue, spaces) =
      ack_one-Balances env c (unlink id c.outq) (unlink-KeepsInflight id c.outq) in
    let (queue', spaces') = sack_frames-Balances env ids one.0 (acked + one.1) in
    (queue' ∙ queue, spaces' ∙ spaces)
