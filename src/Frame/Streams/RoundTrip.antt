-- ===== src/Frame/Streams/RoundTrip.antt =====
-- The header of a STREAM frame, from `quic_frame_stream_create` to `quic_frame_stream_process`.
use mathlib.Core.List.{append_assoc}
use quic.Prelude.{
  ℕ, ◌+◌, ◌^◌, ◌≤◌, ◌<◌, ◌≡◌, refl, ap, ◌∙◌, inl, inr, Bool, true, false, not, some, List, [], ◌++◌,
  length, length-append, arith, leb, ◌==◌, ==_iff, if◌then◌else◌, Bool-cases, le→ltb,
  take-length-append, ◌||◌,
}
use quic.Prelude.Result.{ok}
use quic.Codec.{put_var, get_var}
use quic.Codec.Varint.{get_var-put_var}
use quic.Stream.{Stream, StreamTable, recv_state_recvd}
use quic.Stream.Ops.{get}
use quic.Inq.{RxFrame}
use quic.Inq.Streams.{stream_recv}
use quic.Frame.{Conn, FrameEnv}
use quic.Frame.Ack.RoundTrip.{used-append}
use quic.Frame.Streams.{
  StreamHead, read_offset, read_length, has_off, has_len, has_fin, stream_head, stream_type,
  stream_header, stream_data, stream_process, received,
}

-- What the bits of the type say.
type_bits :
    (s : Stream) (fin : Bool)
    → (has_off (stream_type s fin) ≡ not (s.send.bytes == 0))
      × (has_len (stream_type s fin) ≡ true)
      × (has_fin (stream_type s fin) ≡ fin)
unfolding stream_type
type_bits s true = elim (Bool-cases (s.send.bytes == 0)) [
  | inl e ↦ rw e (refl, refl, refl)
  | inr e ↦ rw e (refl, refl, refl)
]
type_bits s false = elim (Bool-cases (s.send.bytes == 0)) [
  | inl e ↦ rw e (refl, refl, refl)
  | inr e ↦ rw e (refl, refl, refl)
]

offset_bytes : Stream → List ℕ
offset_bytes s = if s.send.bytes == 0 then [] else put_var s.send.bytes

read_offset-create :
    (s : Stream) (fin : Bool) (rest : List ℕ)
    → s.send.bytes < 2 ^ 62
    → read_offset (stream_type s fin) (offset_bytes s ++ rest) ≡ some (s.send.bytes, rest)
unfolding offset_bytes
read_offset-create s fin rest small = elim (Bool-cases (s.send.bytes == 0)) [
  | inl e ↦
      rw ((type_bits s fin).0, e)
        (ap (λ (n : ℕ). some (n, rest)) (omega (arith, (==_iff s.send.bytes 0).0 e)))
  | inr e ↦ rw ((type_bits s fin).0, e, get_var-put_var s.send.bytes rest small) refl
]

read_length-create :
    (s : Stream) (fin : Bool) (n : ℕ) (rest : List ℕ)
    → n < 2 ^ 62
    → n ≤ length rest
    → read_length (stream_type s fin) (put_var n ++ rest) ≡ some (n, rest)
read_length-create s fin n rest small there =
    rw ((type_bits s fin).1, get_var-put_var n rest small, le→ltb (length rest) n there) refl

stream_head-read :
    (type n : ℕ) (h : StreamHead) (p p1 p2 : List ℕ)
    → get_var p ≡ some (n, h.stream_id, p1)
    → read_offset type p1 ≡ some (h.offset, p2)
    → read_length type p2 ≡ some (h.payload_len, h.payload)
    → stream_head type p ≡ some h
unfolding stream_head
stream_head-read type n h p p1 p2 e e1 e2 = rw (e, stream_head, e1, e2) refl

assoc_three : (p1 p2 p3 rest : List ℕ) → (p1 ++ (p2 ++ p3)) ++ rest ≡ p1 ++ (p2 ++ (p3 ++ rest))
assoc_three p1 p2 p3 rest = simp append_assoc

-- The header that is written in front of data is read back: the stream, the offset, which is left
-- out where it is 0, and the length; what is left is the data with whatever follows.
pub stream_head-stream_header :
    (s : Stream) (fin : Bool) (bytes rest : List ℕ)
    → s.id < 2 ^ 62
    → s.send.bytes < 2 ^ 62
    → length bytes < 2 ^ 62
    → stream_head (stream_type s fin) (stream_header s (length bytes) ++ (bytes ++ rest))
      ≡ some (record {
        stream_id = s.id;
        offset = s.send.bytes;
        payload_len = length bytes;
        payload = bytes ++ rest;
      })
unfolding stream_header offset_bytes
stream_head-stream_header s fin bytes rest hid hoff hlen =
    ap (stream_head (stream_type s fin))
      (assoc_three (put_var s.id) (offset_bytes s) (put_var (length bytes)) (bytes ++ rest))
    ∙ stream_head-read (stream_type s fin) _ _ _ _ _ (get_var-put_var s.id _ hid)
        (read_offset-create s fin _ hoff)
        (read_length-create s fin (length bytes) (bytes ++ rest) hlen
          (omega (arith, length-append bytes rest)))

-- The frame as it arrives in the receive queue of the other endpoint, for its stream `id`.
abbrev pub arriving : ℕ → Stream → Bool → ℕ → List ℕ → RxFrame
arriving id s fin level bytes = record {
  stream = some id;
  level = level;
  offset = s.send.bytes;
  bytes = bytes;
  stream_fin = fin;
  event = false;
  dgram = false;
}

module _ (env : FrameEnv) (c : Conn) (t : StreamTable) (s r : Stream) (level : ℕ) (fin : Bool)
    (bytes rest : List ℕ) where
  stream_data-recv :
      (n : ℕ) (h : StreamHead)
      → (leb recv_state_recvd r.recv.state || r.recv.stop_sent) ≡ false
      → env.nframe_mem ≡ true
      → h ≡ record {
        stream_id = s.id;
        offset = s.send.bytes;
        payload_len = length bytes;
        payload = bytes ++ rest;
      }
      → stream_data env (stream_type s fin) level h n (record c { streams = t }) r
        ≡ received n
            (record c { streams = t })
            (stream_recv env.rx c.is_serv
              (record { inq = c.inq; table = t; stream = r })
              (arriving r.id s fin level bytes))
  unfolding stream_data
  stream_data-recv n h going mem e =
      rw (going, mem, e, (type_bits s fin).2, take-length-append bytes rest) refl

  -- A STREAM frame that is written for a stream arrives at the other endpoint, where that stream can
  -- still receive, as the same data at the same offset with the same FIN: `quic_inq_stream_recv` is
  -- called with it, its result is the result, and all bytes of the frame are taken.
  pub stream_process-stream_header :
      s.id < 2 ^ 62
      → s.send.bytes < 2 ^ 62
      → length bytes < 2 ^ 62
      → get c.streams s.id false c.is_serv false env.stream_mem ≡ ok (t, r)
      → (leb recv_state_recvd r.recv.state || r.recv.stop_sent) ≡ false
      → env.nframe_mem ≡ true
      → stream_process env level
          (stream_type s fin)
          (stream_header s (length bytes) ++ (bytes ++ rest))
          c
        ≡ received
            (length (stream_header s (length bytes)) + length bytes)
            (record c { streams = t })
            (stream_recv env.rx c.is_serv
              (record { inq = c.inq; table = t; stream = r })
              (arriving r.id s fin level bytes))
  unfolding stream_process
  stream_process-stream_header hid hoff hlen found going mem =
      rw
        (
          stream_head-stream_header s fin bytes rest hid hoff hlen,
          stream_process,
          found,
          used-append (stream_header s (length bytes)) (bytes ++ rest),
        )
        (stream_data-recv _ _ going mem refl)
