-- ===== src/Frame/Other.antt =====
-- The other frames of frame.c that are modelled: PADDING, PING, CRYPTO, PATH_CHALLENGE,
-- CONNECTION_CLOSE and DATAGRAM, and the types that are none.
use quic.Prelude.{
  ℕ, suc, ◌+◌, ◌%◌, true, false, not, ◌&&◌, ltb, ◌==◌, if◌then◌else◌, Option, none, some, List, [],
  ◌∷◌, ◌++◌, length, take,
}
use quic.Prelude.Words.{u32_mod}
use quic.Prelude.Result.{Errno, einval, enomem, eprotonosupport}
use quic.Codec.{put_var, get_var}
use quic.Inq.{RxFrame, Inq, dgram_recv}
use quic.Inq.Handshake.{Hs, handshake_recv}
use quic.Frame.{
  Conn, FrameEnv, Processed, took, failed, overrun, used, get_var2, with_event, transmit_frame,
  error_protocol_violation, error_frame_encoding, event_connection_close, frame_path_response,
}

abbrev pub frame_crypto : ℕ
frame_crypto = 0x06

abbrev pub frame_connection_close : ℕ
frame_connection_close = 0x1c

abbrev pub frame_connection_close_app : ℕ
frame_connection_close_app = 0x1d

abbrev pub frame_datagram_len : ℕ
frame_datagram_len = 0x31

abbrev pub path_entropy_len : ℕ
path_entropy_len = 8

abbrev pub close_phrase_max_len : ℕ
close_phrase_max_len = 80

-- How many zero bytes come first.
unfoldable pub padding_process : List ℕ → ℕ
padding_process [] = 0
padding_process (b ∷ bs) = let rest = padding_process bs in if b == 0 then suc rest else 0

abbrev pub data_frame : ℕ → ℕ → List ℕ → RxFrame
data_frame level offset bytes = record {
  stream = none;
  level = level;
  offset = offset;
  bytes = bytes;
  stream_fin = false;
  event = false;
  dgram = false;
}

-- The bytes of a CRYPTO frame, for a message that the limits have cut.
unfoldable pub crypto_bytes : ℕ → List ℕ → List ℕ
crypto_bytes offset msg = put_var frame_crypto ++ (put_var offset ++ (put_var (length msg) ++ msg))

abbrev pub with_hs : Conn → ℕ → Hs → Conn
with_hs c level h = record c {
  inq = h.inq;
  crypto = λ l. if l == level then h.crypto else c.crypto l;
  ticket = h.ticket;
}

abbrev pub crypto_received : ℕ → ℕ → Conn → Option (Hs × Option (Errno × ℕ)) → Processed Conn
crypto_received level n c none = overrun
crypto_received level n c (some (h, none)) = took n (with_hs c level h)
crypto_received level n c (some (h, some (e, code))) = failed e code (with_hs c level h)

unfoldable pub crypto_process : FrameEnv → ℕ → List ℕ → Conn → Processed Conn
crypto_process env level p c = elim (get_var2 p) [
  | none ↦ failed einval 0 c
  | some (offset, n, rest) ↦
      let hs : Hs = record { inq = c.inq; crypto = c.crypto level; ticket = c.ticket } in
      if ltb (length rest) n
      then failed einval 0 c
      else if not env.nframe_mem
      then failed enomem 0 c
      else crypto_received level (used p rest + n) c
          (handshake_recv env.rx env.append_mem hs (data_frame level offset (take n rest)))
]

-- The answer holds the same eight bytes, and takes the path of the challenge.
unfoldable pub path_challenge_process : FrameEnv → List ℕ → Conn → Processed Conn
path_challenge_process env p c =
    let sent =
      transmit_frame env c frame_path_response none
        (put_var frame_path_response ++ take path_entropy_len p) env.path in
    if ltb (length p) path_entropy_len
    then failed einval 0 c
    else elim sent.1 [ none ↦ took path_entropy_len sent.0 | some e ↦ failed e 0 sent.0 ]

-- The frame type is there in a CONNECTION_CLOSE of the transport only.
abbrev pub close_ftype : ℕ → List ℕ → Option (ℕ × List ℕ)
close_ftype type p =
    if type == frame_connection_close
    then elim (get_var p) [ none ↦ none | some (_, ftype, rest) ↦ some (ftype, rest) ]
    else some (0, p)

pub record CloseHead : Type 0 where
  pub errcode : ℕ
  pub ftype : ℕ
  pub phrase_len : ℕ
  pub rest : List ℕ

unfoldable pub close_head : ℕ → ℕ → List ℕ → Option CloseHead
close_head level type p = elim (get_var p) [
  | none ↦ none
  | some (_, errcode, p1) ↦ elim (close_ftype type p1) [
    | none ↦ none
    | some (ftype, p2) ↦
        if (type == frame_connection_close_app) && not (level == 0)
        then none
        else elim (get_var p2) [
          | none ↦ none
          | some (_, n, p3) ↦
              if ltb (length p3) n
              then none
              else some (record { errcode = errcode; ftype = ftype; phrase_len = n; rest = p3 })
        ]
  ]
]

-- The connection is closed, with the peer's error, frame type and phrase.
unfoldable pub close : FrameEnv → Conn → CloseHead → Conn
close env c h =
    let phrase = take h.phrase_len h.rest in
    let c' =
      with_event env c event_connection_close
        (env.close_bytes (h.errcode % u32_mod) (h.ftype % 256) phrase) in
    record c' {
      close_errcode = h.errcode % u32_mod;
      close_frame = h.ftype % 256;
      close_phrase = phrase;
      closed = true;
    }

unfoldable pub connection_close_process : FrameEnv → ℕ → ℕ → List ℕ → Conn → Processed Conn
connection_close_process env level type p c = elim (close_head level type p) [
  | none ↦ failed einval 0 c
  | some h ↦
      if ltb close_phrase_max_len h.phrase_len
      then failed einval 0 c
      else if not (h.phrase_len == 0) && not env.phrase_mem
      then failed enomem 0 c
      else took (used p h.rest + h.phrase_len) (close env c h)
]

abbrev pub dgram_head : ℕ → List ℕ → Option (ℕ × List ℕ)
dgram_head type p =
    if type == frame_datagram_len
    then elim (get_var p) [
      | none ↦ none
      | some (_, n, rest) ↦ if ltb (length rest) n then none else some (n, rest)
    ]
    else some (length p, p)

abbrev pub dgram_received : ℕ → Conn → Inq × Option Errno → Processed Conn
dgram_received n c (q, none) = took n (record c { inq = q })
dgram_received n c (q, some e) = failed e 0 (record c { inq = q })

unfoldable pub datagram_process : FrameEnv → ℕ → List ℕ → Conn → Processed Conn
datagram_process env type p c = elim (dgram_head type p) [
  | none ↦ failed einval 0 c
  | some (n, rest) ↦
      if ltb c.max_datagram_frame_size (n + used p rest + 1)
      then failed einval error_protocol_violation c
      else if not env.nframe_mem
      then failed enomem 0 c
      else dgram_received (used p rest + n) c
          (dgram_recv env.rx c.inq (data_frame 0 0 (take n rest)))
]

unfoldable pub invalid_process : Conn → Processed Conn
invalid_process c = failed eprotonosupport error_frame_encoding c
