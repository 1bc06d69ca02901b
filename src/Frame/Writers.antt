-- ===== src/Frame/Writers.antt =====
-- The frames of frame.c whose `create` function has no part in an answer: PING, PADDING,
-- HANDSHAKE_DONE, PATH_CHALLENGE, CONNECTION_CLOSE and DATAGRAM. The bytes are the result; whether
-- they can be allocated and the path's random bytes are arguments.
pub mod Close
use quic.Prelude.{
  ℕ, ◌+◌, ◌-◌, Bool, not, ltb, ◌==◌, if◌then◌else◌, List, [], ◌∷◌, ◌++◌, length, replicate,
}
use quic.Prelude.Words.{sub32}
use quic.Prelude.Result.{enomem, emsgsize, Result, ok, err}
use quic.Codec.{put_var, var_len}
use quic.Frame.{Conn}
use quic.Frame.Other.{frame_connection_close, frame_datagram_len}

abbrev pub frame_ping : ℕ
frame_ping = 0x01

abbrev pub frame_path_challenge : ℕ
frame_path_challenge = 0x1a

abbrev pub frame_handshake_done : ℕ
frame_handshake_done = 0x1e

-- A probe is filled up with padding to `size`, which counts the packet's `overhead`.
unfoldable pub ping_create : ℕ → ℕ → List ℕ
ping_create size overhead =
    put_var frame_ping ++ (if ltb overhead size then replicate (size - overhead - 1) 0 else [])

unfoldable pub padding_create : ℕ → List ℕ
padding_create frame_len = put_var 0 ++ replicate frame_len 0

unfoldable pub handshake_done_create : List ℕ
handshake_done_create = put_var frame_handshake_done

unfoldable pub path_challenge_create : List ℕ → List ℕ
path_challenge_create entropy = put_var frame_path_challenge ++ entropy

-- The bytes that `strlen` counts.
unfoldable pub c_string : List ℕ → List ℕ
c_string [] = []
c_string (b ∷ bs) = let rest = c_string bs in if b == 0 then [] else b ∷ rest

-- The frame behind its type.
unfoldable pub close_body : ℕ → Conn → List ℕ
close_body type c =
    let phrase = c_string c.close_phrase in
    put_var c.close_errcode
    ++ ((if type == frame_connection_close then put_var c.close_frame else [])
        ++ (put_var (length phrase) ++ phrase))

unfoldable pub connection_close_create : ℕ → Conn → List ℕ
connection_close_create type c = put_var type ++ close_body type c

-- A DATAGRAM frame is not cut: a message that does not fit is an error.
unfoldable pub datagram_create : Bool → ℕ → List ℕ → Result (List ℕ)
datagram_create alloc max_frame_len msg =
    if ltb (sub32 max_frame_len (1 + var_len max_frame_len)) (length msg)
    then err emsgsize
    else if not alloc
    then err enomem
    else ok (put_var frame_datagram_len ++ (put_var (length msg) ++ msg))
