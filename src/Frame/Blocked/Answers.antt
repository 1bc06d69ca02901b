-- ===== src/Frame/Blocked/Answers.antt =====
-- What a peer that is blocked gets for an answer, and what it makes of it.
use quic.Prelude.{ℕ, ◌^◌, ◌<◌, ◌≡◌, refl, some, none, List, ◌∷◌, ◌++◌, length, max}
use quic.Prelude.Words.{add64}
use quic.Codec.{put_var}
use quic.Codec.Varint.{get_var-put_var}
use quic.Outq.{TxFrame, ctrl_tail}
use quic.Frame.{Conn, FrameEnv, took, transmit_frame, new_frame, frame_max_data}
use quic.Frame.Limits.{max_data_create, max_data_process}
use quic.Frame.Limits.Agreement.{max_data_process-create, used-put_var}
use quic.Frame.Blocked.{data_blocked_process, answer_max_data, halved, with_max_bytes}

-- A DATA_BLOCKED frame, whatever its number, is answered where the answer can be allocated: one
-- frame is queued, and nothing else changes but the limit of the receive queue, which is set to what
-- was read and one window, halved under memory pressure. The other endpoint, at any time, makes of
-- that frame a credit that is the limit, or its old one if that was larger.
pub data_blocked-max_data :
    (env : FrameEnv) (c peer : Conn) (blocked address : ℕ) (rest rest' : List ℕ)
    → env.tx_frame ≡ some address
    → blocked < 2 ^ 62
    → add64 c.inq.bytes (halved env c.inq.max_data) < 2 ^ 62
    → let limit = add64 c.inq.bytes (halved env c.inq.max_data) in
      (f : TxFrame) × (body : List ℕ) × (data_blocked_process env (put_var blocked ++ rest) c
        ≡ took
            (length (put_var blocked))
            (record (with_max_bytes c limit) { outq = ctrl_tail c.outq f }))
      × (f.content ≡ 0x10 ∷ body)
      × (max_data_process (body ++ rest') peer
          ≡ took (length body) (record peer {
            credit = record peer.credit { max_bytes = max peer.credit.max_bytes limit };
          }))
unfolding data_blocked_process answer_max_data transmit_frame
data_blocked-max_data env c peer blocked address rest rest' mem small fits =
    let limit = add64 c.inq.bytes (halved env c.inq.max_data) in
    let (body, written, read) = max_data_process-create peer limit rest' fits in
    (
      record (new_frame address frame_max_data none (max_data_create limit)) { path = 0 },
      body,
      rw (get_var-put_var blocked rest small, data_blocked_process, used-put_var blocked rest, mem)
          refl,
      written,
      read,
    )
