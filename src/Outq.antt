-- ===== src/Outq.antt =====
-- modules/net/quic/outqueue.c and outqueue.h: data on its way to the network. A frame has an `id` in
-- place of its address: a sent packet points to its frames by it. `number` is `none` while it is
-- negative, that is, until the frame is sent; `content` is the bytes at `data`. Transmission itself is not modelled.
pub mod Queues
pub mod Loss
pub mod Timeouts
pub mod Flow
mod Runs
use quic.Prelude.{
  ℕ, ◌+◌, ◌-◌, ◌*◌, ◌%◌, Bool, true, false, not, ◌&&◌, ◌||◌, ltb, leb, ◌==◌, if◌then◌else◌, Option,
  none, some, List, [], ◌∷◌, ◌++◌,
}
use quic.Prelude.Words.{u32_mod, add32, sub32}

-- What the type of a frame is asked for: is it STREAM, DATAGRAM or PING, or one of those whose
-- acknowledgement changes something?
pub data FrameKind : Type 0 where
  stream_kind dgram_kind ping_kind other_kind : FrameKind
  reset_stream_kind new_token_kind data_blocked_kind stream_data_blocked_kind : FrameKind
  streams_blocked_bidi_kind streams_blocked_uni_kind : FrameKind

pub record TxFrame : Type 0 where
  pub id : ℕ
  pub stream : Option ℕ
  pub kind : FrameKind
  pub level : ℕ
  pub number : Option ℕ
  pub bytes : ℕ
  pub len : ℕ
  pub ack_eliciting : Bool
  pub transmitted : Bool
  pub path : ℕ
  pub content : List ℕ

pub record PacketSent : Type 0 where
  pub sent_time : ℕ
  pub number : ℕ
  pub level : ℕ
  pub frame_len : ℕ
  pub frame_array : List ℕ

-- `wmem` is the socket's count of the bytes charged for sending; `sndbuf_locked` is the flag
-- SOCK_SNDBUF_LOCK.
pub record Outq : Type 0 where
  pub packet_sent_list : List PacketSent
  pub transmitted_list : List TxFrame
  pub datagram_list : List TxFrame
  pub control_list : List TxFrame
  pub stream_list : List TxFrame
  pub stream_list_len : ℕ
  pub unsent_bytes : ℕ
  pub inflight : ℕ
  pub window : ℕ
  pub pto_count : ℕ
  pub max_ack_delay : ℕ
  pub wmem : ℕ
  pub sndbuf : ℕ
  pub sndbuf_locked : Bool

unfoldable pub wfree : ℕ → Outq → Outq
wfree n q = record q { wmem = q.wmem - n }

unfoldable pub set_owner_w : ℕ → Outq → Outq
set_owner_w n q = record q { wmem = q.wmem + n }

unfoldable pub sync_window : Outq → ℕ → Outq
sync_window q window =
    if q.window == window
    then q
    else if q.sndbuf_locked
    then record q { window = window }
    else record q { window = window; sndbuf = window * 2 }

-- Handshake levels come before the application's, which is 0.
abbrev pub level_before : ℕ → ℕ → Bool
level_before a b = not (a == 0) && ((b == 0) || ltb a b)

-- A frame goes before another if its level does, or if it is of the same level and `by_number`.
abbrev pub before : ℕ → ℕ → Bool → Bool
before level other by_number = level_before level other || ((level == other) && by_number)

abbrev pub number_lt : Option ℕ → Option ℕ → Bool
number_lt none none = false
number_lt none (some b) = true
number_lt (some a) none = false
number_lt (some a) (some b) = ltb a b

abbrev pub is_unsent : Option ℕ → Bool
is_unsent none = true
is_unsent (some a) = false

unfoldable pub insert_transmitted : List TxFrame → TxFrame → List TxFrame
insert_transmitted [] f = f ∷ []
insert_transmitted (g ∷ gs) f =
    if before f.level g.level (number_lt f.number g.number)
    then f ∷ g ∷ gs
    else g ∷ insert_transmitted gs f

unfoldable pub transmitted_tail : Outq → TxFrame → Outq
unfolding insert_transmitted
transmitted_tail q f = record q {
  transmitted_list = insert_transmitted q.transmitted_list (record f { transmitted = true });
}

-- Only a handshake level is looked for a place.
unfoldable pub insert_sent : List PacketSent → PacketSent → List PacketSent
insert_sent [] p = p ∷ []
insert_sent (o ∷ os) p = if level_before p.level o.level then p ∷ o ∷ os else o ∷ insert_sent os p

unfoldable pub packet_sent_tail : Outq → PacketSent → Outq
unfolding insert_sent
packet_sent_tail q p = record q { packet_sent_list = insert_sent q.packet_sent_list p }

-- The loop of quic_outq_ctrl_tail: `level_before` for a handshake level, then the test for a frame
-- that elicits no acknowledgement; behind a first frame, one of the application goes to the end.
unfoldable pub insert_ctrl : List TxFrame → TxFrame → List TxFrame
insert_ctrl [] f = f ∷ []
insert_ctrl (g ∷ gs) f =
    let behind = g ∷ insert_ctrl gs f in
    if not (f.level == 0) && ((g.level == 0) || ltb f.level g.level)
    then f ∷ g ∷ gs
    else if not (f.level == 0) && ltb g.level f.level
    then behind
    else if not f.ack_eliciting
    then f ∷ g ∷ gs
    else if f.level == 0
    then g ∷ (gs ++ (f ∷ []))
    else behind

unfoldable pub ctrl_tail : Outq → TxFrame → Outq
unfolding insert_ctrl set_owner_w
ctrl_tail q f = set_owner_w f.bytes (record q {
  unsent_bytes = add32 q.unsent_bytes f.bytes;
  control_list = insert_ctrl q.control_list f;
})

unfoldable pub dgram_tail : Outq → TxFrame → Outq
unfolding set_owner_w
dgram_tail q f = set_owner_w f.bytes (record q {
  unsent_bytes = add32 q.unsent_bytes f.bytes;
  datagram_list = q.datagram_list ++ (f ∷ []);
})

unfoldable pub insert_retransmit : List TxFrame → TxFrame → List TxFrame
insert_retransmit [] f = f ∷ []
insert_retransmit (g ∷ gs) f =
    if before f.level g.level (is_unsent g.number || number_lt f.number g.number)
    then f ∷ g ∷ gs
    else g ∷ insert_retransmit gs f

abbrev pub is_stream : FrameKind → Bool
is_stream stream_kind = true
is_stream _ = false

unfoldable pub retransmit_frame : Outq → TxFrame → Outq
unfolding insert_retransmit
retransmit_frame q f =
    if is_stream f.kind
    then record q {
      stream_list_len = add32 q.stream_list_len f.len;
      stream_list = insert_retransmit q.stream_list f;
    }
    else record q { control_list = insert_retransmit q.control_list f }

-- The frames of a stream taken out of a list: those that stay, and the sums of the others' bytes and
-- lengths.
unfoldable pub purge_frames : List TxFrame → ℕ → List TxFrame × ℕ × ℕ
purge_frames [] id = ([], 0, 0)
purge_frames (f ∷ fs) id =
    let (kept, bytes, len) = purge_frames fs id in
    elim f.stream [
      | none ↦ (f ∷ kept, bytes, len)
      | some i ↦ if i == id then (kept, f.bytes + bytes, f.len + len) else (f ∷ kept, bytes, len)
    ]

unfoldable pub purge_transmitted : Outq → ℕ → Outq
unfolding purge_frames wfree
purge_transmitted q id =
    let (kept, bytes, len) = purge_frames q.transmitted_list id in
    wfree bytes (record q { transmitted_list = kept })

unfoldable pub purge_stream : Outq → ℕ → Outq
unfolding purge_frames wfree
purge_stream q id =
    let (kept, bytes, len) = purge_frames q.stream_list id in
    wfree bytes
      (record q { stream_list = kept; stream_list_len = sub32 q.stream_list_len (len % u32_mod) })
