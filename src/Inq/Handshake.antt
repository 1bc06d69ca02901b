-- ===== src/Inq/Handshake.antt =====
-- CRYPTO frames in inqueue.c: `quic_inq_handshake_tail` and `quic_inq_handshake_recv`, on the keys of
-- the frame's level. Handshake messages go to the reader; those of level 0, the new session ticket,
-- are put together in a buffer.
pub mod Passing
pub mod Messages
use quic.Prelude.{
  ℕ, ◌+◌, ◌-◌, Bool, true, false, not, ◌&&◌, ◌||◌, ltb, leb, ◌==◌, if◌then◌else◌, Option, none,
  some, List, [], ◌∷◌, ◌++◌, length,
}
use quic.Prelude.Result.{Errno, enobufs}
use quic.Codec.{get_int}
use quic.Inq.{
  RxFrame, Inq, Env, len, rfree, set_owner_r, no_room, event_recv, event_new_session_ticket,
}
use quic.Inq.Streams.{end_of, keep, trimmed}

abbrev pub ticket_max_len : ℕ
ticket_max_len = 4096

abbrev pub error_crypto_buf_exceeded : ℕ
error_crypto_buf_exceeded = 13

-- The fields of `struct quic_crypto` that receiving uses.
pub record CryptoRx : Type 0 where
  pub recv_offset : ℕ
  pub ticket_ready : Bool

-- `append` tells whether the ticket's buffer can grow to a length.
pub record Hs : Type 0 where
  pub inq : Inq
  pub crypto : CryptoRx
  pub ticket : List ℕ

abbrev pub with_hs_inq : Hs → Inq → Hs
with_hs_inq h q = record h { inq = q }

-- A handshake message goes before the data and the events.
unfoldable pub insert_message : List RxFrame → RxFrame → List RxFrame
insert_message [] f = f ∷ []
insert_message (g ∷ gs) f = if g.level == 0 then f ∷ g ∷ gs else g ∷ insert_message gs f

-- The length in the header of a TLS message of at least four bytes.
abbrev pub message_length : List ℕ → Option ℕ
message_length ticket = elim (get_int ticket 1) [
  | none ↦ none
  | some (type, rest) ↦ elim (get_int rest 3) [ none ↦ none | some (n, rest') ↦ some n ]
]

-- Has all of the message arrived? The reader is told; the event is made of what `ticket` points to,
-- the structure, and not of its bytes.
unfoldable pub announce_ticket : Env → Hs → Hs
unfolding event_recv
announce_ticket env h = elim (message_length h.ticket) [
  | none ↦ h
  | some n ↦ if ltb (length h.ticket) (n + 4) then h else record h {
    crypto = record h.crypto { ticket_ready = true };
    inq = (event_recv env h.inq event_new_session_ticket (env.ticket_memory (length h.ticket))).0;
  }
]

-- A ticket that cannot be stored is given up.
unfoldable pub append_ticket : Env → (ℕ → Bool) → Hs → RxFrame → Hs
unfolding announce_ticket
append_ticket env append h f =
    let h' = record h { ticket = h.ticket ++ f.bytes } in
    if not (len f == 0) && not (append (length h.ticket + len f))
    then record h { ticket = [] }
    else if leb 4 (length h'.ticket)
    then announce_ticket env h'
    else h'

unfoldable pub ticket_tail : Env → (ℕ → Bool) → Hs → RxFrame → Hs
unfolding append_ticket
ticket_tail env append h f =
    if not h.crypto.ticket_ready
      && leb h.crypto.recv_offset ticket_max_len
      && (h.crypto.recv_offset == length h.ticket + len f)
    then append_ticket env append h f
    else h

-- The memory of the bytes dropped is given back, and the level's offset moves on.
unfoldable pub hs_advance : Hs → ℕ → RxFrame → Hs
unfolding rfree set_owner_r
hs_advance h overlap f' = record h {
  inq = if overlap == 0 then h.inq else set_owner_r (len f') (rfree (len f' + overlap) h.inq);
  crypto = record h.crypto { recv_offset = h.crypto.recv_offset + len f' };
}

unfoldable pub pass_message : Hs → RxFrame → Hs
unfolding insert_message
pass_message h f =
    with_hs_inq h
      (record h.inq { recv_list = insert_message h.inq.recv_list (record f { offset = 0 }) })

-- What is left of the frame is a message, or a piece of the ticket.
unfoldable pub crypto_deliver : Env → (ℕ → Bool) → Hs → RxFrame → Hs
unfolding rfree pass_message ticket_tail
crypto_deliver env append h f =
    if not (f.level == 0)
    then pass_message h f
    else (let h' = ticket_tail env append h f in with_hs_inq h' (rfree (len f) h'.inq))

-- `none` is an overrun: a frame that ends before the offset.
unfoldable pub handshake_tail : Env → (ℕ → Bool) → Hs → RxFrame → Option Hs
unfolding hs_advance crypto_deliver
handshake_tail env append h f =
    let overlap = h.crypto.recv_offset - f.offset in
    let f' = trimmed f overlap in
    if ltb (len f) overlap
    then none
    else some (crypto_deliver env append (hs_advance h overlap f') f')

-- A frame in its place by level and offset; `none` where another covers it.
unfoldable pub insert_crypto : List RxFrame → RxFrame → Option (List RxFrame)
insert_crypto [] f = some (f ∷ [])
insert_crypto (g ∷ gs) f =
    let behind = keep g (insert_crypto gs f) in
    if ltb g.level f.level
    then behind
    else if ltb f.level g.level || ltb f.offset g.offset
    then some (f ∷ g ∷ gs)
    else if leb (end_of f) (end_of g)
    then none
    else behind

abbrev pub skip_crypto : RxFrame → Option (List RxFrame × Hs) → Option (List RxFrame × Hs)
skip_crypto f none = none
skip_crypto f (some (kept, h)) = some (f ∷ kept, h)

abbrev pub then_hs {ℓ} : {B : Type ℓ} → Option Hs → (Hs → Option B) → Option B
then_hs none next = none
then_hs (some h) next = next h

-- The frames that are now in order are taken up; the rest stays.
unfoldable pub merge_crypto : Env → (ℕ → Bool) → ℕ → List RxFrame → Hs → Option (List RxFrame × Hs)
unfolding handshake_tail rfree
merge_crypto env append level [] h = some ([], h)
merge_crypto env append level (f ∷ fs) h =
    let skipped = skip_crypto f (merge_crypto env append level fs h) in
    let dropped = merge_crypto env append level fs (with_hs_inq h (rfree (len f) h.inq)) in
    let tailed = then_hs (handshake_tail env append h f) (merge_crypto env append level fs) in
    if ltb f.level level
    then skipped
    else if ltb level f.level || ltb h.crypto.recv_offset f.offset
    then some (f ∷ fs, h)
    else if leb (end_of f) h.crypto.recv_offset
    then dropped
    else tailed

abbrev pub with_handshake_list : Hs → List RxFrame → Hs
with_handshake_list h l = with_hs_inq h (record h.inq { handshake_list = l })

abbrev pub hs_placed : Hs → RxFrame → Option (List RxFrame) → Hs
hs_placed h f none = with_hs_inq h (rfree (len f) h.inq)
hs_placed h f (some l) = with_handshake_list h l

-- What `quic_inq_handshake_recv` returns: 0 (`none`), or the error and the frame's `errcode`; and the
-- state. An overrun is no return.
abbrev pub end_crypto : Option (List RxFrame × Hs) → Option (Hs × Option (Errno × ℕ))
end_crypto none = none
end_crypto (some (kept, h)) = some (with_handshake_list h kept, none)

unfoldable pub hs_merged : Env → (ℕ → Bool) → ℕ → Hs → Option (Hs × Option (Errno × ℕ))
unfolding merge_crypto
hs_merged env append level h = end_crypto (merge_crypto env append level h.inq.handshake_list h)

unfoldable pub handshake_recv : Env → (ℕ → Bool) → Hs → RxFrame → Option (Hs × Option (Errno × ℕ))
unfolding no_room set_owner_r rfree insert_crypto handshake_tail hs_merged
handshake_recv env append h f =
    let charged = with_hs_inq h (set_owner_r (len f) h.inq) in
    if leb (end_of f) h.crypto.recv_offset
    then some (h, none)
    else if no_room env h.inq (len f)
    then some (h, some (enobufs, error_crypto_buf_exceeded))
    else if ltb h.crypto.recv_offset f.offset
    then some (hs_placed charged f (insert_crypto charged.inq.handshake_list f), none)
    else then_hs (handshake_tail env append charged f) (hs_merged env append f.level)
