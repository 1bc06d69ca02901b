-- ===== src/Outq/Flow.antt =====
-- Flow control of what is sent, in outqueue.c. Whether a frame that tells the peer can be queued is an
-- argument; the frames' transmission is not modelled.
use quic.Prelude.{
  ℕ, ◌+◌, ◌-◌, ◌≤◌, ◌<◌, ◌≡◌, arith, Bool, true, false, not, ◌&&◌, ◌||◌, ltb, if◌then◌else◌, min,
  Option, none, some,
}
use quic.Prelude.Words.{add64, sub64, u64_mod}
use quic.Stream.{Stream}

-- The fields of `struct quic_outqueue` that flow control uses.
pub record Credit : Type 0 where
  pub last_max_bytes : ℕ
  pub max_bytes : ℕ
  pub bytes : ℕ
  pub data_blocked : Bool

-- `transmit`: a frame was queued, and the queue is transmitted.
pub record OutFlow : Type 0 where
  pub credit : Credit
  pub stream : Stream
  pub transmit : Bool
  pub blocked : Bool

-- The stream's check; the flags are those of a frame and of being blocked.
unfoldable pub check_stream : Stream → ℕ → Bool → Stream × Bool × Bool
check_stream s n queued =
    if not (ltb s.send.max_bytes (add64 s.send.bytes n))
    then (s, false, false)
    else if not s.send.data_blocked && ltb s.send.last_max_bytes s.send.max_bytes
    then (
      record s { send = record s.send { last_max_bytes = s.send.max_bytes; data_blocked = true } },
      queued,
      true,
    )
    else (s, false, true)

unfoldable pub check_connection : Credit → ℕ → Bool → Credit × Bool × Bool
check_connection c n queued =
    if not (ltb c.max_bytes (add64 c.bytes n))
    then (c, false, false)
    else if not c.data_blocked && ltb c.last_max_bytes c.max_bytes
    then (record c { last_max_bytes = c.max_bytes; data_blocked = true }, queued, true)
    else (c, false, true)

-- `queued` tells of the two frames whether they can be queued.
unfoldable pub out_flow_control : Credit → Stream → ℕ → Bool → Bool × Bool → OutFlow
unfolding check_stream check_connection
out_flow_control c s n sndblock (queued, queued') =
    let (s', sent, blocked) = check_stream s n (sndblock && queued) in
    let (c', sent', blocked') = check_connection c n (sndblock && queued') in
    record { credit = c'; stream = s'; transmit = sent || sent'; blocked = blocked || blocked' }

-- `free` is `sk_stream_wspace`.
unfoldable pub wspace : Credit → Option Stream → ℕ → ℕ
wspace c which free =
    let left = sub64 c.max_bytes c.bytes in
    elim which [ none ↦ left | some s ↦ min (min left free) (sub64 s.send.max_bytes s.send.bytes) ]

blocked-check_stream :
    (s : Stream) (n : ℕ) (queued : Bool)
    → (check_stream s n queued).2 ≡ ltb s.send.max_bytes (add64 s.send.bytes n)
unfolding check_stream
blocked-check_stream s n queued = ground arith

blocked-check_connection :
    (c : Credit) (n : ℕ) (queued : Bool)
    → (check_connection c n queued).2 ≡ ltb c.max_bytes (add64 c.bytes n)
unfolding check_connection
blocked-check_connection c n queued = ground arith

space_lem :
    (m b m' b' n free : ℕ)
    → b ≤ m
    → b' ≤ m'
    → m + n < u64_mod
    → m' + n < u64_mod
    → n ≤ free
    → (ltb m' (add64 b' n) || ltb m (add64 b n)) ≡ ltb (min (min (sub64 m b) free) (sub64 m' b')) n
space_lem m b m' b' n free below below' small small' fits =
    let left : sub64 m b ≡ m - b = omega (arith, below, small) in
    let left' : sub64 m' b' ≡ m' - b' = omega (arith, below', small') in
    let sum : add64 b n ≡ b + n = omega (arith, below, small) in
    let sum' : add64 b' n ≡ b' + n = omega (arith, below', small') in
    rw (left, left', sum, sum') (ground (arith, below, below', fits))

-- The writable space and the check of flow control agree: bytes are blocked exactly if they are more
-- than the space that the connection and the stream have left, where the socket's buffer has room. The bytes sent are within the limits, and the sums are words.
pub blocked-wspace :
    (c : Credit) (s : Stream) (n free : ℕ) (sndblock : Bool) (queued : Bool × Bool)
    → c.bytes ≤ c.max_bytes
    → s.send.bytes ≤ s.send.max_bytes
    → c.max_bytes + n < u64_mod
    → s.send.max_bytes + n < u64_mod
    → n ≤ free
    → (out_flow_control c s n sndblock queued).blocked ≡ ltb (wspace c (some s) free) n
unfolding out_flow_control check_stream check_connection wspace
blocked-wspace c s n free sndblock queued below below' small small' fits =
    rw
      (
        blocked-check_stream s n (sndblock && queued.0),
        blocked-check_connection c n (sndblock && queued.1),
      )
      (space_lem c.max_bytes c.bytes s.send.max_bytes s.send.bytes n free below below' small small'
        fits)
