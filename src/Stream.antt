-- ===== src/Stream.antt =====
-- modules/net/quic/stream.c and stream.h: the table of streams, their limits, and the operations
-- that open and release them. A stream ID is an `s64` by its two's complement, so that a limit of no
-- streams is the negative ID that the source has. A bucket of the hash table is a list; a pointer to
-- a stream is its value in `get` and its ID elsewhere.
pub mod Ops
pub mod Ids
pub mod Limits
pub mod Table
pub mod Opening
pub mod Credit
mod Runs
use quic.Prelude.{
  ℕ, suc, ◌+◌, ◌-◌, ◌*◌, ◌/◌, ◌%◌, Bool, true, false, not, ◌&&◌, ◌||◌, ltb, leb, ◌==◌,
  if◌then◌else◌, Option, none, some, List, [], ◌∷◌,
}
use quic.Prelude.Words.{u16_mod, u64_mod, add64, sub64}
use quic.Prelude.Result.{Errno, einval, enomem, enostr, eagain, Result, ok, err}

abbrev pub s64_sign : ℕ
s64_sign = 0x8000_0000_0000_0000

-- The signed comparisons of two `s64`.
abbrev pub slt : ℕ → ℕ → Bool
slt a b = ltb (add64 a s64_sign) (add64 b s64_sign)

abbrev pub sle : ℕ → ℕ → Bool
sle a b = leb (add64 a s64_sign) (add64 b s64_sign)

abbrev pub stream_ht_size : ℕ
stream_ht_size = 64

abbrev pub stream_id_step : ℕ
stream_id_step = 4

abbrev pub send_state_ready : ℕ
send_state_ready = 0

abbrev pub send_state_recvd : ℕ
send_state_recvd = 3

abbrev pub send_state_reset_recvd : ℕ
send_state_reset_recvd = 5

-- One enumeration numbers both sides' states.
abbrev pub recv_state_recvd : ℕ
recv_state_recvd = 8

pub record SendSide : Type 0 where
  pub last_max_bytes : ℕ
  pub max_bytes : ℕ
  pub bytes : ℕ
  pub errcode : ℕ
  pub frags : ℕ
  pub state : ℕ
  pub data_blocked : Bool
  pub done : Bool

pub record RecvSide : Type 0 where
  pub max_bytes : ℕ
  pub window : ℕ
  pub bytes : ℕ
  pub highest : ℕ
  pub offset : ℕ
  pub finalsz : ℕ
  pub frags : ℕ
  pub state : ℕ
  pub stop_sent : Bool
  pub done : Bool

pub record Stream : Type 0 where
  pub id : ℕ
  pub send : SendSide
  pub recv : RecvSide

pub record StreamLimits : Type 0 where
  pub max_stream_data_bidi_remote : ℕ
  pub max_stream_data_bidi_local : ℕ
  pub max_stream_data_uni : ℕ
  pub max_streams_bidi : ℕ
  pub max_streams_uni : ℕ
  pub next_bidi_stream_id : ℕ
  pub next_uni_stream_id : ℕ
  pub max_bidi_stream_id : ℕ
  pub max_uni_stream_id : ℕ
  pub active_stream_id : ℕ
  pub bidi_blocked : Bool
  pub uni_blocked : Bool
  pub bidi_pending : Bool
  pub uni_pending : Bool
  pub streams_bidi : ℕ
  pub streams_uni : ℕ

pub record StreamTable : Type 0 where
  pub head : ℕ → List Stream
  pub send : StreamLimits
  pub recv : StreamLimits

-- `stream_id >> 2` of an `s64` keeps the sign.
unfoldable pub id_to_streams : ℕ → ℕ
id_to_streams id =
    let shifted = if ltb id s64_sign then id / 4 else id / 4 + 0xc000_0000_0000_0000 in
    add64 shifted 1

-- The low bits of the shifted number are clear, so that `|` adds the type.
unfoldable pub streams_to_id : ℕ → ℕ → ℕ
streams_to_id streams type = sub64 streams 1 * 4 % u64_mod + type

unfoldable pub id_type : ℕ → ℕ
id_type id = id % 4

unfoldable pub id_valid : ℕ → Bool → Bool → Bool
unfolding id_type
id_valid id is_serv send =
    if send
    then if is_serv then not (id_type id == 2) else not (id_type id == 3)
    else if is_serv
    then not (id_type id == 3)
    else not (id_type id == 2)

unfoldable pub id_local : ℕ → Bool → Bool
id_local id is_serv = if is_serv then not (id % 2 == 0) else id % 2 == 0

unfoldable pub id_uni : ℕ → Bool
id_uni id = not (id / 2 % 2 == 0)

unfoldable pub find_in : List Stream → ℕ → Option Stream
find_in [] id = none
find_in (s ∷ ss) id = if s.id == id then some s else find_in ss id

unfoldable pub find : StreamTable → ℕ → Option Stream
unfolding find_in
find t id = find_in (t.head (id % stream_ht_size)) id

-- One bucket of the table changed.
unfoldable pub with_bucket : StreamTable → ℕ → List Stream → StreamTable
with_bucket t i bucket = record t { head = λ j. if j == i then bucket else t.head j }

unfoldable pub add : StreamTable → Stream → StreamTable
unfolding with_bucket
add t s = let i = s.id % stream_ht_size in with_bucket t i (s ∷ t.head i)

unfoldable pub delete_in : List Stream → ℕ → List Stream
delete_in [] id = []
delete_in (s ∷ ss) id = if s.id == id then ss else s ∷ delete_in ss id

unfoldable pub delete : StreamTable → ℕ → StreamTable
unfolding with_bucket delete_in
delete t id = let i = id % stream_ht_size in with_bucket t i (delete_in (t.head i) id)

-- A write through a pointer to a stream of the table.
unfoldable pub write_in : List Stream → Stream → List Stream
write_in [] s' = []
write_in (s ∷ ss) s' = if s.id == s'.id then s' ∷ ss else s ∷ write_in ss s'

unfoldable pub write : StreamTable → Stream → StreamTable
unfolding with_bucket write_in
write t s = let i = s.id % stream_ht_size in with_bucket t i (write_in (t.head i) s)

-- A stream as `kzalloc` returns it, with its ID.
abbrev pub zero_stream : ℕ → Stream
zero_stream id = record {
  id = id;
  send = record {
    last_max_bytes = 0;
    max_bytes = 0;
    bytes = 0;
    errcode = 0;
    frags = 0;
    state = 0;
    data_blocked = false;
    done = false;
  };
  recv = record {
    max_bytes = 0;
    window = 0;
    bytes = 0;
    highest = 0;
    offset = 0;
    finalsz = 0;
    frags = 0;
    state = 0;
    stop_sent = false;
    done = false;
  };
}

-- A stream with its flow control as the limits set it.
unfoldable pub new_stream : StreamTable → Bool → Bool → ℕ → Stream
unfolding id_uni id_local
new_stream t send is_serv id =
    let s = zero_stream id in
    if id_uni id
    then if send
      then record s { send = record s.send { max_bytes = t.send.max_stream_data_uni } }
      else record s {
        recv = record s.recv {
          max_bytes = t.recv.max_stream_data_uni;
          window = t.recv.max_stream_data_uni;
        };
      }
    else if id_local id is_serv
    then record s {
      send = record s.send { max_bytes = t.send.max_stream_data_bidi_remote };
      recv = record s.recv {
        max_bytes = t.recv.max_stream_data_bidi_local;
        window = t.recv.max_stream_data_bidi_local;
      };
    }
    else record s {
      send = record s.send { max_bytes = t.send.max_stream_data_bidi_local };
      recv = record s.recv {
        max_bytes = t.recv.max_stream_data_bidi_remote;
        window = t.recv.max_stream_data_bidi_remote;
      };
    }
