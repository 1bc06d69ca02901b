-- ===== src/Stream/Ids.antt =====
-- Stream IDs: the count of streams up to an ID, and who may send on a stream.
use quic.Prelude.{ℕ, ◌%◌, ◌≤◌, ◌<◌, ◌≡◌, Bool, true, false, not, if◌then◌else◌, arith}
use quic.Stream.{id_to_streams, streams_to_id, id_type, id_valid, id_local, id_uni}

-- A number of streams from 0 to 2 ^ 61 is read back from the largest ID that it allows, which has the
-- type given.
pub id_to_streams-streams_to_id :
    (streams type : ℕ)
    → streams ≤ 0x2000_0000_0000_0000
    → type < 4
    → (id_to_streams (streams_to_id streams type) ≡ streams)
      × (streams_to_id streams type % 4 ≡ type)
unfolding id_to_streams streams_to_id
id_to_streams-streams_to_id streams type small low = ground arith

-- Either side may send and receive on a stream except for a unidirectional one: there its initiator
-- only sends, and its peer only receives.
pub id_valid_lem :
    (id : ℕ) (is_serv send : Bool)
    → (id_uni id ≡ false → id_valid id is_serv send ≡ true)
      × (id_uni id ≡ true
          → id_valid id is_serv send ≡ (if id_local id is_serv then send else not send))
unfolding id_uni id_valid id_local id_type
id_valid_lem id is_serv send = ground arith
