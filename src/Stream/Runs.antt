-- ===== src/Stream/Runs.antt =====
-- Runs of the stream table on a server, and the theorems applied to it.
use quic.Prelude.{◌+◌, ◌-◌, ◌/◌, ◌≡◌, refl, true, false, ◌==◌, if◌then◌else◌, some, [], ◌∷◌, arith}
use quic.Prelude.Words.{u64_mod}
use quic.Stream.{StreamTable, StreamLimits, zero_stream, id_uni}
use quic.Stream.Ops.{put, create}
use quic.Stream.Limits.{max_streams_update}
use quic.Stream.Table.{fresh}
use quic.Stream.Opening.{Created, create_lem}
use quic.Stream.Credit.{IsSettledUni, update-put_uni}

-- One hundred streams of each kind; stream 2, the client's first unidirectional one, is open.
abbrev client_limits : StreamLimits
client_limits = record {
  max_stream_data_bidi_remote = 1000;
  max_stream_data_bidi_local = 2000;
  max_stream_data_uni = 3000;
  max_streams_bidi = 100;
  max_streams_uni = 100;
  next_bidi_stream_id = 0;
  next_uni_stream_id = 6;
  max_bidi_stream_id = 396;
  max_uni_stream_id = 398;
  active_stream_id = u64_mod - 1;
  bidi_blocked = false;
  uni_blocked = false;
  bidi_pending = false;
  uni_pending = false;
  streams_bidi = 0;
  streams_uni = 1;
}

abbrev server : StreamTable
server = record {
  head = λ i. if i == 2 then zero_stream 2 ∷ [] else [];
  send = client_limits;
  recv = client_limits;
}

create_lem_example :
    (t' : StreamTable) × (create server 8 false true (λ i. true)
      ≡ some (t', fresh server false true 8))
    × Created server false true 0 8 t'
unfolding id_uni
create_lem_example =
    create_lem server 8 false true (λ i. true) (λ i. refl) (omega arith) (omega arith) refl

update-put_uni_example :
    let u = max_streams_update (put server (zero_stream 2) true false) in
    (u.table.recv.max_uni_stream_id ≡ 398 + 4)
    × (u.max_uni ≡ u.table.recv.max_uni_stream_id / 4 + 1)
    × (u.changed ≡ true)
    × IsSettledUni u.table.recv
unfolding id_uni
update-put_uni_example =
    update-put_uni server (zero_stream 2) true
      (refl, (omega arith), (omega arith), (omega arith), (omega arith), omega arith) refl refl
      (omega arith)
