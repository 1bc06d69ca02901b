-- ===== src/Frame/Limits/Agreement.antt =====
-- MAX_DATA, MAX_STREAM_DATA and MAX_STREAMS from the one endpoint that writes them to the other.
use quic.Prelude.{
  ℕ, ◌+◌, ◌/◌, ◌%◌, ◌^◌, ◌<◌, ◌≡◌, refl, sym, ap, ◌∙◌, inl, inr, false, List, [], ◌∷◌, ◌++◌, length,
  length-append, arith, tests, max, ltb, leb, if◌then◌else◌, Bool-cases, le→ltb,
}
use quic.Codec.{put_var}
use quic.Codec.Varint.{get_var-put_var}
use quic.Stream.{StreamTable, id_to_streams, streams_to_id}
use quic.Frame.{Conn, FrameEnv, took, used}
use quic.Frame.Limits.{
  max_streams_limit, max_data_create, max_streams_uni_create, max_streams_bidi_create,
  max_data_process, max_streams_uni_process, max_streams_bidi_process, raise_uni, raise_bidi,
  uni_type, bidi_type,
}

-- The type of a frame is one byte.
pub put_var-type : (type : ℕ) → type < 64 → put_var type ≡ type ∷ []
unfolding put_var
put_var-type type h = ground arith

pub used-put_var : (n : ℕ) (rest : List ℕ) → used (put_var n ++ rest) rest ≡ length (put_var n)
used-put_var n rest = omega (arith, length-append (put_var n) rest)

with_credit : Conn → ℕ → Conn
with_credit c m = record c { credit = record c.credit { max_bytes = m } }

raise_credit :
    (c : Conn) (m : ℕ)
    → (if ltb c.credit.max_bytes m then with_credit c m else c)
      ≡ with_credit c (max c.credit.max_bytes m)
unfolding with_credit
raise_credit c m = elim (Bool-cases (ltb c.credit.max_bytes m)) [
  | inl e ↦ rw e (ap (with_credit c) (omega tests))
  | inr e ↦ rw e (ap (with_credit c) (omega tests))
]

-- A MAX_DATA frame raises the connection's credit to the number that its sender wrote, and does not
-- lower it.
pub max_data_process-create :
    (c : Conn) (max_bytes : ℕ) (rest : List ℕ)
    → max_bytes < 2 ^ 62
    → (body : List ℕ) × (max_data_create max_bytes ≡ 0x10 ∷ body)
      × (max_data_process (body ++ rest) c
          ≡ took (length body) (record c {
            credit = record c.credit { max_bytes = max c.credit.max_bytes max_bytes };
          }))
unfolding max_data_create max_data_process with_credit
max_data_process-create c max_bytes rest h = (
  put_var max_bytes,
  ap (λ p. p ++ put_var max_bytes) (put_var-type 0x10 (omega arith)),
  rw (get_var-put_var max_bytes rest h, max_data_process, used-put_var max_bytes rest)
      (ap (took (length (put_var max_bytes))) (raise_credit c max_bytes)),
)

-- The count of streams that a limit of a type allows, and back.
streams_to_id-id_to_streams :
    (id : ℕ) → id < 2 ^ 62 → streams_to_id (id_to_streams id) (id % 4) ≡ id
unfolding streams_to_id id_to_streams
streams_to_id-id_to_streams id h = ground arith

id_to_streams-eq : (id : ℕ) → id < 2 ^ 62 → id_to_streams id ≡ id / 4 + 1
unfolding id_to_streams
id_to_streams-eq id h = ground arith

abbrev pub with_uni_limit : StreamTable → ℕ → StreamTable
with_uni_limit t id = record t { send = record t.send { max_uni_stream_id = id } }

abbrev pub with_bidi_limit : StreamTable → ℕ → StreamTable
with_bidi_limit t id = record t { send = record t.send { max_bidi_stream_id = id } }

module _ (env : FrameEnv) (c : Conn) (id : ℕ) (small : id < 2 ^ 62) where
  id_of : (type : ℕ) → id % 4 ≡ type → streams_to_id (id_to_streams id) type ≡ id
  id_of type e =
      ap (streams_to_id (id_to_streams id)) (sym e) ∙ streams_to_id-id_to_streams id small

  raise_uni-id :
      id % 4 ≡ uni_type c.is_serv
      → (raise_uni env c (id_to_streams id)).streams ≡ (
          if leb (id_to_streams id) (id_to_streams c.streams.send.max_uni_stream_id)
          then c.streams
          else with_uni_limit c.streams id)
  unfolding raise_uni
  raise_uni-id e =
      elim (Bool-cases (leb (id_to_streams id) (id_to_streams c.streams.send.max_uni_stream_id))) [
        | inl enough ↦ rw enough refl
        | inr more ↦ rw more (ap (with_uni_limit c.streams) (id_of (uni_type c.is_serv) e))
      ]

  raise_bidi-id :
      id % 4 ≡ bidi_type c.is_serv
      → (raise_bidi env c (id_to_streams id)).streams ≡ (
          if leb (id_to_streams id) (id_to_streams c.streams.send.max_bidi_stream_id)
          then c.streams
          else with_bidi_limit c.streams id)
  unfolding raise_bidi
  raise_bidi-id e =
      elim (Bool-cases (leb (id_to_streams id) (id_to_streams c.streams.send.max_bidi_stream_id))) [
        | inl enough ↦ rw enough refl
        | inr more ↦ rw more (ap (with_bidi_limit c.streams) (id_of (bidi_type c.is_serv) e))
      ]

  few_streams : ltb max_streams_limit (id_to_streams id) ≡ false
  few_streams =
      le→ltb max_streams_limit (id_to_streams id) (omega (arith, id_to_streams-eq id small))

  -- What the frame for a limit `id` makes of the other endpoint's table, for both kinds of streams:
  -- the limit is `id` there too, unless it allowed as many streams already.
  pub max_streams_process-create :
      (rest : List ℕ)
      → (id % 4 ≡ uni_type c.is_serv
          → (body : List ℕ) × (c' : Conn) × (max_streams_uni_create (id_to_streams id)
              ≡ 0x13 ∷ body)
            × (max_streams_uni_process env (body ++ rest) c ≡ took (length body) c')
            × (c'.streams ≡ (
                if leb (id_to_streams id) (id_to_streams c.streams.send.max_uni_stream_id)
                then c.streams
                else with_uni_limit c.streams id)))
        × (id % 4 ≡ bidi_type c.is_serv
            → (body : List ℕ) × (c' : Conn) × (max_streams_bidi_create (id_to_streams id)
                ≡ 0x12 ∷ body)
              × (max_streams_bidi_process env (body ++ rest) c ≡ took (length body) c')
              × (c'.streams ≡ (
                  if leb (id_to_streams id) (id_to_streams c.streams.send.max_bidi_stream_id)
                  then c.streams
                  else with_bidi_limit c.streams id)))
  unfolding max_streams_uni_create max_streams_bidi_create max_streams_uni_process
      max_streams_bidi_process
  max_streams_process-create rest =
      let n = id_to_streams id in
      let short : n < 2 ^ 62 = omega (arith, id_to_streams-eq id small) in
      (
        λ e. (
          put_var n,
          raise_uni env c n,
          ap (λ p. p ++ put_var n) (put_var-type 0x13 (omega arith)),
          rw
              (
                get_var-put_var n rest short,
                max_streams_uni_process,
                few_streams,
                used-put_var n rest,
              )
              refl,
          raise_uni-id e,
        ),
        λ e. (
          put_var n,
          raise_bidi env c n,
          ap (λ p. p ++ put_var n) (put_var-type 0x12 (omega arith)),
          rw
              (
                get_var-put_var n rest short,
                max_streams_bidi_process,
                few_streams,
                used-put_var n rest,
              )
              refl,
          raise_bidi-id e,
        ),
      )
