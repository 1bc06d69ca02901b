-- ===== src/Frame/Ack.antt =====
-- ACK frames in frame.c: `quic_frame_ack_create` and `quic_frame_ack_process`. The time and whether
-- the frame can be allocated are arguments of the first, `quic_outq_transmitted_sack` is one of the
-- second: the level, the largest and the smallest number acknowledged, the largest of the frame
-- (`none` for -1) and the delay.
pub mod Blocks
pub mod RoundTrip
pub mod Safety
pub mod Delivery
use mathlib.Core.List.{reverse}
use quic.Prelude.{
  ℕ, zero, suc, ◌+◌, ◌-◌, ◌*◌, ◌/◌, ◌%◌, ◌^◌, Bool, true, false, not, ltb, leb, ◌==◌, if◌then◌else◌,
  Option, none, some, List, [], ◌∷◌, ◌++◌, length,
}
use quic.Prelude.Words.{u32_mod, u64_mod, add64, sub64, mul64}
use quic.Prelude.Result.{einval, enomem, Result, ok, err}
use quic.Codec.{put_var, get_var}
use quic.PnSpace.{
  PnSpace, GapBlock, EcnCount, num_gabs, has_ecn_count, set_ecn_count, pn_map_max_gabs,
}
use quic.Cong.Ops.{on_process_ecn}
use quic.Outq.{sync_window}
use quic.Frame.{
  Conn, Processed, took, failed, used, with_space, frame_ack, frame_ack_ecn,
  error_protocol_violation,
}

-- A base of -1 as the u64 that it is converted to.
abbrev pub base_value : PnSpace → ℕ
base_value s = elim s.base_pn [ none ↦ u64_mod - 1 | some base ↦ base ]

-- The smallest number of the first range, from the blocks newest first.
abbrev pub first_smallest : PnSpace → List GapBlock → ℕ
first_smallest s [] = s.min_pn_seen
first_smallest s (g ∷ gs) = add64 (base_value s) g.end

-- The gaps and the ranges behind them, from the blocks newest first.
unfoldable pub ack_gaps : PnSpace → List GapBlock → List ℕ
ack_gaps s [] = []
ack_gaps s (g ∷ []) =
    let largest = sub64 (add64 (sub64 g.start 1) (base_value s)) 1 in
    put_var (sub64 g.end g.start) ++ put_var (sub64 largest s.min_pn_seen)
ack_gaps s (g ∷ h ∷ gs) =
    put_var (sub64 g.end g.start)
    ++ (put_var (sub64 (sub64 g.start h.end) 2) ++ ack_gaps s (h ∷ gs))

unfoldable pub ecn_counts : EcnCount → List ℕ
ecn_counts c = put_var c.ect0 ++ (put_var c.ect1 ++ put_var c.ce)

abbrev pub ack_type : PnSpace → ℕ
ack_type s = if has_ecn_count s then frame_ack_ecn else frame_ack

-- The frame behind its type.
unfoldable pub ack_body : PnSpace → ℕ → ℕ → List ℕ
unfolding ack_gaps ecn_counts
ack_body s exponent now =
    let gabs = num_gabs s in
    let newest = reverse gabs in
    let range = sub64 s.max_pn_seen (first_smallest s newest) in
    let delay = sub64 now s.max_pn_time / 2 ^ exponent in
    put_var s.max_pn_seen
    ++ (put_var delay
        ++ (put_var (length gabs)
            ++ (put_var range
                ++ (ack_gaps s newest
                    ++ (if ack_type s == frame_ack_ecn then ecn_counts s.ecn_local else [])))))

-- The type and the bytes of the frame.
unfoldable pub ack_create : Bool → PnSpace → ℕ → ℕ → Result (ℕ × List ℕ)
unfolding ack_body
ack_create alloc s exponent now =
    if not alloc
    then err enomem
    else ok (ack_type s, put_var (ack_type s) ++ ack_body s exponent now)

-- The next range below `smallest`: its largest and its smallest number.
unfoldable pub next_range : List ℕ → ℕ → Option (ℕ × ℕ × List ℕ)
next_range p smallest = elim (get_var p) [
  | none ↦ none
  | some (_, gap, p1) ↦ if ltb smallest (gap + 2) then none else elim (get_var p1) [
    | none ↦ none
    | some (_, range, p2) ↦
        if ltb (smallest - gap - 2) range
        then none
        else some (smallest - gap - 2, smallest - gap - 2 - range, p2)
  ]
]

unfoldable pub read_ecn : List ℕ → Option (EcnCount × List ℕ)
read_ecn p = elim (get_var p) [
  | none ↦ none
  | some (_, ect0, p1) ↦ elim (get_var p1) [
    | none ↦ none
    | some (_, ect1, p2) ↦ elim (get_var p2) [
      | none ↦ none
      | some (_, ce, p3) ↦ some (record { ect1 = ect1; ect0 = ect0; ce = ce }, p3)
    ]
  ]
]

pub record AckHead : Type 0 where
  pub largest : ℕ
  pub delay : ℕ
  pub count : ℕ
  pub range : ℕ
  pub rest : List ℕ

unfoldable pub read_head : List ℕ → Option AckHead
read_head p = elim (get_var p) [
  | none ↦ none
  | some (_, largest, p1) ↦ elim (get_var p1) [
    | none ↦ none
    | some (_, delay, p2) ↦ elim (get_var p2) [
      | none ↦ none
      | some (_, count, p3) ↦ if ltb pn_map_max_gabs count then none else elim (get_var p3) [
        | none ↦ none
        | some (_, range, p4) ↦
            if ltb largest range
            then none
            else some (record {
              largest = largest;
              delay = delay;
              count = count;
              range = range;
              rest = p4;
            })
      ]
    ]
  ]
]

-- More counts of congestion marks than before are a congestion event.
unfoldable pub apply_ecn : Conn → ℕ → EcnCount → Conn
unfolding sync_window
apply_ecn c level counts =
    let (s, congested) = set_ecn_count (c.spaces level) counts in
    let c' = with_space c level s in
    if congested
    then (let cong = on_process_ecn c'.cong in
        record c' { cong = cong; outq = sync_window c'.outq cong.window })
    else c'

module _ (sack : ℕ → ℕ → ℕ → Option ℕ → ℕ → Conn → Conn) where
  -- What is left of the frame, if the loop ends without an error, and the socket.
  unfoldable pub ack_loop : ℕ → ℕ → List ℕ → ℕ → Conn → Option (List ℕ) × Conn
  unfolding next_range
  ack_loop level zero p smallest c = (some p, c)
  ack_loop level (suc count) p smallest c = elim (next_range p smallest) [
    | none ↦ (none, c)
    | some (largest', smallest', rest) ↦
        ack_loop level count rest smallest' (sack level largest' smallest' none 0 c)
  ]

  -- The end of the function, behind the ranges.
  unfoldable pub ack_end : ℕ → ℕ → List ℕ → Option (List ℕ) × Conn → Processed Conn
  unfolding read_ecn apply_ecn
  ack_end level type bytes (none, c) = failed einval 0 c
  ack_end level type bytes (some rest, c) =
      if type == frame_ack_ecn
      then elim (read_ecn rest) [
        | none ↦ failed einval 0 c
        | some (counts, rest') ↦ took (used bytes rest') (apply_ecn c level counts)
      ]
      else took (used bytes rest) c

  -- The first range, then the others. The delay is a u64 that is handed over as a u32.
  unfoldable pub ack_head : ℕ → ℕ → List ℕ → AckHead → Conn → Processed Conn
  unfolding ack_loop ack_end
  ack_head level type bytes h c =
      if leb (c.spaces level).next_pn h.largest
      then failed einval error_protocol_violation c
      else let smallest = h.largest - h.range in
        let delay = mul64 h.delay (2 ^ c.ack_delay_exponent) % u32_mod in
        let c' = sack level h.largest smallest (some h.largest) delay c in
        ack_end level type bytes (ack_loop level h.count h.rest smallest c')

  unfoldable pub ack_process : ℕ → ℕ → List ℕ → Conn → Processed Conn
  unfolding read_head ack_head
  ack_process level type bytes c = elim (read_head bytes) [
    | none ↦ failed einval 0 c
    | some h ↦ ack_head level type bytes h c
  ]
