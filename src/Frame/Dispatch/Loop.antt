-- ===== src/Frame/Dispatch/Loop.antt =====
-- The loop over the frames of a packet comes to an end.
use quic.Prelude.{
  ℕ, zero, suc, ◌+◌, ◌≤◌, ◌≢◌, inl, inr, List, [], ◌∷◌, length, length-drop, drop, arith,
  Bool-cases, le→ltb, ltb, subst, ◌==◌,
}
use quic.Frame.{Conn, FrameEnv, Processed, took, failed, overrun}
use quic.Frame.Dispatch.Taken.{Takes, ForeignTakes, process_frame-Takes}
use quic.Frame.Dispatch.{
  Foreign, PacketRx, Verdict, out_of_fuel, wrapped, frame_max, level_valid, go_on, process_loop,
  packet_process, mark_packet, process_frame,
}

-- The loop returns, or the receive queue overran.
abbrev Returns : Verdict → Type 0
Returns out_of_fuel = ⊥
Returns wrapped = ⊥
Returns _ = Unit

Returns-go_on :
    (type left : ℕ) (k : PacketRx) (next : ℕ → Conn → Verdict) (r : Processed Conn)
    → Takes left r
    → ((n : ℕ) (c : Conn) → Returns (next n c))
    → Returns (go_on type left k next r)
Returns-go_on type left k next (took n c) within h = rw (le→ltb left n within) (h n c)
Returns-go_on type left k next (failed e code c) within h = tt
Returns-go_on type left k next overrun within h = tt

Returns-process_loop :
    (fg : Foreign) (env : ℕ → FrameEnv) (level fuel i : ℕ) (p : List ℕ) (k : PacketRx) (c : Conn)
    → ForeignTakes fg
    → length p ≤ fuel
    → Returns (process_loop fg env level fuel i p k c)
unfolding process_loop
Returns-process_loop fg env level fuel i [] k c takes h = tt
Returns-process_loop fg env level zero i (type ∷ p) k c takes h = absurd (omega arith)
Returns-process_loop fg env level (suc fuel) i (type ∷ p) k c takes h =
    elim (Bool-cases (ltb frame_max type)) [
      | inl e ↦ rw e tt
      | inr e ↦ elim (Bool-cases (level_valid level type)) [
        | inr bad ↦ rw (e, bad) tt
        | inl fine ↦
            rw (e, fine)
              (Returns-go_on type (length p) k _ (process_frame fg (env i) level type p c)
                (process_frame-Takes fg (env i) level type p c takes)
                (λ n c'.
                  Returns-process_loop fg env level fuel (i + 1) (drop n p) (mark_packet type k) c'
                    takes (omega (arith, length-drop n p))))
      ]
    ]

packet-Returns :
    (fg : Foreign) (env : ℕ → FrameEnv) (level : ℕ) (p : List ℕ) (k : PacketRx) (c : Conn)
    → ForeignTakes fg
    → Returns (packet_process fg env level p k c)
unfolding packet_process
packet-Returns fg env level p k c takes = elim (Bool-cases (length p == 0)) [
  | inl empty ↦ rw (empty, packet_process) tt
  | inr some_left ↦
      rw (some_left, packet_process)
        (Returns-process_loop fg env level (length p) 0 p k c takes (omega arith))
]

-- The loop over the frames of a packet comes to an end, whatever the packet holds, unless the receive
-- queue overruns: one round for every byte is enough, and `frame->len` never wraps around below 0,
-- because each of the modelled functions takes at most the bytes that are left behind the type. The
-- functions that are arguments are to do so too.
pub packet_process-Returns :
    (fg : Foreign) (env : ℕ → FrameEnv) (level : ℕ) (p : List ℕ) (k : PacketRx) (c : Conn)
    → ForeignTakes fg
    → (packet_process fg env level p k c ≢ out_of_fuel)
      × (packet_process fg env level p k c ≢ wrapped)
packet_process-Returns fg env level p k c takes = (
  λ e. subst Returns e (packet-Returns fg env level p k c takes),
  λ e. subst Returns e (packet-Returns fg env level p k c takes),
)
