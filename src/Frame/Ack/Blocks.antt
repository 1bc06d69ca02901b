-- ===== src/Frame/Ack/Blocks.antt =====
-- The ranges of an ACK frame, from the gap blocks of the packet number space to what
-- `quic_frame_ack_process` reads.
use mathlib.Core.List.{append_assoc, reverse, reverse_aux}
use quic.Prelude.{
  ℕ, suc, ◌+◌, ◌-◌, ◌^◌, ◌≤◌, ◌<◌, ◌≡◌, refl, ap, ◌∙◌, Option, none, some, List, [], ◌∷◌, ◌++◌,
  length, arith, le→ltb,
}
use quic.Prelude.Words.{u64_mod, add64, sub64}
use quic.Codec.{put_var, get_var}
use quic.Codec.Varint.{get_var-put_var}
use quic.PnSpace.{PnSpace, GapBlock}
use quic.PnSpace.Chain.{IsChain}
use quic.Frame.{Conn}
use quic.Frame.Ack.{ack_gaps, next_range, ack_loop, base_value}

-- The blocks newest first, all below `bound`.
abbrev pub IsDescending : ℕ → List GapBlock → Type 0
IsDescending bound [] = Unit
IsDescending bound (g ∷ gs) =
    (g.end + 2 ≤ bound) × (1 ≤ g.start) × (g.start ≤ g.end) × IsDescending g.start gs

reverse_aux-IsDescending :
    (gs acc : List GapBlock) (lo top : ℕ)
    → IsChain lo gs top
    → ((bound : ℕ) → lo < bound → IsDescending bound acc)
    → IsDescending (top + 2) (reverse_aux gs acc)
reverse_aux-IsDescending [] acc lo top low h = h (top + 2) (omega arith)
reverse_aux-IsDescending (g ∷ gs) acc lo top (starts, ordered, ends, chain) h =
    reverse_aux-IsDescending gs (g ∷ acc) (g.end + 1) top chain
      (λ bound k. (omega arith, omega arith, ordered, h g.start starts))

pub reverse-IsDescending :
    (gs : List GapBlock) (top : ℕ) → IsChain 0 gs top → IsDescending (top + 2) (reverse gs)
reverse-IsDescending gs top chain = reverse_aux-IsDescending gs [] 0 top chain (λ bound h. tt)

-- The ranges between the blocks, down from `largest`: each with its largest and smallest number.
abbrev pub ranges_below : ℕ → ℕ → ℕ → List GapBlock → List (ℕ × ℕ)
ranges_below b smallest largest [] = (largest, smallest) ∷ []
ranges_below b smallest largest (g ∷ gs) =
    (largest, b + g.end) ∷ ranges_below b smallest (b + g.start - 2) gs

-- Ranges that are handed over behind the first.
abbrev pub sack_all : (ℕ → ℕ → ℕ → Option ℕ → ℕ → Conn → Conn) → ℕ → List (ℕ × ℕ) → Conn → Conn
sack_all sack level [] c = c
sack_all sack level ((largest, smallest) ∷ rs) c =
    sack_all sack level rs (sack level largest smallest none 0 c)

-- A gap and a range that fit are read.
next_range-read :
    (p q rest : List ℕ) (n m gap range smallest : ℕ)
    → get_var p ≡ some (n, gap, q)
    → get_var q ≡ some (m, range, rest)
    → gap + 2 + range ≤ smallest
    → next_range p smallest ≡ some (smallest - gap - 2, smallest - gap - 2 - range, rest)
unfolding next_range
next_range-read p q rest n m gap range smallest e e' h =
    rw
      (
        e,
        next_range,
        le→ltb smallest (gap + 2) (omega arith),
        e',
        le→ltb (smallest - gap - 2) range (omega arith),
      )
      refl

next_range-put_var :
    (gap range smallest largest smallest' : ℕ) (rest : List ℕ)
    → largest + gap + 2 ≡ smallest
    → smallest' + range ≡ largest
    → smallest < 2 ^ 62
    → next_range (put_var gap ++ (put_var range ++ rest)) smallest ≡ some (largest, smallest', rest)
next_range-put_var gap range smallest largest smallest' rest h h' k =
    next_range-read _ _ _ _ _ gap range smallest (get_var-put_var gap _ (omega arith))
      (get_var-put_var range rest (omega arith)) (omega arith)
    ∙ rw (at, at') refl
  where
    at : smallest - gap - 2 ≡ largest
    at = omega arith

    at' : largest - range ≡ smallest'
    at' = omega arith

sub64-le : (a b : ℕ) → a ≤ b → b < u64_mod → sub64 b a ≡ b - a
sub64-le a b h k = omega arith

-- The numbers that are written for a block, without the wrap-around of a u64.
last_range :
    (s : PnSpace) (b start : ℕ)
    → s.base_pn ≡ some b
    → s.min_pn_seen < b
    → 1 ≤ start
    → b + start < 2 ^ 62
    → sub64 (sub64 (add64 (sub64 start 1) (base_value s)) 1) s.min_pn_seen
      ≡ b + start - 2 - s.min_pn_seen
last_range s b start based low pos small = rw based (omega arith)

-- The bytes of a block, and what stands behind them.
module _ (s : PnSpace) (b : ℕ) (based : s.base_pn ≡ some b) (low : s.min_pn_seen < b) (g : GapBlock)
    (ordered : g.start ≤ g.end) (small : b + g.end < 2 ^ 62) (rest : List ℕ) where
  ack_gaps-last :
      1 ≤ g.start
      → ack_gaps s (g ∷ []) ++ rest
        ≡ put_var (g.end - g.start) ++ (put_var (b + g.start - 2 - s.min_pn_seen) ++ rest)
  unfolding ack_gaps
  ack_gaps-last pos =
      rw
        (
          sub64-le g.start g.end ordered (omega arith),
          last_range s b g.start based low pos (omega arith),
        )
        (append_assoc (put_var (g.end - g.start)) _ rest)

  ack_gaps-next :
      (h : GapBlock) (gs : List GapBlock)
      → h.end + 2 ≤ g.start
      → ack_gaps s (g ∷ h ∷ gs) ++ rest
        ≡ put_var (g.end - g.start)
          ++ (put_var (g.start - h.end - 2) ++ (ack_gaps s (h ∷ gs) ++ rest))
  unfolding ack_gaps
  ack_gaps-next h gs apart =
      rw
        (
          sub64-le g.start g.end ordered (omega arith),
          sub64-le h.end g.start (omega arith) (omega arith),
          sub64-le 2 (g.start - h.end) (omega arith) (omega arith),
        )
        (append_assoc (put_var (g.end - g.start)) _ rest
          ∙ ap (λ p. put_var (g.end - g.start) ++ p)
              (append_assoc (put_var (g.start - h.end - 2)) _ rest))

module _ (sack : ℕ → ℕ → ℕ → Option ℕ → ℕ → Conn → Conn) where
  ack_loop-read :
      (level n smallest largest smallest' : ℕ) (p rest : List ℕ) (c : Conn)
      → next_range p smallest ≡ some (largest, smallest', rest)
      → ack_loop sack level (suc n) p smallest c
        ≡ ack_loop sack level n rest smallest' (sack level largest smallest' none 0 c)
  unfolding ack_loop
  ack_loop-read level n smallest largest smallest' p rest c e = rw (e, ack_loop) refl

  -- The ranges behind a block are read back as they are meant.
  pub ack_loop-ack_gaps :
      (s : PnSpace) (b level bound : ℕ) (g : GapBlock) (gs : List GapBlock) (rest : List ℕ)
      (c : Conn)
      → s.base_pn ≡ some b
      → s.min_pn_seen < b
      → b + g.end < 2 ^ 62
      → IsDescending bound (g ∷ gs)
      → ack_loop sack level (length (g ∷ gs)) (ack_gaps s (g ∷ gs) ++ rest) (b + g.end) c
        ≡ (some rest, sack_all sack level (ranges_below b s.min_pn_seen (b + g.start - 2) gs) c)
  ack_loop-ack_gaps s b level bound g [] rest c based low small (_, pos, ordered, _) =
      ap (λ p. ack_loop sack level 1 p (b + g.end) c)
        (ack_gaps-last s b based low g ordered small rest pos)
      ∙ ack_loop-read level 0 (b + g.end) (b + g.start - 2) s.min_pn_seen _ rest c (
          next_range-put_var (g.end - g.start) (b + g.start - 2 - s.min_pn_seen) (b + g.end)
            (b + g.start - 2) s.min_pn_seen rest (omega arith) (omega arith) small)
      ∙ unfold ack_loop in refl
  ack_loop-ack_gaps s b level bound g (h ∷ gs) rest c based low small (_, pos, ordered, desc) =
      ap (λ p. ack_loop sack level (length (g ∷ h ∷ gs)) p (b + g.end) c)
        (ack_gaps-next s b based low g ordered small rest h gs desc.0)
      ∙ ack_loop-read level (length (h ∷ gs)) (b + g.end) (b + g.start - 2) (b + h.end) _ _ c (
          next_range-put_var (g.end - g.start) (g.start - h.end - 2) (b + g.end) (b + g.start - 2)
            (b + h.end) _ (omega arith) (omega arith) small)
      ∙ ack_loop-ack_gaps s b level g.start h gs rest _ based low (omega arith) desc
