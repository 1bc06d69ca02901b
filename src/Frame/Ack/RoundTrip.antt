-- ===== src/Frame/Ack/RoundTrip.antt =====
-- `quic_frame_ack_process` on what `quic_frame_ack_create` writes.
use mathlib.Core.List.{append_assoc, reverse, reverse_aux}
use quic.Prelude.{
  ℕ, ◌+◌, ◌-◌, ◌/◌, ◌%◌, ◌^◌, ◌≤◌, ◌<◌, ◌≡◌, refl, sym, ap, ◌∙◌, Option, some, List, [], ◌∷◌, ◌++◌,
  length, length-append, arith, le→ltb, lt→leb, if◌then◌else◌, ◌==◌, Bool-cases, inl, inr,
}
use quic.Prelude.Words.{u32_mod, add64, sub64, mul64}
use quic.Codec.{put_var, get_var}
use quic.Codec.Varint.{get_var-put_var}
use quic.PnSpace.{PnSpace, GapBlock, EcnCount, num_gabs, has_ecn_count, pn_map_max_gabs}
use quic.PnSpace.Invariant.{IsValid}
use quic.PnSpace.Reports.{num_gabs-IsGap}
use quic.PnSpace.Chain.{num_gabs-IsChain}
use quic.Frame.{Conn, took, used, frame_ack_ecn}
use quic.Frame.Ack.{
  AckHead, ack_gaps, ecn_counts, ack_body, ack_type, read_head, read_ecn, ack_loop, ack_head,
  ack_end, ack_process, apply_ecn, first_smallest, base_value,
}
use quic.Frame.Ack.Blocks.{
  IsDescending, reverse-IsDescending, ranges_below, sack_all, ack_loop-ack_gaps,
}

-- The readers on buffers that are read one number after the other.
read_head-read :
    (h : AckHead) (p p1 p2 p3 : List ℕ) (n1 n2 n3 n4 : ℕ)
    → get_var p ≡ some (n1, h.largest, p1)
    → get_var p1 ≡ some (n2, h.delay, p2)
    → get_var p2 ≡ some (n3, h.count, p3)
    → get_var p3 ≡ some (n4, h.range, h.rest)
    → h.count ≤ pn_map_max_gabs
    → h.range ≤ h.largest
    → read_head p ≡ some h
unfolding read_head
read_head-read h p p1 p2 p3 n1 n2 n3 n4 e1 e2 e3 e4 few inside =
    rw
      (
        e1,
        read_head,
        e2,
        e3,
        le→ltb pn_map_max_gabs h.count few,
        e4,
        le→ltb h.largest h.range inside,
      )
      refl

read_head-put_var :
    (h : AckHead)
    → h.largest < 2 ^ 62
    → h.delay < 2 ^ 62
    → h.count ≤ pn_map_max_gabs
    → h.range ≤ h.largest
    → read_head
        (put_var h.largest ++ (put_var h.delay ++ (put_var h.count ++ (put_var h.range ++ h.rest))))
      ≡ some h
read_head-put_var h hl hd hc hr =
    read_head-read h _ _ _ _ _ _ _ _ (get_var-put_var h.largest _ hl) (get_var-put_var h.delay _ hd)
      (get_var-put_var h.count _ (omega arith)) (get_var-put_var h.range _ (omega arith)) hc hr

read_ecn-read :
    (n : EcnCount) (p p1 p2 rest : List ℕ) (n1 n2 n3 : ℕ)
    → get_var p ≡ some (n1, n.ect0, p1)
    → get_var p1 ≡ some (n2, n.ect1, p2)
    → get_var p2 ≡ some (n3, n.ce, rest)
    → read_ecn p ≡ some (n, rest)
unfolding read_ecn
read_ecn-read n p p1 p2 rest n1 n2 n3 e1 e2 e3 = rw (e1, read_ecn, e2, e3) refl

abbrev pub AreShort : EcnCount → Type 0
AreShort n = (n.ect0 < 2 ^ 62) × (n.ect1 < 2 ^ 62) × (n.ce < 2 ^ 62)

read_ecn-ecn_counts :
    (n : EcnCount) (rest : List ℕ) → AreShort n → read_ecn (ecn_counts n ++ rest) ≡ some (n, rest)
unfolding ecn_counts
read_ecn-ecn_counts n rest (h0, h1, h2) =
    ap read_ecn (
      append_assoc (put_var n.ect0) _ rest
      ∙ ap (λ p. put_var n.ect0 ++ p) (append_assoc (put_var n.ect1) _ rest))
    ∙ read_ecn-read n _ _ _ _ _ _ _ (get_var-put_var n.ect0 _ h0) (get_var-put_var n.ect1 _ h1)
        (get_var-put_var n.ce rest h2)

length-reverse_aux : (l r : List GapBlock) → length (reverse_aux l r) ≡ length l + length r
length-reverse_aux [] r = omega arith
length-reverse_aux (g ∷ gs) r = omega (arith, length-reverse_aux gs (g ∷ r))

length-reverse : (l : List GapBlock) → length (reverse l) ≡ length l
length-reverse l = omega (arith, length-reverse_aux l [])

-- The ranges of packet numbers that a space acknowledges, newest first.
abbrev pub ack_ranges : PnSpace → ℕ → List (ℕ × ℕ)
ack_ranges s b = ranges_below b s.min_pn_seen s.max_pn_seen (reverse (num_gabs s))

-- The first of the ranges is handed over with its largest number and the delay.
abbrev pub sack_ranges :
    (ℕ → ℕ → ℕ → Option ℕ → ℕ → Conn → Conn) → ℕ → ℕ → List (ℕ × ℕ) → Conn → Conn
sack_ranges sack level delay [] c = c
sack_ranges sack level delay ((largest, smallest) ∷ rs) c =
    sack_all sack level rs (sack level largest smallest (some largest) delay c)

module _ (sack : ℕ → ℕ → ℕ → Option ℕ → ℕ → Conn → Conn) (s : PnSpace) (b level : ℕ)
    (based : s.base_pn ≡ some b) (low : s.min_pn_seen < b) (top : b ≤ s.max_pn_seen + 1)
    (small : s.max_pn_seen < 2 ^ 62) where
  -- The ranges behind the first, for blocks newest first.
  loop-ranges :
      (delay : ℕ) (gs : List GapBlock) (rest : List ℕ) (c : Conn)
      → IsDescending (s.max_pn_seen - b + 2) gs
      → ack_loop sack level
          (length gs)
          (ack_gaps s gs ++ rest)
          (s.max_pn_seen - sub64 s.max_pn_seen (first_smallest s gs))
          (sack level s.max_pn_seen
            (s.max_pn_seen - sub64 s.max_pn_seen (first_smallest s gs))
            (some s.max_pn_seen)
            delay
            c)
        ≡ (
          some rest,
          sack_ranges sack level delay (ranges_below b s.min_pn_seen s.max_pn_seen gs) c,
        )
  loop-ranges delay [] rest c desc =
      let back : s.max_pn_seen - sub64 s.max_pn_seen s.min_pn_seen ≡ s.min_pn_seen = omega arith in
      rw back (unfold ack_loop ack_gaps in refl)
  loop-ranges delay (g ∷ gs) rest c desc =
      let back : s.max_pn_seen - sub64 s.max_pn_seen (add64 (base_value s) g.end) ≡ b + g.end =
        rw based (omega (arith, desc.0)) in
      rw back (
        ack_loop-ack_gaps sack s b level (s.max_pn_seen - b + 2) g gs rest _ based low
          (omega (arith, desc.0)) desc)

pub newest :
    (s : PnSpace) (b : ℕ)
    → IsValid s b
    → IsDescending (s.max_pn_seen - b + 2) (reverse (num_gabs s))
newest s b v = reverse-IsDescending (num_gabs s) (s.max_pn_seen - b) (num_gabs-IsChain s b v)

assoc_six :
    (p1 p2 p3 p4 p5 p6 rest : List ℕ)
    → (p1 ++ (p2 ++ (p3 ++ (p4 ++ (p5 ++ p6))))) ++ rest
      ≡ p1 ++ (p2 ++ (p3 ++ (p4 ++ (p5 ++ (p6 ++ rest)))))
assoc_six p1 p2 p3 p4 p5 p6 rest = simp append_assoc

pub used-append : (p rest : List ℕ) → used (p ++ rest) rest ≡ length p
used-append p rest = omega (arith, length-append p rest)

-- The counts of congestion marks, where the frame has them.
abbrev pub with_marks : Conn → ℕ → PnSpace → Conn
with_marks c level s = if has_ecn_count s then apply_ecn c level s.ecn_local else c

module _ (sack : ℕ → ℕ → ℕ → Option ℕ → ℕ → Conn → Conn) (s : PnSpace) (level : ℕ)
    (marks : AreShort s.ecn_local) where
  ack_end-counts :
      (bytes rest : List ℕ) (c : Conn)
      → ack_end sack level
          (ack_type s)
          bytes
          (some ((if ack_type s == frame_ack_ecn then ecn_counts s.ecn_local else []) ++ rest), c)
        ≡ took (used bytes rest) (with_marks c level s)
  unfolding ack_end
  ack_end-counts bytes rest c = elim (Bool-cases (has_ecn_count s)) [
    | inl e ↦ rw (e, read_ecn-ecn_counts s.ecn_local rest marks) refl
    | inr e ↦ rw e refl
  ]

first_smallest-le :
    (s : PnSpace) (b : ℕ) (gs : List GapBlock)
    → s.base_pn ≡ some b
    → s.min_pn_seen < b
    → b ≤ s.max_pn_seen + 1
    → s.max_pn_seen < 2 ^ 62
    → IsDescending (s.max_pn_seen - b + 2) gs
    → sub64 s.max_pn_seen (first_smallest s gs) ≤ s.max_pn_seen
first_smallest-le s b [] based low top small desc = omega arith
first_smallest-le s b (g ∷ gs) based low top small desc = rw based (omega (arith, desc.0))

-- What the header of the frame holds.
ack_head_of : PnSpace → ℕ → ℕ → List ℕ → AckHead
ack_head_of s exponent now rest = record {
  largest = s.max_pn_seen;
  delay = sub64 now s.max_pn_time / 2 ^ exponent;
  count = length (num_gabs s);
  range = sub64 s.max_pn_seen (first_smallest s (reverse (num_gabs s)));
  rest =
      ack_gaps s (reverse (num_gabs s))
      ++ ((if ack_type s == frame_ack_ecn then ecn_counts s.ecn_local else []) ++ rest);
}

module _ (sack : ℕ → ℕ → ℕ → Option ℕ → ℕ → Conn → Conn) (s : PnSpace) (b level exponent now : ℕ)
    (v : IsValid s b) (low : s.min_pn_seen < b) (small : s.max_pn_seen < 2 ^ 62)
    (marks : AreShort s.ecn_local) (recent : sub64 now s.max_pn_time / 2 ^ exponent < 2 ^ 62) where
  read_head-ack_body :
      (rest : List ℕ)
      → read_head (ack_body s exponent now ++ rest) ≡ some (ack_head_of s exponent now rest)
  unfolding ack_body ack_head_of
  read_head-ack_body rest =
      let h = ack_head_of s exponent now rest in
      ap read_head (
        assoc_six (put_var h.largest) (put_var h.delay) (put_var h.count) (put_var h.range)
          (ack_gaps s (reverse (num_gabs s)))
          (if ack_type s == frame_ack_ecn then ecn_counts s.ecn_local else []) rest)
      ∙ read_head-put_var (ack_head_of s exponent now rest) small recent (num_gabs-IsGap s b v).0
          (first_smallest-le s b (reverse (num_gabs s)) v.based low v.top small (newest s b v))

  ack_head-ranges :
      (bytes rest : List ℕ) (c : Conn)
      → s.max_pn_seen < (c.spaces level).next_pn
      → ack_head sack level (ack_type s) bytes (ack_head_of s exponent now rest) c
        ≡ took (used bytes rest) (
            with_marks
              (sack_ranges sack level
                (mul64 (sub64 now s.max_pn_time / 2 ^ exponent) (2 ^ c.ack_delay_exponent)
                  % u32_mod)
                (ack_ranges s b)
                c)
              level
              s)
  unfolding ack_head ack_head_of
  ack_head-ranges bytes rest c sent =
      rw
        (
          lt→leb (c.spaces level).next_pn s.max_pn_seen sent,
          sym (length-reverse (num_gabs s)),
          loop-ranges sack s b level v.based low v.top small _ (reverse (num_gabs s)) _ c
              (newest s b v),
        )
        (ack_end-counts sack s level marks bytes rest _)

  -- What is written for a space is read, by a peer that has sent all that was received, as exactly
  -- the ranges between the gap blocks: each is handed over to `quic_outq_transmitted_sack`, newest
  -- first, with the delay for the first, and the counts of congestion marks are applied where
  -- there are any. All bytes of the frame are taken.
  pub ack_process-ack_body :
      (c : Conn) (rest : List ℕ)
      → s.max_pn_seen < (c.spaces level).next_pn
      → ack_process sack level (ack_type s) (ack_body s exponent now ++ rest) c
        ≡ took (length (ack_body s exponent now)) (
            with_marks
              (sack_ranges sack level
                (mul64 (sub64 now s.max_pn_time / 2 ^ exponent) (2 ^ c.ack_delay_exponent)
                  % u32_mod)
                (ack_ranges s b)
                c)
              level
              s)
  unfolding ack_process
  ack_process-ack_body c rest sent =
      rw (read_head-ack_body rest, ack_process)
        (ack_head-ranges (ack_body s exponent now ++ rest) rest c sent
          ∙ rw (used-append (ack_body s exponent now) rest) refl)
