-- ===== src/Inq/Handshake/Messages.antt =====
-- The bytes of the handshake reach TLS in order, at each level above 0.
use quic.Prelude.{
  ℕ, ◌+◌, ◌-◌, ◌≤◌, ◌<◌, ◌≡◌, inl, inr, refl, sym, ap, subst, ◌∙◌, Bool, true, false, ◌||◌, ltb,
  leb, ◌==◌, if◌then◌else◌, Option, none, some, List, [], ◌∷◌, ◌++◌, All, arith, Bool-cases,
}
use quic.Prelude.Result.{Errno, enobufs}
use quic.Inq.{RxFrame, Env, len, rfree, set_owner_r, no_room}
use quic.Inq.Streams.{end_of, trimmed}
use quic.Inq.Streams.Slices.{slice-cong}
use quic.Inq.Streams.Delivery.{trimmed_bytes, trimmed_length}
use quic.Inq.Handshake.{
  Hs, handshake_tail, hs_advance, pass_message, merge_crypto, handshake_recv, hs_merged, hs_placed,
  with_hs_inq, crypto_deliver, skip_crypto, then_hs, end_crypto, error_crypto_buf_exceeded,
}
use quic.Inq.Handshake.Passing.{
  messages, messages-insert_message, IsPart, Passes, Passes-refl, Passes-trans,
}

hs_advance_keeps :
    (h : Hs) (overlap : ℕ) (f' : RxFrame)
    → ((hs_advance h overlap f').inq.recv_list ≡ h.inq.recv_list)
      × ((hs_advance h overlap f').crypto.recv_offset ≡ h.crypto.recv_offset + len f')
      × ((hs_advance h overlap f').inq.handshake_list ≡ h.inq.handshake_list)
unfolding hs_advance rfree set_owner_r
hs_advance_keeps h overlap f' = ground arith

-- The frame is delivered where it ends behind the offset.
abbrev delivered : Env → (ℕ → Bool) → Hs → RxFrame → Hs
delivered env append h f =
    let f' = trimmed f (h.crypto.recv_offset - f.offset) in
    crypto_deliver env append (hs_advance h (h.crypto.recv_offset - f.offset) f') f'

handshake_tail_fits :
    (env : Env) (append : ℕ → Bool) (h : Hs) (f : RxFrame)
    → h.crypto.recv_offset ≤ end_of f
    → handshake_tail env append h f ≡ some (delivered env append h f)
unfolding handshake_tail
handshake_tail_fits env append h f ends =
    let fits : ltb (len f) (h.crypto.recv_offset - f.offset) ≡ false = ground (arith, ends) in
    rw fits refl

delivered-Passes :
    (env : Env) (append : ℕ → Bool) (d : ℕ → ℕ) (level : ℕ) (h : Hs) (f : RxFrame)
    → IsPart d level f
    → 0 < level
    → f.offset ≤ h.crypto.recv_offset
    → h.crypto.recv_offset ≤ end_of f
    → Passes d level h (delivered env append h f)
      × ((delivered env append h f).inq.handshake_list ≡ h.inq.handshake_list)
unfolding crypto_deliver pass_message
delivered-Passes env append d level h f part above starts ends =
    let o = h.crypto.recv_offset in
    let f' = trimmed f (o - f.offset) in
    let message : (f.level == 0) ≡ false = ground (arith, part.level, above) in
    let (recv, offset, waiting) = hs_advance_keeps h (o - f.offset) f' in
    let off : (hs_advance h (o - f.offset) f').crypto.recv_offset ≡ end_of f =
      omega (arith, offset, trimmed_length d f o part.bytes starts, ends) in
    let passes : Passes d level h (pass_message (hs_advance h (o - f.offset) f') f') = record {
      forward = omega (arith, off, ends);
      bytes =
          messages-insert_message level (hs_advance h (o - f.offset) f').inq.recv_list
            (record f' { offset = 0 }) part.level above
          ∙ ap (λ l. messages level l ++ f'.bytes) recv
          ∙ ap (λ l. messages level h.inq.recv_list ++ l)
              (trimmed_bytes d f o part.bytes starts
                ∙ slice-cong d refl (ap (λ x. x - o) (sym off)));
    } in
    rw message (passes, waiting)

data CryptoStep (env : Env) (append : ℕ → Bool) (level : ℕ) (f : RxFrame) (fs : List RxFrame)
    (h : Hs) : Type 0 where
  of_lower :
      merge_crypto env append level (f ∷ fs) h ≡ skip_crypto f (merge_crypto env append level fs h)
      → CryptoStep env append level f fs h
  at_end :
      merge_crypto env append level (f ∷ fs) h ≡ some (f ∷ fs, h)
      → CryptoStep env append level f fs h
  old :
      merge_crypto env append level (f ∷ fs) h
        ≡ merge_crypto env append level fs (with_hs_inq h (rfree (len f) h.inq))
      → CryptoStep env append level f fs h
  due :
      f.level ≡ level
      → f.offset ≤ h.crypto.recv_offset
      → h.crypto.recv_offset ≤ end_of f
      → merge_crypto env append level (f ∷ fs) h
        ≡ merge_crypto env append level fs (delivered env append h f)
      → CryptoStep env append level f fs h

crypto_step :
    (env : Env) (append : ℕ → Bool) (level : ℕ) (f : RxFrame) (fs : List RxFrame) (h : Hs)
    → CryptoStep env append level f fs h
unfolding merge_crypto
crypto_step env append level f fs h = elim (Bool-cases (ltb f.level level)) [
  | inl a ↦ of_lower (rw a refl)
  | inr a ↦ elim (Bool-cases (ltb level f.level || ltb h.crypto.recv_offset f.offset)) [
    | inl b ↦ at_end (rw a (rw b refl))
    | inr b ↦ elim (Bool-cases (leb (end_of f) h.crypto.recv_offset)) [
      | inl c ↦ old (rw a (rw b (rw c refl)))
      | inr c ↦ due (ground (arith, a, b)) (ground (arith, b)) (ground (arith, c)) (
          rw a (
            rw b (
              rw c (
                ap (λ o. then_hs o (merge_crypto env append level fs))
                  (handshake_tail_fits env append h f (ground (arith, c)))))))
    ]
  ]
]

-- A merge does not overrun, and passes bytes on.
abbrev MergePasses : (ℕ → ℕ) → ℕ → Hs → Option (List RxFrame × Hs) → Type 0
MergePasses d level h none = ⊥
MergePasses d level h (some (kept, h')) = Passes d level h h'

MergePasses-skip :
    (d : ℕ → ℕ) (level : ℕ) (h : Hs) (f : RxFrame) (o : Option (List RxFrame × Hs))
    → MergePasses d level h o
    → MergePasses d level h (skip_crypto f o)
MergePasses-skip d level h f none p = absurd p
MergePasses-skip d level h f (some (kept, h')) p = p

MergePasses-from :
    (d : ℕ → ℕ) (level : ℕ) (h h' : Hs) (o : Option (List RxFrame × Hs))
    → Passes d level h h'
    → MergePasses d level h' o
    → MergePasses d level h o
MergePasses-from d level h h' none first p = absurd p
MergePasses-from d level h h' (some (kept, h'')) first p = Passes-trans d level h h' h'' first p

merge_crypto-Passes :
    (env : Env) (append : ℕ → Bool) (d : ℕ → ℕ) (level : ℕ) (fs : List RxFrame) (h : Hs)
    → 0 < level
    → All (λ g. g.level ≡ level → IsPart d level g) fs
    → MergePasses d level h (merge_crypto env append level fs h)
unfolding merge_crypto rfree
merge_crypto-Passes env append d level [] h above parts = Passes-refl d level h h refl refl
merge_crypto-Passes env append d level (f ∷ fs) h above (part, parts) =
    elim (crypto_step env append level f fs h) [
      | of_lower e ↦ subst (MergePasses d level h) (sym e) (
          MergePasses-skip d level h f (merge_crypto env append level fs h)
            (merge_crypto-Passes env append d level fs h above parts))
      | at_end e ↦ subst (MergePasses d level h) (sym e) (Passes-refl d level h h refl refl)
      | old e ↦
          let freed = with_hs_inq h (rfree (len f) h.inq) in
          subst (MergePasses d level h) (sym e) (
            MergePasses-from d level h freed _ (Passes-refl d level h freed refl refl)
              (merge_crypto-Passes env append d level fs freed above parts))
      | due mine starts ends e ↦
          let next = delivered env append h f in
          subst (MergePasses d level h) (sym e) (
            MergePasses-from d level h next _
              (delivered-Passes env append d level h f (part mine) above starts ends).0
              (merge_crypto-Passes env append d level fs next above parts))
    ]

-- What a call that returns does: the bytes are passed on, or the error of a full buffer is returned and
-- nothing has changed. An overrun is not allowed.
abbrev pub PassesAfter : (ℕ → ℕ) → ℕ → Hs → Option (Hs × Option (Errno × ℕ)) → Type 0
PassesAfter d level h none = ⊥
PassesAfter d level h (some (h', none)) = Passes d level h h'
PassesAfter d level h (some (h', some e)) = (h' ≡ h) × (e ≡ (enobufs, error_crypto_buf_exceeded))

end_crypto-Passes :
    (d : ℕ → ℕ) (level : ℕ) (h h' : Hs) (o : Option (List RxFrame × Hs))
    → Passes d level h h'
    → MergePasses d level h' o
    → PassesAfter d level h (end_crypto o)
end_crypto-Passes d level h h' none first p = absurd p
end_crypto-Passes d level h h' (some (kept, h'')) first p =
    let all = Passes-trans d level h h' h'' first p in
    record { forward = all.forward; bytes = all.bytes }

hs_placed-Passes :
    (d : ℕ → ℕ) (level : ℕ) (h : Hs) (f : RxFrame) (o : Option (List RxFrame))
    → Passes d level h (hs_placed h f o)
unfolding rfree
hs_placed-Passes d level h f none = Passes-refl d level h _ refl refl
hs_placed-Passes d level h f (some l) = Passes-refl d level h _ refl refl

PassesAfter-if :
    (d : ℕ → ℕ) (level : ℕ) (h : Hs) (c : Bool) (x y : Option (Hs × Option (Errno × ℕ)))
    → (c ≡ true → PassesAfter d level h x)
    → (c ≡ false → PassesAfter d level h y)
    → PassesAfter d level h (if c then x else y)
PassesAfter-if d level h true x y on off = on refl
PassesAfter-if d level h false x y on off = off refl

-- The frame is in order: it is delivered, and then those that wait.
in_order-Passes :
    (env : Env) (append : ℕ → Bool) (d : ℕ → ℕ) (h charged : Hs) (f : RxFrame)
    → IsPart d f.level f
    → 0 < f.level
    → All (λ g. g.level ≡ f.level → IsPart d f.level g) charged.inq.handshake_list
    → Passes d f.level h charged
    → f.offset ≤ charged.crypto.recv_offset
    → charged.crypto.recv_offset ≤ end_of f
    → PassesAfter d f.level h
        (then_hs (handshake_tail env append charged f) (hs_merged env append f.level))
unfolding hs_merged
in_order-Passes env append d h charged f part above parts paid starts ends =
    let level = f.level in
    let next = delivered env append charged f in
    let (passed, waiting) = delivered-Passes env append d level charged f part above starts ends in
    subst (λ o. PassesAfter d level h (then_hs o (hs_merged env append level)))
      (sym (handshake_tail_fits env append charged f ends))
      (end_crypto-Passes d level h next (merge_crypto env append level next.inq.handshake_list next)
        (Passes-trans d level h charged next paid passed)
        (merge_crypto-Passes env append d level next.inq.handshake_list next above
          (subst (All (λ g. g.level ≡ level → IsPart d level g)) (sym waiting) parts)))

-- Where the frames of a level above 0 are pieces of one byte string, a frame makes the queue give TLS
-- exactly the level's bytes between the old offset and the new one, in order, whatever waits in the
-- list, and whatever the other lists hold; or the error is that of a full buffer, and nothing has
-- changed. The call always returns: no length wraps around.
pub handshake_recv-Passes :
    (env : Env) (append : ℕ → Bool) (d : ℕ → ℕ) (h : Hs) (f : RxFrame)
    → IsPart d f.level f
    → 0 < f.level
    → All (λ g. g.level ≡ f.level → IsPart d f.level g) h.inq.handshake_list
    → PassesAfter d f.level h (handshake_recv env append h f)
unfolding handshake_recv set_owner_r
handshake_recv-Passes env append d h f part above parts =
    let level = f.level in
    let charged = with_hs_inq h (set_owner_r (len f) h.inq) in
    let paid : Passes d level h charged = Passes-refl d level h charged refl refl in
    PassesAfter-if d level h (leb (end_of f) h.crypto.recv_offset) _ _
      (λ old. Passes-refl d level h h refl refl)
      (λ new.
        PassesAfter-if d level h (no_room env h.inq (len f)) _ _ (λ full. (refl, refl))
          (λ room.
            PassesAfter-if d level h (ltb h.crypto.recv_offset f.offset) _ _
              (λ later.
                Passes-trans d level h charged _ paid (hs_placed-Passes d level charged f _))
              (λ now.
                in_order-Passes env append d h charged f part above parts paid (ground (arith, now))
                  (ground (arith, new)))))
