-- ===== src/Outq/Queues.antt =====
-- The order of the send queues: initial, handshake, application, and in a level by packet number.
use quic.Prelude.{
  ℕ, ◌≤◌, ◌≡◌, ◌⊎◌, inl, inr, arith, Bool, true, false, ◌||◌, Option, none, some, List, [], ◌∷◌,
  Bool-cases, All, All-imp, sym,
}
use quic.Outq.{
  TxFrame, Outq, before, level_before, number_lt, is_unsent, is_stream, insert_transmitted,
  transmitted_tail, insert_retransmit, retransmit_frame,
}

-- A frame that was never sent comes last in its level.
abbrev pub NumberLe : Option ℕ → Option ℕ → Type 0
NumberLe a none = Unit
NumberLe none (some b) = ⊥
NumberLe (some a) (some b) = a ≤ b

abbrev pub Precedes : TxFrame → TxFrame → Type 0
Precedes f g =
    (level_before f.level g.level ≡ true) ⊎ ((f.level ≡ g.level) × NumberLe f.number g.number)

abbrev pub IsQueued : List TxFrame → Type 0
IsQueued [] = Unit
IsQueued (f ∷ fs) = All (Precedes f) fs × IsQueued fs

abbrev pub IsSent : TxFrame → Type 0
IsSent f = is_unsent f.number ≡ false

NumberLe-trans : (a b c : Option ℕ) → NumberLe a b → NumberLe b c → NumberLe a c
NumberLe-trans a b none p q = tt
NumberLe-trans none none (some c) p q = q
NumberLe-trans (some a) none (some c) p q = elim q [ ]
NumberLe-trans none (some b) (some c) p q = p
NumberLe-trans (some a) (some b) (some c) p q = omega (arith, p, q)

level_trans :
    (a b c : ℕ) → level_before a b ≡ true → level_before b c ≡ true → level_before a c ≡ true
level_trans a b c p q = ground (arith, p, q)

Precedes-trans : (f g h : TxFrame) → Precedes f g → Precedes g h → Precedes f h
Precedes-trans f g h (inl a) (inl b) = inl (level_trans f.level g.level h.level a b)
Precedes-trans f g h (inl a) (inr (same, b)) = inl (ground (arith, a, same))
Precedes-trans f g h (inr (same, a)) (inl b) = inl (ground (arith, b, same))
Precedes-trans f g h (inr (same, a)) (inr (same', b)) =
    inr (omega (arith, same, same'), NumberLe-trans f.number g.number h.number a b)

total_levels : (a b : ℕ) → level_before a b ≡ false → (a ≡ b) ⊎ (level_before b a ≡ true)
total_levels a b h = ground (arith, h)

lt-NumberLe : (a b : Option ℕ) → number_lt a b ≡ true → is_unsent a ≡ false → NumberLe a b
lt-NumberLe a none h sent = tt
lt-NumberLe none (some b) h sent = absurd (ground (arith, sent))
lt-NumberLe (some a) (some b) h sent = ground (arith, h)

nlt-NumberLe : (a b : Option ℕ) → number_lt a b ≡ false → is_unsent b ≡ false → NumberLe b a
nlt-NumberLe none b h sent = tt
nlt-NumberLe (some a) none h sent = absurd (ground (arith, sent))
nlt-NumberLe (some a) (some b) h sent = ground (arith, h)

unsent-NumberLe : (a b : Option ℕ) → is_unsent b ≡ true → NumberLe a b
unsent-NumberLe a none h = tt
unsent-NumberLe a (some b) h = absurd (ground (arith, h))

before-Precedes :
    (f g : TxFrame) (by_number : Bool)
    → (by_number ≡ true → NumberLe f.number g.number)
    → before f.level g.level by_number ≡ true
    → Precedes f g
before-Precedes f g by_number numbers h = elim (Bool-cases (level_before f.level g.level)) [
  | inl level ↦ inl level
  | inr level ↦ inr (ground (arith, h, level), numbers (ground (arith, h, level)))
]

behind-Precedes :
    (f g : TxFrame) (by_number : Bool)
    → (by_number ≡ false → NumberLe g.number f.number)
    → before f.level g.level by_number ≡ false
    → Precedes g f
behind-Precedes f g by_number numbers h = elim (total_levels f.level g.level (ground (arith, h))) [
  | inl same ↦ inr (sym same, numbers (ground (arith, h, same)))
  | inr level ↦ inl level
]

module _ (P : TxFrame → Type 0) where
  insert_transmitted-All :
      (gs : List TxFrame) (f : TxFrame) → P f → All P gs → All P (insert_transmitted gs f)
  unfolding insert_transmitted
  insert_transmitted-All [] f p ps = (p, tt)
  insert_transmitted-All (g ∷ gs) f p (q, qs) =
      elim (Bool-cases (before f.level g.level (number_lt f.number g.number))) [
        | inl a ↦ rw a (p, (q, qs))
        | inr a ↦ rw a (q, insert_transmitted-All gs f p qs)
      ]

  insert_retransmit-All :
      (gs : List TxFrame) (f : TxFrame) → P f → All P gs → All P (insert_retransmit gs f)
  unfolding insert_retransmit
  insert_retransmit-All [] f p ps = (p, tt)
  insert_retransmit-All (g ∷ gs) f p (q, qs) =
      elim (Bool-cases
        (before f.level g.level (is_unsent g.number || number_lt f.number g.number))) [
          | inl a ↦ rw a (p, (q, qs))
          | inr a ↦ rw a (q, insert_retransmit-All gs f p qs)
        ]

insert_transmitted-IsQueued :
    (gs : List TxFrame) (f : TxFrame)
    → IsSent f
    → All IsSent gs
    → IsQueued gs
    → IsQueued (insert_transmitted gs f)
unfolding insert_transmitted
insert_transmitted-IsQueued [] f sent all queued = (tt, tt)
insert_transmitted-IsQueued (g ∷ gs) f sent (sent', all) (first, queued) =
    let lower = number_lt f.number g.number in
    elim (Bool-cases (before f.level g.level lower)) [
      | inl a ↦
          let fg = before-Precedes f g lower (λ h. lt-NumberLe f.number g.number h sent) a in
          rw a ((fg, All-imp (λ h after. Precedes-trans f g h fg after) gs first), (first, queued))
      | inr a ↦
          let gf = behind-Precedes f g lower (λ h. nlt-NumberLe f.number g.number h sent') a in
          rw a (
            insert_transmitted-All (Precedes g) gs f gf first,
            insert_transmitted-IsQueued gs f sent all queued,
          )
    ]

retransmit_lem :
    (a b : Option ℕ)
    → is_unsent a ≡ false
    → ((is_unsent b || number_lt a b) ≡ true → NumberLe a b)
      × ((is_unsent b || number_lt a b) ≡ false → NumberLe b a)
retransmit_lem none b sent = absurd (ground (arith, sent))
retransmit_lem (some a) none sent = (λ h. tt, λ h. absurd (ground (arith, h)))
retransmit_lem (some a) (some b) sent = (λ h. ground (arith, h), λ h. ground (arith, h))

insert_retransmit-IsQueued :
    (gs : List TxFrame) (f : TxFrame) → IsSent f → IsQueued gs → IsQueued (insert_retransmit gs f)
unfolding insert_retransmit
insert_retransmit-IsQueued [] f sent queued = (tt, tt)
insert_retransmit-IsQueued (g ∷ gs) f sent (first, queued) =
    let lower = is_unsent g.number || number_lt f.number g.number in
    let (up, down) = retransmit_lem f.number g.number sent in
    elim (Bool-cases (before f.level g.level lower)) [
      | inl a ↦
          let fg = before-Precedes f g lower up a in
          rw a ((fg, All-imp (λ h after. Precedes-trans f g h fg after) gs first), (first, queued))
      | inr a ↦
          let gf = behind-Precedes f g lower down a in
          rw a (
            insert_retransmit-All (Precedes g) gs f gf first,
            insert_retransmit-IsQueued gs f sent queued,
          )
    ]

-- The list of transmitted frames stays in order of level and packet number, and all of it sent.
pub transmitted_tail-IsQueued :
    (q : Outq) (f : TxFrame)
    → IsSent f
    → All IsSent q.transmitted_list
    → IsQueued q.transmitted_list
    → IsQueued (transmitted_tail q f).transmitted_list
      × All IsSent (transmitted_tail q f).transmitted_list
unfolding transmitted_tail
transmitted_tail-IsQueued q f sent all queued =
    let f' = record f { transmitted = true } in
    (
      insert_transmitted-IsQueued q.transmitted_list f' sent all queued,
      insert_transmitted-All IsSent q.transmitted_list f' sent all,
    )

-- A frame that was sent, put back for another transmission, leaves the queues in order: its place is by
-- level, then by the packet number it was sent with, and before those that were never sent.
retransmit_frame-IsQueued :
    (q : Outq) (f : TxFrame)
    → IsSent f
    → IsQueued q.stream_list
    → IsQueued q.control_list
    → IsQueued (retransmit_frame q f).stream_list × IsQueued (retransmit_frame q f).control_list
unfolding retransmit_frame
retransmit_frame-IsQueued q f sent streams controls = elim (Bool-cases (is_stream f.kind)) [
  | inl a ↦ rw a (insert_retransmit-IsQueued q.stream_list f sent streams, controls)
  | inr a ↦ rw a (streams, insert_retransmit-IsQueued q.control_list f sent controls)
]
