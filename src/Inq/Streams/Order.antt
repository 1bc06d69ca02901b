-- ===== src/Inq/Streams/Order.antt =====
-- The order of the frames that wait: by stream, and by offset in a stream.
use quic.Prelude.{
  ℕ, ◌+◌, ◌≤◌, ◌<◌, ◌≡◌, ◌⊎◌, inl, inr, refl, sym, subst, ◌∙◌, arith, not, ◌&&◌, ◌||◌, ltb, leb,
  ◌==◌, if◌then◌else◌, Option, none, some, List, [], ◌∷◌, Bool-cases, All, All-imp,
}
use mathlib.Core.Option.{some-injective}
use quic.Inq.{RxFrame}
use quic.Inq.Streams.{sid, end_of, keep, insert_frame}

abbrev pub Before : RxFrame → RxFrame → Type 0
Before f g = (sid f < sid g) ⊎ ((sid f ≡ sid g) × (f.offset ≤ g.offset))

abbrev pub IsSorted : List RxFrame → Type 0
IsSorted [] = Unit
IsSorted (f ∷ fs) = All (Before f) fs × IsSorted fs

pub Before-trans : (f g h : RxFrame) → Before f g → Before g h → Before f h
Before-trans f g h a b = ground (arith, a, b)

-- How many frames of the stream wait.
unfoldable pub count : ℕ → List RxFrame → ℕ
count id [] = 0
count id (f ∷ fs) = if sid f == id then count id fs + 1 else count id fs

-- Where a frame goes, seen from the first frame of the list.
pub data InsertStep (g : RxFrame) (gs : List RxFrame) (f : RxFrame) : Type 0 where
  behind : Before g f → insert_frame (g ∷ gs) f ≡ keep g (insert_frame gs f) → InsertStep g gs f
  here : Before f g → insert_frame (g ∷ gs) f ≡ some (f ∷ g ∷ gs) → InsertStep g gs f
  covered : insert_frame (g ∷ gs) f ≡ none → InsertStep g gs f

pub insert_step : (g : RxFrame) (gs : List RxFrame) (f : RxFrame) → InsertStep g gs f
unfolding insert_frame
insert_step g gs f =
    let lower = ltb (sid g) (sid f) in
    let ahead = ltb (sid f) (sid g) || ltb f.offset g.offset in
    let covers = leb (end_of f) (end_of g) && (g.stream_fin || not f.stream_fin) in
    elim (Bool-cases lower) [
      | inl a ↦ behind (ground (arith, a)) (rw a refl)
      | inr a ↦ elim (Bool-cases ahead) [
        | inl b ↦ here (ground (arith, a, b)) (rw a (rw b refl))
        | inr b ↦ elim (Bool-cases covers) [
          | inl c ↦ covered (rw a (rw b (rw c refl)))
          | inr c ↦ behind (ground (arith, a, b)) (rw a (rw b (rw c refl)))
        ]
      ]
    ]

pub keep-some :
    (g : RxFrame) (o : Option (List RxFrame)) (l : List RxFrame)
    → keep g o ≡ some l
    → (l' : List RxFrame) × (o ≡ some l') × (l ≡ g ∷ l')
keep-some g none l e = absurd (ground (arith, e))
keep-some g (some l') l e = (l', refl, sym (cc e))

pub insert-nil : (f : RxFrame) (l : List RxFrame) → insert_frame [] f ≡ some l → l ≡ f ∷ []
unfolding insert_frame
insert-nil f l e = sym (cc e)

pub shown {ℓ} : {A : Type ℓ} {x y : A} → some x ≡ some y → x ≡ y
shown {x = x} {y = y} e = some-injective x y e

-- What holds of the frame and of the list holds of the list with the frame.
pub insert-All :
    (P : RxFrame → Type 0) (gs : List RxFrame) (f : RxFrame) (l : List RxFrame)
    → insert_frame gs f ≡ some l
    → P f
    → All P gs
    → All P l
insert-All P [] f l e pf ps = subst (All P) (sym (insert-nil f l e)) (pf, tt)
insert-All P (g ∷ gs) f l e pf (pg, ps) = elim (insert_step g gs f) [
  | behind before run ↦
      let (l', inner, same) = keep-some g (insert_frame gs f) l (sym run ∙ e) in
      subst (All P) (sym same) (pg, insert-All P gs f l' inner pf ps)
  | here before run ↦ subst (All P) (shown (sym run ∙ e)) (pf, (pg, ps))
  | covered run ↦ absurd (ground (arith, run, e))
]

pub insert-IsSorted :
    (gs : List RxFrame) (f : RxFrame) (l : List RxFrame)
    → insert_frame gs f ≡ some l
    → IsSorted gs
    → IsSorted l
insert-IsSorted [] f l e sorted = subst IsSorted (sym (insert-nil f l e)) (tt, tt)
insert-IsSorted (g ∷ gs) f l e (first, sorted) = elim (insert_step g gs f) [
  | behind before run ↦
      let (l', inner, same) = keep-some g (insert_frame gs f) l (sym run ∙ e) in
      subst IsSorted (sym same)
        (insert-All (Before g) gs f l' inner before first, insert-IsSorted gs f l' inner sorted)
  | here before run ↦
      subst IsSorted (shown (sym run ∙ e))
        ((before, All-imp (λ h after. Before-trans f g h before after) gs first), (first, sorted))
  | covered run ↦ absurd (ground (arith, run, e))
]

pub insert-count :
    (id : ℕ) (gs : List RxFrame) (f : RxFrame) (l : List RxFrame)
    → insert_frame gs f ≡ some l
    → sid f ≡ id
    → count id l ≡ count id gs + 1
unfolding count
insert-count id [] f l e mine =
    subst (λ x. count id x ≡ 1) (sym (insert-nil f l e)) (ground (arith, mine))
insert-count id (g ∷ gs) f l e mine = elim (insert_step g gs f) [
  | behind before run ↦
      let (l', inner, same) = keep-some g (insert_frame gs f) l (sym run ∙ e) in
      let rest = insert-count id gs f l' inner mine in
      subst (λ x. count id x ≡ count id (g ∷ gs) + 1) (sym same) (ground (arith, rest))
  | here before run ↦
      subst (λ x. count id x ≡ count id (g ∷ gs) + 1) (shown (sym run ∙ e)) (ground (arith, mine))
  | covered run ↦ absurd (ground (arith, run, e))
]
