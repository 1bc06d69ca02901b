-- ===== src/Outq/Timeouts/Earliest.antt =====
-- The loss timer runs for the earliest of the times that the levels have.
use quic.Prelude.{
  ℕ, ◌+◌, ◌-◌, ◌≤◌, ◌<◌, ◌≡◌, ◌≢◌, ◌⊎◌, inl, inr, refl, sym, ◌∙◌, subst, arith, Bool, false, not,
  ◌&&◌, ◌||◌, ltb, ◌==◌, if◌then◌else◌, some, Bool-cases,
}
use quic.Prelude.Words.{add64, u64_mod}
use quic.PnSpace.{PnSpace}
use quic.Outq.{Outq}
use quic.Outq.Timeouts.{earlier_of, get_loss_time, get_pto_time, update_loss_timer}

-- The time stays that of the level named.
unfoldable IsTimeOf : (ℕ → PnSpace) → ℕ × ℕ → Type 0
IsTimeOf spaces p = (spaces p.1).loss_time ≡ p.0

earlier_of-IsTimeOf :
    (spaces : ℕ → PnSpace) (p : ℕ × ℕ) (level : ℕ)
    → IsTimeOf spaces p
    → IsTimeOf spaces (earlier_of p (spaces level).loss_time level)
unfolding IsTimeOf
earlier_of-IsTimeOf spaces p level h =
    let t = (spaces level).loss_time in
    elim (Bool-cases (not (t == 0) && ((p.0 == 0) || ltb t p.0))) [
      | inl on ↦ rw on refl
      | inr off ↦ rw off h
    ]

of_level :
    (spaces : ℕ → PnSpace) → (spaces (get_loss_time spaces).1).loss_time ≡ (get_loss_time spaces).0
unfolding get_loss_time IsTimeOf
of_level spaces =
    earlier_of-IsTimeOf spaces (earlier_of ((spaces 1).loss_time, 1) (spaces 2).loss_time 2) 0
      (earlier_of-IsTimeOf spaces ((spaces 1).loss_time, 1) 2 refl)

least :
    (i h a : ℕ) (t : ℕ)
    → t ≡ (earlier_of (earlier_of (i, 1) h 2) a 0).0
    → ((i ≡ 0) ⊎ ((t ≢ 0) × (t ≤ i)))
      × ((h ≡ 0) ⊎ ((t ≢ 0) × (t ≤ h)))
      × ((a ≡ 0) ⊎ ((t ≢ 0) × (t ≤ a)))
least i h a t e = ground (arith, e)

each_level :
    (spaces : ℕ → PnSpace) (level : ℕ)
    → level ≤ 2
    → ((spaces level).loss_time ≡ 0)
      ⊎ (((get_loss_time spaces).0 ≢ 0) × ((get_loss_time spaces).0 ≤ (spaces level).loss_time))
unfolding get_loss_time
each_level spaces level two =
    let (i, h, a) =
      least (spaces 1).loss_time (spaces 2).loss_time (spaces 0).loss_time (get_loss_time spaces).0
        refl in
    let Earliest : ℕ → Type 0 = λ l.
      ((spaces l).loss_time ≡ 0)
      ⊎ (((get_loss_time spaces).0 ≢ 0) × ((get_loss_time spaces).0 ≤ (spaces l).loss_time)) in
    let which : (level ≡ 0) ⊎ ((level ≡ 1) ⊎ (level ≡ 2)) = omega (arith, two) in
    elim which [
      | inl e ↦ subst Earliest (sym e) a
      | inr (inl e) ↦ subst Earliest (sym e) i
      | inr (inr e) ↦ subst Earliest (sym e) h
    ]

level_two : (spaces : ℕ → PnSpace) → (get_loss_time spaces).1 ≤ 2
unfolding get_loss_time
level_two spaces = ground arith

abbrev wait_for : ℕ → ℕ → ℕ → ℕ
wait_for tick now time = if ltb (add64 now tick) time then time - now else tick

wait_lem :
    (tick now time : ℕ)
    → now + tick < u64_mod
    → ((time ≤ now + tick) × (wait_for tick now time ≡ tick))
      ⊎ (now + wait_for tick now time ≡ time)
wait_lem tick now time small = ground (arith, small)

-- A level has the earliest of the times of loss detection, of which 0 is none.
abbrev pub IsEarliest : (ℕ → PnSpace) → ℕ → Type 0
IsEarliest spaces level =
    (level ≤ 2)
    × ((spaces level).loss_time ≢ 0)
    × ((other : ℕ)
        → other ≤ 2
        → ((spaces other).loss_time ≡ 0) ⊎ ((spaces level).loss_time ≤ (spaces other).loss_time))

earliest :
    (spaces : ℕ → PnSpace)
    → (get_loss_time spaces).0 ≢ 0
    → (level : ℕ) × IsEarliest spaces level × ((spaces level).loss_time ≡ (get_loss_time spaces).0)
earliest spaces set =
    let e = of_level spaces in
    (
      (get_loss_time spaces).1,
      (
        level_two spaces,
        λ none_there. set (sym e ∙ none_there),
        λ other two. elim (each_level spaces other two) [
          | inl clear ↦ inl clear
          | inr (_, le) ↦ inr (omega (arith, e, le))
        ],
      ),
      e,
    )

no_time :
    (spaces : ℕ → PnSpace) (level : ℕ)
    → (get_loss_time spaces).0 ≡ 0
    → level ≤ 2
    → (spaces level).loss_time ≡ 0
no_time spaces level clear two = elim (each_level spaces level two) [
  | inl e ↦ e
  | inr (set, _) ↦ absurd (set clear)
]

-- While bytes are in flight and the path is not blocked, the loss timer runs. If a level has a time
-- of loss detection, it runs until the earliest of these, or for one tick where that time comes no
-- later than the tick. The clock is not at its end.
pub update_loss_timer_lem :
    (spaces : ℕ → PnSpace) (q : Outq) (pto : ℕ) (ready established : Bool) (tick now : ℕ)
    → 0 < q.inflight
    → now + tick < u64_mod
    → (t : ℕ) × (update_loss_timer spaces q pto ready established false tick now ≡ some t)
      × (((level : ℕ) → level ≤ 2 → (spaces level).loss_time ≡ 0)
          ⊎ ((level : ℕ) × IsEarliest spaces level
              × ((((spaces level).loss_time ≤ now + tick) × (t ≡ tick))
                  ⊎ (now + t ≡ (spaces level).loss_time))))
unfolding update_loss_timer
update_loss_timer_lem spaces q pto ready established tick now flying small =
    let loss = (get_loss_time spaces).0 in
    let pto_time = (get_pto_time spaces q pto ready now).0 in
    elim (Bool-cases (not (loss == 0))) [
      | inl set ↦
          let (level, least_of, e) = earliest spaces (ground (arith, set)) in
          (
            wait_for tick now loss,
            rw set refl,
            inr (
              level,
              least_of,
              subst
                  (λ (l : ℕ).
                    ((l ≤ now + tick) × (wait_for tick now loss ≡ tick))
                    ⊎ (now + wait_for tick now loss ≡ l))
                  (sym e) (wait_lem tick now loss small),
            ),
          )
      | inr clear ↦
          let runs : ((q.inflight == 0) && established || false) ≡ false = ground (arith, flying) in
          (
            wait_for tick now pto_time,
            rw (clear, runs) refl,
            inl (λ level two. no_time spaces level (ground (arith, clear)) two),
          )
    ]
