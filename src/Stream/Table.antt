-- ===== src/Stream/Table.antt =====
-- The hash table of streams: what a lookup finds behind each change.
use quic.Prelude.{
  ℕ, zero, suc, ◌+◌, ◌*◌, ◌%◌, ◌≤◌, ◌<◌, ◌≡◌, ◌≢◌, ◌⊎◌, inl, inr, refl, ◌∙◌, sym, ap, subst, Bool,
  true, false, ◌==◌, if◌then◌else◌, some, List, [], ◌∷◌, All, All-imp, lt_or_le, arith, Bool-cases,
}
use quic.Prelude.Words.{add64}
use quic.Stream.{
  Stream, StreamTable, find_in, find, with_bucket, add, new_stream, sle, stream_id_step,
}
use quic.Stream.Ops.{create_loop, add_all}

-- A lookup in a table with one stream more.
find-add :
    (t : StreamTable) (s : Stream) (id : ℕ)
    → find (add t s) id ≡ (if s.id == id then some s else find t id)
unfolding find add with_bucket find_in
find-add t s id = ground arith

id-new_stream :
    (t : StreamTable) (send is_serv : Bool) (id : ℕ) → (new_stream t send is_serv id).id ≡ id
unfolding new_stream
id-new_stream t send is_serv id = ground arith

-- A stream with the ID is in the list.
unfoldable pub HasId : ℕ → List Stream → Type 0
HasId id [] = ⊥
HasId id (s ∷ ss) = (s.id ≡ id) ⊎ HasId id ss

sle-true : (id last : ℕ) → id ≤ last → last < 0x4000_0000_0000_0000 → sle id last ≡ true
sle-true id last le small = ground arith

sle-false :
    (id last : ℕ) → last < id → last < 0x4000_0000_0000_0000 → id ≤ last + 4 → sle id last ≡ false
sle-false id last lt small le = ground arith

step_fits :
    (id last : ℕ) → id ≤ last → last < 0x4000_0000_0000_0000 → add64 id stream_id_step ≡ id + 4
step_fits id last le small = omega arith

id_end : (last id : ℕ) → last < id → id ≤ last + 4 → id % 4 ≡ last % 4 → id ≡ last + 4
id_end last id lt le same = omega arith

-- The stream made last has the ID before `id`.
unfoldable pub Newest : ℕ → List Stream → Type 0
Newest id [] = Unit
Newest id (s ∷ ss) = s.id + 4 ≡ id

module _ (t : StreamTable) (send is_serv : Bool) where
  abbrev pub fresh : ℕ → Stream
  fresh = new_stream t send is_serv

  pub find-add_all-fresh :
      (ss : List Stream) (t' : StreamTable) (id : ℕ)
      → All (λ s. s ≡ fresh s.id) ss
      → (find t' id ≡ some (fresh id)) ⊎ HasId id ss
      → find (add_all ss t') id ≡ some (fresh id)
  unfolding add_all HasId
  find-add_all-fresh [] t' id new (inl h) = h
  find-add_all-fresh [] t' id new (inr h) = elim h [ ]
  find-add_all-fresh (s ∷ ss) t' id (is_new, new) h = elim (Bool-cases (s.id == id)) [
    | inl same ↦ find-add_all-fresh ss (add t' s) id new (inl (find-add t' s id ∙ ground arith))
    | inr other ↦ find-add_all-fresh ss (add t' s) id new (elim h [
      | inl found ↦ inl (find-add t' s id ∙ ground arith)
      | inr (inl e) ↦ absurd (ground arith)
      | inr (inr has) ↦ inr has
    ])
  ]

  pub find-add_all_other :
      (ss : List Stream) (t' : StreamTable) (id : ℕ)
      → All (λ s. s.id ≢ id) ss
      → find (add_all ss t') id ≡ find t' id
  unfolding add_all
  find-add_all_other [] t' id h = refl
  find-add_all_other (s ∷ ss) t' id (other, h) =
      find-add_all_other ss (add t' s) id h ∙ find-add t' s id ∙ ground arith

  -- What the loop has made once the next ID is `id`: fresh streams for the IDs from `first` on.
  abbrev pub Opened : ℕ → ℕ → List Stream → Type 0
  Opened first id made =
      All (λ s. s ≡ fresh s.id) made
      × All (λ s. (first ≤ s.id) × (s.id < id) × (s.id % 4 ≡ first % 4)) made
      × ((j : ℕ) → first ≤ j → j < id → j % 4 ≡ first % 4 → HasId j made)
      × Newest id made

  Opened-step :
      (first id : ℕ) (made : List Stream)
      → first ≤ id
      → id % 4 ≡ first % 4
      → Opened first id made
      → Opened first (id + 4) (fresh id ∷ made)
  unfolding HasId Newest
  Opened-step first id made le same (new, within, covers, newest) =
      let is_id = id-new_stream t send is_serv id in
      (
        (ap fresh (sym is_id), new),
        (
          (omega (arith, is_id), omega (arith, is_id), omega (arith, is_id)),
          All-imp (λ s h. omega (arith, h)) made within,
        ),
        λ j le' lt j_same. elim (lt_or_le j id) [
          | inl before ↦ inr (covers j le' before j_same)
          | inr behind ↦ inl (omega (arith, is_id))
        ],
        omega (arith, is_id),
      )

  pub loop_lem :
      (fuel first last id : ℕ) (made : List Stream) (mem : ℕ → Bool)
      → ((i : ℕ) → mem i ≡ true)
      → last < 0x4000_0000_0000_0000
      → first ≤ id
      → id ≤ last + 4
      → id % 4 ≡ first % 4
      → last % 4 ≡ first % 4
      → last + 8 ≤ id + fuel * 4
      → Opened first id made
      → (made' : List Stream) × (create_loop fuel t send is_serv mem last id made
          ≡ some (last + 4, made'))
        × Opened first (last + 4) made'
  unfolding create_loop
  loop_lem zero first last id made mem full small le le' same same' enough so_far =
      absurd (omega arith)
  loop_lem (suc fuel) first last id made mem full small le le' same same' enough so_far =
      elim (lt_or_le last id) [
        | inl done ↦
            let at_end = id_end last id done le' (same ∙ sym same') in
            (
              made,
              rw (sle-false id last done small (omega arith)) (ap (λ n. some (n, made)) at_end),
              subst (λ n. Opened first n made) at_end so_far,
            )
        | inr more ↦
            let (made', run, h) =
              loop_lem fuel first last (id + 4) (fresh id ∷ made) (λ i. mem (suc i))
                (λ i. full (suc i)) small (omega arith) (omega (arith, more)) (omega arith) same'
                (omega arith) (Opened-step first id made le same so_far) in
            (
              made',
              rw (sle-true id last more small)
                  (rw (full 0) (rw (step_fits id last more small) run)),
              h,
            )
      ]
