-- ===== src/Stream/Opening.antt =====
-- What opening a stream does to the table.
use quic.Prelude.{
  ℕ, ◌+◌, ◌/◌, ◌%◌, ◌≤◌, ◌<◌, ◌≡◌, ◌≢◌, ◌⊎◌, inr, refl, ◌∙◌, sym, ap, Bool, true, some, List, [],
  ◌∷◌, All-imp, arith, length,
}
use quic.Stream.{Stream, StreamTable, StreamLimits, find, id_uni}
use quic.Stream.Ops.{create_loop, add_all, create, opened, limits, with_limits, next_id}
use quic.Stream.Table.{
  HasId, Newest, Opened, fresh, loop_lem, find-add_all-fresh, find-add_all_other,
}

find-opened :
    (t : StreamTable) (send : Bool) (l : StreamLimits) (id : ℕ)
    → find (with_limits t send l) id ≡ find t id
unfolding find
find-opened t send l id = ground arith

-- What `create` returns for a stream that lies at or behind the next ID.
abbrev pub Created : StreamTable → Bool → Bool → ℕ → ℕ → StreamTable → Type 0
Created t send is_serv first last t' =
    ((j : ℕ) → first ≤ j → j ≤ last → j % 4 ≡ first % 4 → find t' j ≡ some (fresh t send is_serv j))
    × ((j : ℕ) → (j < first) ⊎ (last < j) ⊎ (j % 4 ≢ first % 4) → find t' j ≡ find t j)
    × (next_id (limits t' send) last ≡ last + 4)

run-create :
    (t : StreamTable) (last : ℕ) (send is_serv : Bool) (mem : ℕ → Bool) (first : ℕ)
    → ((i : ℕ) → mem i ≡ true)
    → last < 0x4000_0000_0000_0000
    → first ≤ last
    → first % 4 ≡ last % 4
    → (made : List Stream) × (create_loop (last / 4 + 2) t send is_serv mem last first []
        ≡ some (last + 4, made))
      × Opened t send is_serv first (last + 4) made
unfolding HasId Newest
run-create t last send is_serv mem first full small le same =
    loop_lem t send is_serv (last / 4 + 2) first last first [] mem full small (omega arith)
      (omega arith) refl (sym same) (omega arith) (tt, tt, (λ j a b c. absurd (omega arith)), tt)

-- The table behind the loop.
abbrev pub after : StreamTable → Bool → ℕ → List Stream → StreamTable
after t send last made =
    let t' = add_all made t in
    with_limits t' send (opened (limits t' send) (last + 4) (length made))

uni-next : (last : ℕ) → id_uni (last + 4) ≡ id_uni last
unfolding id_uni
uni-next last = ground arith

next_id-opened :
    (l : StreamLimits) (last count : ℕ) → next_id (opened l (last + 4) count) last ≡ last + 4
unfolding opened
next_id-opened l last count = rw (uni-next last) (ground arith)

limits-with_limits :
    (t : StreamTable) (send : Bool) (l : StreamLimits) → limits (with_limits t send l) send ≡ l
limits-with_limits t send l = ground arith

next_id-after :
    (t : StreamTable) (send : Bool) (last : ℕ) (made : List Stream)
    → next_id (limits (after t send last made) send) last ≡ last + 4
next_id-after t send last made =
    let t' = add_all made t in
    let l = opened (limits t' send) (last + 4) (length made) in
    ap (λ x. next_id x last) (limits-with_limits t' send l)
    ∙ next_id-opened (limits t' send) last (length made)

within_ne :
    (j first last : ℕ) (s : Stream)
    → (j < first) ⊎ (last < j) ⊎ (j % 4 ≢ first % 4)
    → first % 4 ≡ last % 4
    → (first ≤ s.id) × (s.id < last + 4) × (s.id % 4 ≡ first % 4)
    → s.id ≢ j
within_ne j first last s out same h = ground arith

Created-after :
    (t : StreamTable) (last : ℕ) (send is_serv : Bool) (first : ℕ) (made : List Stream)
    → first % 4 ≡ last % 4
    → Opened t send is_serv first (last + 4) made
    → Created t send is_serv first last (after t send last made)
Created-after t last send is_serv first made same (new, within, covers, newest) = (
  λ j le le' j_same.
      find-opened (add_all made t) send _ j
      ∙ find-add_all-fresh t send is_serv made t j new (inr (covers j le (omega arith) j_same)),
  λ j out.
      find-opened (add_all made t) send _ j
      ∙ find-add_all_other t send is_serv made t j
          (All-imp (λ s h. within_ne j first last s out same h) made within),
  next_id-after t send last made,
)

head-Opened :
    (t : StreamTable) (send is_serv : Bool) (first last : ℕ) (made : List Stream)
    → first ≤ last
    → last % 4 ≡ first % 4
    → Opened t send is_serv first (last + 4) made
    → (s : Stream) × (ss : List Stream) × (made ≡ s ∷ ss) × (s ≡ fresh t send is_serv last)
unfolding HasId Newest
head-Opened t send is_serv first last [] le same (new, within, covers, newest) =
    elim (covers last le (omega arith) same) [ ]
head-Opened t send is_serv first last (s ∷ ss) le same ((is_new, new), within, covers, newest) =
    (s, ss, refl, is_new ∙ ap (fresh t send is_serv) (omega (arith, newest)))

create-after :
    (t : StreamTable) (last : ℕ) (send is_serv : Bool) (mem : ℕ → Bool)
    → (made : List Stream) (s : Stream) (ss : List Stream)
    → create_loop (last / 4 + 2) t send is_serv mem last (next_id (limits t send) last) []
      ≡ some (last + 4, made)
    → made ≡ s ∷ ss
    → create t last send is_serv mem ≡ some (after t send last made, s)
unfolding create
create-after t last send is_serv mem made s ss run made_is =
    rw (create, run ∙ ap (λ x. some (last + 4, x)) made_is, made_is) refl

-- Where all allocations succeed, creating a stream with an ID below 2 ^ 62, at or behind the next ID of
-- its type, opens it and all streams of the type between, each as a fresh stream; the next ID is
-- the one behind it, and a lookup of any other ID finds what it found before.
pub create_lem :
    (t : StreamTable) (last : ℕ) (send is_serv : Bool) (mem : ℕ → Bool)
    → ((i : ℕ) → mem i ≡ true)
    → last < 0x4000_0000_0000_0000
    → let first = next_id (limits t send) last in
      first ≤ last
      → first % 4 ≡ last % 4
      → (t' : StreamTable) × (create t last send is_serv mem ≡ some (t', fresh t send is_serv last))
        × Created t send is_serv first last t'
create_lem t last send is_serv mem full small le same =
    let first = next_id (limits t send) last in
    let (made, run, is_opened) = run-create t last send is_serv mem first full small le same in
    let (s, ss, made_is, s_is) =
      head-Opened t send is_serv first last made le (sym same) is_opened in
    (
      after t send last made,
      create-after t last send is_serv mem made s ss run made_is
          ∙ ap (λ x. some (after t send last made, x)) s_is,
      Created-after t last send is_serv first made same is_opened,
    )
