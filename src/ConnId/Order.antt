-- ===== src/ConnId/Order.antt =====
-- The order of a connection ID set, and what a lookup finds behind each change.
use quic.Prelude.{
  ℕ, ◌+◌, ◌-◌, ◌%◌, ◌≤◌, ◌<◌, ◌≡◌, ◌≢◌, inl, inr, refl, ◌∙◌, sym, ap, subst, true, false, ltb, ◌==◌,
  if◌then◌else◌, none, some, List, [], ◌∷◌, length, arith, Bool-cases, All, All-imp,
}
use quic.Prelude.Result.{ok}
use quic.ConnId.{
  CommonConnId, ConnIdSet, exists_in, insert_in, count_new, add, find_in, find, remove_in, remove,
  conn_id_max_len, points_to, next_number,
}

-- The numbers ascend.
unfoldable pub Ascends : List CommonConnId → Type 0
Ascends [] = Unit
Ascends (c ∷ cs) = All (λ c'. c.number < c'.number) cs × Ascends cs

find_in-above :
    (cs : List CommonConnId) (number : ℕ)
    → All (λ c'. number < c'.number) cs
    → find_in cs number ≡ none
unfolding find_in
find_in-above [] number h = refl
find_in-above (c ∷ cs) number (lt, h) = ground arith

above-insert_in :
    (cs : List CommonConnId) (c' : CommonConnId) (n : ℕ)
    → n < c'.number
    → All (λ c. n < c.number) cs
    → All (λ c. n < c.number) (insert_in cs c')
unfolding insert_in
above-insert_in [] c' n lt h = (lt, tt)
above-insert_in (c ∷ cs) c' n lt (lt', h) = elim (Bool-cases (ltb c'.number c.number)) [
  | inl before ↦ rw before (lt, (lt', h))
  | inr later ↦ rw later (lt', above-insert_in cs c' n lt h)
]

insert_in-Ascends :
    (cs : List CommonConnId) (c' : CommonConnId)
    → Ascends cs
    → exists_in cs c'.number ≡ false
    → Ascends (insert_in cs c')
unfolding insert_in Ascends exists_in
insert_in-Ascends [] c' h new = (tt, tt)
insert_in-Ascends (c ∷ cs) c' (above, h) new = elim (Bool-cases (ltb c'.number c.number)) [
  | inl before ↦
      let lt : c'.number < c.number = ground arith in
      rw before ((lt, All-imp (λ x a. omega (arith, lt, a)) cs above), (above, h))
  | inr later ↦ rw later (
    above-insert_in cs c' c.number (ground arith) above,
    insert_in-Ascends cs c' h (ground arith),
  )
]

find_in-insert_in :
    (cs : List CommonConnId) (c' : CommonConnId) (number : ℕ)
    → Ascends cs
    → exists_in cs c'.number ≡ false
    → find_in (insert_in cs c') number
      ≡ (if c'.number == number then some c' else find_in cs number)
unfolding insert_in find_in exists_in Ascends
find_in-insert_in [] c' number h new = ground arith
find_in-insert_in (c ∷ cs) c' number (above, h) new = elim (Bool-cases (ltb c'.number c.number)) [
  | inl before ↦ rw before (ground arith)
  | inr later ↦
      let rest = find_in-insert_in cs c' number h (ground arith) in rw later (ground arith)
]

head-count_new : (s : ConnIdSet) (number : ℕ) → (count_new s number).head ≡ s.head
unfolding count_new
head-count_new s number = ground arith

fits : (id : List ℕ) → length id ≤ conn_id_max_len → ltb conn_id_max_len (length id) ≡ false
fits id short = ground arith

-- Adding a connection ID of at most 20 bytes to an ordered set, where the allocation succeeds, keeps the
-- set ordered. A lookup of its number finds the ID if the number is new; if it is not, the set is
-- the same; no other lookup changes.
pub find-add :
    (s : ConnIdSet) (id : List ℕ) (number : ℕ) (extra : List ℕ)
    → Ascends s.head
    → length id ≤ conn_id_max_len
    → (s' : ConnIdSet) × (add s id number extra true ≡ ok s')
      × Ascends s'.head
      × ((n : ℕ) → n ≢ number → find s' n ≡ find s n)
      × (exists_in s.head number ≡ true → s' ≡ s)
      × (exists_in s.head number ≡ false
          → find s' number
            ≡ some (record { id = id; number = number; hashed = s.source; token = extra }))
unfolding add find
find-add s id number extra h short = elim (Bool-cases (exists_in s.head number)) [
  | inl old ↦ (s, rw old refl, h, (λ n ne. refl), (λ e. refl), λ e. absurd (ground arith))
  | inr new ↦
      let entry : CommonConnId = record {
        id = id;
        number = number;
        hashed = s.source;
        token = extra;
      } in
      let grown : ConnIdSet = record s { head = insert_in s.head entry } in
      let same = head-count_new grown number in
      let lookup =
        λ (n : ℕ). ap (λ cs. find_in cs n) same ∙ find_in-insert_in s.head entry n h new in
      (
        count_new grown number,
        rw new (rw (fits id short) refl),
        subst Ascends (sym same) (insert_in-Ascends s.head entry h new),
        (λ n ne. lookup n ∙ ground arith),
        (λ e. absurd (ground arith)),
        λ e. lookup number ∙ ground arith,
      )
]

-- What is left of an ordered list.
abbrev pub Remains : List CommonConnId → ℕ → ConnIdSet → Type 0
Remains cs number s =
    Ascends s.head
    × ((n : ℕ) → n ≤ number → find s n ≡ none)
    × ((n : ℕ) → number < n → find s n ≡ find_in cs n)

remove_in-Remains :
    (cs : List CommonConnId) (s : ConnIdSet) (number : ℕ)
    → Ascends cs
    → Remains cs number (remove_in cs s number)
unfolding remove_in find find_in Ascends
remove_in-Remains [] s number h = (tt, (λ n le. refl), λ n lt. refl)
remove_in-Remains (c ∷ cs) s number (above, h) = elim (Bool-cases (ltb number c.number)) [
  | inl kept ↦ rw kept ((above, h), (λ n le. ground arith), λ n lt. refl)
  | inr gone ↦
      let s' = record s {
        active = if points_to s.active c.number then next_number cs else s.active;
        count = (s.count + 256 - 1) % 256;
      } in
      let (ordered, low, high) = remove_in-Remains cs s' number h in
      rw gone (ordered, low, λ n lt. high n lt ∙ ground arith)
]

-- Removing up to a number from an ordered set leaves it ordered, without the IDs up to the number, and
-- a lookup of a larger number finds what it found before.
pub remove-Remains :
    (s : ConnIdSet) (number : ℕ) → Ascends s.head → Remains s.head number (remove s number)
unfolding remove
remove-Remains s number h = remove_in-Remains s.head s number h
