-- ===== src/ConnId.antt =====
-- modules/net/quic/connid.c and connid.h: a set of connection IDs, kept by their sequence numbers. A
-- pointer to an entry is its number, since no two entries share one; `data` of an entry is its
-- token or its socket. The table of all source IDs and the deferred frees are not modelled.
pub mod Order
mod Runs
use quic.Prelude.{
  ℕ, suc, ◌+◌, ◌-◌, ◌%◌, Bool, true, false, not, ◌&&◌, ltb, leb, ◌==◌, if◌then◌else◌, Option, none,
  some, List, [], ◌∷◌, length,
}
use quic.Prelude.Words.{u32_mod, add32, sub32}
use quic.Prelude.Result.{Errno, einval, enomem, Result, ok, err}

abbrev pub conn_id_max_len : ℕ
conn_id_max_len = 20

pub record CommonConnId : Type 0 where
  pub id : List ℕ
  pub number : ℕ
  pub hashed : Bool
  pub token : List ℕ

-- `active` and `alt` are the numbers of the entries pointed to; `source` is the entry size's meaning.
pub record ConnIdSet : Type 0 where
  pub active : Option ℕ
  pub alt : Option ℕ
  pub head : List CommonConnId
  pub source : Bool
  pub max_count : ℕ
  pub count : ℕ

-- The set is never empty where it is called; 0 stands for what the list head would give.
unfoldable pub first_number : ConnIdSet → ℕ
first_number s = elim s.head [ [] ↦ 0 | c ∷ cs ↦ c.number ]

unfoldable pub last_number : ConnIdSet → ℕ
unfolding first_number
last_number s = sub32 (add32 (first_number s) s.count) 1

-- Is there an entry with the number before the first larger one?
unfoldable pub exists_in : List CommonConnId → ℕ → Bool
exists_in [] number = false
exists_in (c ∷ cs) number =
    if number == c.number then true else if ltb number c.number then false else exists_in cs number

-- Before the first entry with a larger number, and last if there is none.
unfoldable pub insert_in : List CommonConnId → CommonConnId → List CommonConnId
insert_in [] c' = c' ∷ []
insert_in (c ∷ cs) c' = if ltb c'.number c.number then c' ∷ c ∷ cs else c ∷ insert_in cs c'

-- How many entries from the front continue the numbers behind `number`.
unfoldable pub consecutive : List CommonConnId → ℕ → ℕ
consecutive [] number = 0
consecutive (c ∷ cs) number =
    if c.number == add32 number 1 then suc (consecutive cs (add32 number 1)) else 0

-- The entries behind the one with the number.
unfoldable pub behind : List CommonConnId → ℕ → List CommonConnId
behind [] number = []
behind (c ∷ cs) number = if c.number == number then cs else behind cs number

-- The count over the new entry and those it connects to.
unfoldable pub count_new : ConnIdSet → ℕ → ConnIdSet
unfolding last_number consecutive behind
count_new s number =
    if number == add32 (last_number s) 1
    then record s {
      active = elim s.active [ none ↦ some number | some a ↦ some a ];
      count = (s.count + 1 + consecutive (behind s.head number) number) % 256;
    }
    else s

-- `extra` is the token of a destination ID, or the socket of a source ID.
unfoldable pub add : ConnIdSet → List ℕ → ℕ → List ℕ → Bool → Result ConnIdSet
unfolding exists_in insert_in count_new
add s id number extra mem =
    if exists_in s.head number
    then ok s
    else if ltb conn_id_max_len (length id)
    then err einval
    else if not mem
    then err enomem
    else let entry : CommonConnId = record {
      id = id;
      number = number;
      hashed = s.source;
      token = extra;
    } in
      ok (count_new (record s { head = insert_in s.head entry }) number)

-- The next entry's number; at the end of the list `tmp` is the list head, which no number names.
abbrev pub next_number : List CommonConnId → Option ℕ
next_number [] = none
next_number (c ∷ cs) = some c.number

abbrev pub points_to : Option ℕ → ℕ → Bool
points_to none number = false
points_to (some a) number = a == number

unfoldable pub remove_in : List CommonConnId → ConnIdSet → ℕ → ConnIdSet
remove_in [] s number = record s { head = [] }
remove_in (c ∷ cs) s number =
    let removed =
      remove_in cs
        (record s {
          active = if points_to s.active c.number then next_number cs else s.active;
          count = (s.count + 256 - 1) % 256;
        })
        number in
    if ltb number c.number then record s { head = c ∷ cs } else removed

unfoldable pub remove : ConnIdSet → ℕ → ConnIdSet
unfolding remove_in
remove s number = remove_in s.head s number

unfoldable pub find_in : List CommonConnId → ℕ → Option CommonConnId
find_in [] number = none
find_in (c ∷ cs) number =
    if ltb number c.number then none else if c.number == number then some c else find_in cs number

unfoldable pub find : ConnIdSet → ℕ → Option CommonConnId
unfolding find_in
find s number = find_in s.head number

unfoldable pub update_active : ConnIdSet → ℕ → ConnIdSet
unfolding find
update_active s number =
    if points_to s.active number
    then s
    else elim (find s number) [ none ↦ s | some c ↦ record s { active = some c.number } ]

-- An alternate ID for a new path; `used` tells that the peer keeps its own ID.
unfoldable pub select_alt : ConnIdSet → Bool → ConnIdSet × Bool
unfolding last_number first_number behind
select_alt s used = elim s.alt [
  | some a ↦ (s, true)
  | none ↦ if used then (record s { alt = s.active }, true) else elim s.active [
    | none ↦ (s, false)
    | some a ↦
        if not (a == last_number s)
        then (record s { alt = next_number (behind s.head a) }, true)
        else if a == first_number s
        then (record s { alt = some a }, true)
        else (s, false)
  ]
]

unfoldable pub swap_active : ConnIdSet → ConnIdSet
swap_active s = record s { active = s.alt; alt = s.active }
