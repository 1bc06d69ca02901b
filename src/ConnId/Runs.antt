-- ===== src/ConnId/Runs.antt =====
-- Runs of a set of connection IDs, and the theorems applied to it.
use quic.Prelude.{ℕ, ◌≡◌, ◌≢◌, true, false, none, some, [], ◌∷◌, arith}
use quic.Prelude.Result.{ok}
use quic.ConnId.{CommonConnId, ConnIdSet, add, find, remove, exists_in}
use quic.ConnId.Order.{Ascends, find-add, Remains, remove-Remains}

abbrev id0 : CommonConnId
id0 = record { id = 1 ∷ 2 ∷ []; number = 0; hashed = false; token = [] }

abbrev id2 : CommonConnId
id2 = record { id = 5 ∷ 6 ∷ []; number = 2; hashed = false; token = [] }

-- The peer's ID of number 1 has not arrived.
abbrev ids : ConnIdSet
ids = record {
  active = some 0;
  alt = none;
  head = id0 ∷ id2 ∷ [];
  source = false;
  max_count = 7;
  count = 1;
}

ids_ascend : Ascends ids.head
unfolding Ascends
ids_ascend = ((omega arith, tt), (tt, tt))

find-add_example :
    (s' : ConnIdSet) × (add ids (3 ∷ 4 ∷ []) 1 [] true ≡ ok s')
    × Ascends s'.head
    × ((n : ℕ) → n ≢ 1 → find s' n ≡ find ids n)
    × (exists_in ids.head 1 ≡ true → s' ≡ ids)
    × (exists_in ids.head 1 ≡ false
        → find s' 1 ≡ some (record { id = 3 ∷ 4 ∷ []; number = 1; hashed = false; token = [] }))
find-add_example = find-add ids (3 ∷ 4 ∷ []) 1 [] ids_ascend (omega arith)

remove-Remains_example : Remains ids.head 0 (remove ids 0)
remove-Remains_example = remove-Remains ids 0 ids_ascend
