-- ===== src/DataList/Text.antt =====
-- The comma-separated text of a length-prefixed list, there and back.
use quic.Prelude.{
  ℕ, zero, suc, ◌+◌, ◌-◌, ◌≤◌, ◌<◌, ◌≡◌, ◌≢◌, refl, ◌∙◌, List, [], ◌∷◌, ◌++◌, some, length,
  length-append, All, arith,
}
use quic.Prelude.Result.{ok, ◌>>=◌}
use quic.DataList.{
  comma, space, to_string_loop, data_to_string, skip_spaces, take_token, next_token, token,
  from_string_loop, data_from_string,
}
use quic.DataList.Encoding.{encode, next_item-encode, shorter}

-- The elements with a comma between each two.
abbrev pub join : List (List ℕ) → List ℕ
join [] = []
join (x ∷ []) = x
join (x ∷ y ∷ ys) = x ++ (comma ∷ join (y ∷ ys))

to_string_loop-encode :
    (xs : List (List ℕ)) (fuel room : ℕ)
    → length (encode xs) ≤ fuel
    → length (join xs) ≤ room
    → to_string_loop fuel (encode xs) room ≡ ok (join xs)
unfolding to_string_loop
to_string_loop-encode [] fuel room h k = refl
to_string_loop-encode (x ∷ xs) zero room h k = absurd (omega arith)
to_string_loop-encode (x ∷ []) (suc fuel) room h k =
    rw (next_item-encode x [], to_string_loop) (ground arith)
to_string_loop-encode (x ∷ y ∷ ys) (suc fuel) room h k =
    rw (next_item-encode x (y ∷ ys), to_string_loop)
      (ground (
        arith,
        length-append x (comma ∷ join (y ∷ ys)),
        to_string_loop-encode (y ∷ ys) fuel (room - length x - 1) (shorter x (y ∷ ys) fuel h),
      ))

-- A well-formed list is written as its elements with commas between them, if the text fits.
pub data_to_string-encode :
    (xs : List (List ℕ)) (plen : ℕ)
    → length (join xs) ≤ plen
    → data_to_string plen (encode xs) ≡ ok (join xs)
unfolding data_to_string
data_to_string-encode xs plen h = to_string_loop-encode xs _ plen (omega arith) h

abbrev pub NoComma : List ℕ → Type 0
NoComma = All (λ c. c ≢ comma)

-- An element that the text form can carry: not empty, at most 255 bytes, without a comma, and not
-- led by a space.
abbrev pub IsToken : List ℕ → Type 0
IsToken [] = ⊥
IsToken (c ∷ cs) = (c ≢ space) × NoComma (c ∷ cs) × (length (c ∷ cs) ≤ 255)

take_token-comma :
    (x rest : List ℕ) (room : ℕ)
    → NoComma x
    → length x ≤ room
    → take_token (x ++ (comma ∷ rest)) room ≡ some (x, rest, room - length x)
unfolding take_token
take_token-comma [] rest room n h = ground arith
take_token-comma (c ∷ cs) rest room n h = ground (arith, take_token-comma cs rest (room - 1) n.1)

take_token-end :
    (x : List ℕ) (room : ℕ)
    → NoComma x
    → length x ≤ room
    → take_token x room ≡ some (x, [], room - length x)
unfolding take_token
take_token-end [] room n h = ground arith
take_token-end (c ∷ cs) room n h = ground (arith, take_token-end cs (room - 1) n.1)

skip_spaces_no : (c : ℕ) (cs : List ℕ) → c ≢ space → skip_spaces (c ∷ cs) ≡ c ∷ cs
unfolding skip_spaces
skip_spaces_no c cs h = ground arith

-- One round on a text that begins with a token.
next_token-comma :
    (x rest : List ℕ) (room : ℕ)
    → IsToken x
    → length x < room
    → next_token (skip_spaces (x ++ (comma ∷ rest))) room ≡ token x rest (room - 1 - length x)
unfolding next_token
next_token-comma [] rest room t h = absurd t
next_token-comma (c ∷ cs) rest room t h = ground (
  arith,
  skip_spaces_no c (cs ++ (comma ∷ rest)) t.0,
  take_token-comma (c ∷ cs) rest (room - 1) t.1,
)

next_token-end :
    (x : List ℕ) (room : ℕ)
    → IsToken x
    → length x < room
    → next_token (skip_spaces x) room ≡ token x [] (room - 1 - length x)
unfolding next_token
next_token-end [] room t h = absurd t
next_token-end (c ∷ cs) room t h =
    ground (arith, skip_spaces_no c cs t.0, take_token-end (c ∷ cs) (room - 1) t.1)

-- The outer loop makes a round on every text that is not empty.
from_string_loop_step :
    (fuel : ℕ) (c : ℕ) (cs t rest : List ℕ) (room room' : ℕ)
    → next_token (skip_spaces (c ∷ cs)) room ≡ token t rest room'
    → from_string_loop (suc fuel) (c ∷ cs) room
      ≡ (from_string_loop fuel rest room' >>= λ out. ok ((length t ∷ t) ++ out))
unfolding from_string_loop
from_string_loop_step fuel c cs t rest room room' e = rw (e, from_string_loop)

from_string_loop-join :
    (xs : List (List ℕ)) (fuel room : ℕ)
    → All IsToken xs
    → length (join xs) ≤ fuel
    → length (encode xs) ≤ room
    → from_string_loop fuel (join xs) room ≡ ok (encode xs)
from_string_loop-join [] fuel room ts h k = unfold from_string_loop in refl
from_string_loop-join ([] ∷ xs) fuel room ts h k = absurd ts.0
from_string_loop-join ((c ∷ cs) ∷ []) zero room ts h k = absurd (omega arith)
from_string_loop-join ((c ∷ cs) ∷ []) (suc fuel) room ts h k =
    from_string_loop_step fuel c cs (c ∷ cs) [] room (room - 1 - length (c ∷ cs))
      (next_token-end (c ∷ cs) room ts.0 (omega (arith, length-append cs [])))
    ∙ unfold from_string_loop in refl
from_string_loop-join ((c ∷ cs) ∷ y ∷ ys) zero room ts h k = absurd (omega arith)
from_string_loop-join ((c ∷ cs) ∷ y ∷ ys) (suc fuel) room ts h k =
    from_string_loop_step fuel c (cs ++ (comma ∷ join (y ∷ ys))) (c ∷ cs) (join (y ∷ ys)) room
      (room - 1 - length (c ∷ cs)) (next_token-comma (c ∷ cs) _ room ts.0 (omega (arith, sizes)))
    ∙ rw (
        from_string_loop-join (y ∷ ys) fuel (room - 1 - length (c ∷ cs)) ts.1
          (omega (arith, length-append cs (comma ∷ join (y ∷ ys)))) (omega (arith, sizes)))
  where
    sizes : length (cs ++ encode (y ∷ ys)) ≡ length cs + length (encode (y ∷ ys))
    sizes = length-append cs (encode (y ∷ ys))

-- A text that joins tokens by commas is parsed into their length-prefixed list, if it fits.
pub data_from_string-join :
    (xs : List (List ℕ)) (to_len : ℕ)
    → All IsToken xs
    → length (encode xs) ≤ to_len
    → data_from_string to_len (join xs) ≡ ok (encode xs)
unfolding data_from_string
data_from_string-join xs to_len ts h = from_string_loop-join xs _ to_len ts (omega arith) h

-- The text that `quic_data_to_string` makes of a list of tokens is parsed back into the same list.
pub data_from_string-data_to_string :
    (xs : List (List ℕ)) (plen to_len : ℕ)
    → All IsToken xs
    → length (join xs) ≤ plen
    → length (encode xs) ≤ to_len
    → (data_to_string plen (encode xs) >>= data_from_string to_len) ≡ ok (encode xs)
data_from_string-data_to_string xs plen to_len ts h k =
    rw (data_to_string-encode xs plen h) (data_from_string-join xs to_len ts k)
