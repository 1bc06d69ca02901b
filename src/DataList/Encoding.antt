-- ===== src/DataList/Encoding.antt =====
-- Length-prefixed lists as encodings of lists of elements; membership and overlap of two of them.
use quic.Prelude.{
  ℕ, zero, suc, ◌≤◌, ◌<◌, ◌≡◌, ◌↔◌, ◌⊎◌, true, List, [], ◌∷◌, ◌++◌, some, length, length-append,
  take-length-append, drop-length-append, arith,
}
use quic.Codec.{get_int, be_value}
use quic.DataList.{data_eq, next_item, data_has_loop, data_has, data_match_loop, data_match}

-- An element fits its length byte.
abbrev pub IsShort : List ℕ → Type 0
IsShort x = length x < 256

abbrev pub encode : List (List ℕ) → List ℕ
encode [] = []
encode (x ∷ xs) = length x ∷ (x ++ encode xs)

pub get_int-one : (n : ℕ) (rest : List ℕ) → get_int (n ∷ rest) 1 ≡ some (n, rest)
unfolding get_int be_value
get_int-one n rest = ground arith

-- The loops' head splits off the first element.
pub next_item-encode :
    (x : List ℕ) (xs : List (List ℕ)) → next_item (encode (x ∷ xs)) ≡ some (x, encode xs)
unfolding next_item
next_item-encode x xs = ground (
  arith,
  get_int-one (length x) (x ++ encode xs),
  length-append x (encode xs),
  take-length-append x (encode xs),
  drop-length-append x (encode xs),
)

pub data_eq_iff : (a b : List ℕ) → (data_eq a b ≡ true) ↔ (a ≡ b)
unfolding data_eq
data_eq_iff [] [] = ground arith
data_eq_iff [] (b ∷ bs) = ground arith
data_eq_iff (a ∷ as') [] = ground arith
data_eq_iff (a ∷ as') (b ∷ bs) = ground (arith, data_eq_iff as' bs)

-- `d` is an element of the list.
abbrev pub Has : List ℕ → List (List ℕ) → Type 0
Has d [] = ⊥
Has d (x ∷ xs) = (x ≡ d) ⊎ Has d xs

-- Some element of the first list is one of the second.
abbrev pub Shares : List (List ℕ) → List (List ℕ) → Type 0
Shares [] ys = ⊥
Shares (x ∷ xs) ys = Has x ys ⊎ Shares xs ys

pub shorter :
    (x : List ℕ) (xs : List (List ℕ)) (fuel : ℕ)
    → length (encode (x ∷ xs)) ≤ suc fuel
    → length (encode xs) ≤ fuel
shorter x xs fuel h = omega (arith, length-append x (encode xs))

data_has_loop-encode :
    (xs : List (List ℕ)) (d : List ℕ) (fuel : ℕ)
    → length (encode xs) ≤ fuel
    → (data_has_loop fuel (encode xs) d ≡ true) ↔ Has d xs
unfolding data_has_loop
data_has_loop-encode [] d fuel h = ground arith
data_has_loop-encode (x ∷ xs) d zero h = absurd (omega arith)
data_has_loop-encode (x ∷ xs) d (suc fuel) h =
    rw (next_item-encode x xs, data_has_loop)
      (ground (arith, data_eq_iff x d, data_has_loop-encode xs d fuel (shorter x xs fuel h)))

-- `quic_data_has` on a well-formed list finds exactly the elements of it.
pub data_has-encode : (xs : List (List ℕ)) (d : List ℕ) → (data_has (encode xs) d ≡ true) ↔ Has d xs
unfolding data_has
data_has-encode xs d = data_has_loop-encode xs d _ (omega arith)

data_match_loop-encode :
    (xs ys : List (List ℕ)) (fuel : ℕ)
    → length (encode xs) ≤ fuel
    → (data_match_loop fuel (encode xs) (encode ys) ≡ true) ↔ Shares xs ys
unfolding data_match_loop
data_match_loop-encode [] ys fuel h = ground arith
data_match_loop-encode (x ∷ xs) ys zero h = absurd (omega arith)
data_match_loop-encode (x ∷ xs) ys (suc fuel) h =
    rw (next_item-encode x xs, data_match_loop)
      (ground
        (arith, data_has-encode ys x, data_match_loop-encode xs ys fuel (shorter x xs fuel h)))

-- On two well-formed lists `quic_data_match` answers whether they have an element in common.
pub data_match-encode :
    (xs ys : List (List ℕ)) → (data_match (encode xs) (encode ys) ≡ true) ↔ Shares xs ys
unfolding data_match
data_match-encode xs ys = data_match_loop-encode xs ys _ (omega arith)
