-- ===== src/DataList.antt =====
-- The length-prefixed lists of modules/net/quic/common.c (`quic_data_has` to
-- `quic_data_from_string`), which hold the ALPN protocols. A `struct quic_data` is the list of its
-- `len` bytes. Each round of a loop takes a byte at least, so the loops have the length for fuel.
pub mod Encoding
pub mod Text
mod Runs
use quic.Prelude.{
  ℕ, zero, suc, ◌+◌, ◌-◌, Bool, true, false, ◌&&◌, List, [], ◌∷◌, ◌++◌, Option, none, some, length,
  take, drop, ltb, ◌==◌, if◌then◌else◌,
}
use quic.Prelude.Result.{Errno, einval, eoverflow, Result, ok, err, ◌>>=◌}
use quic.Codec.{get_int}

-- `memcmp` of two buffers of one length, and the test of the lengths before it.
unfoldable pub data_eq : List ℕ → List ℕ → Bool
data_eq [] [] = true
data_eq [] (b ∷ bs) = false
data_eq (a ∷ as') [] = false
data_eq (a ∷ as') (b ∷ bs) = a == b && data_eq as' bs

-- The head of every loop: the element at `p` and what stands behind it, if the list is well formed.
unfoldable pub next_item : List ℕ → Option (List ℕ × List ℕ)
next_item p = elim (get_int p 1) [
  | none ↦ none
  | some (n, rest) ↦ if ltb (length rest) n then none else some (take n rest, drop n rest)
]

unfoldable pub data_has_loop : ℕ → List ℕ → List ℕ → Bool
data_has_loop fuel [] d2 = false
data_has_loop zero (b ∷ bs) d2 = false
data_has_loop (suc fuel) (b ∷ bs) d2 = elim (next_item (b ∷ bs)) [
  | none ↦ false
  | some (d, rest) ↦ let more = data_has_loop fuel rest d2 in if data_eq d d2 then true else more
]

unfoldable pub data_has : List ℕ → List ℕ → Bool
data_has d1 d2 = data_has_loop (length d1) d1 d2

unfoldable pub data_match_loop : ℕ → List ℕ → List ℕ → Bool
data_match_loop fuel [] d2 = false
data_match_loop zero (b ∷ bs) d2 = false
data_match_loop (suc fuel) (b ∷ bs) d2 = elim (next_item (b ∷ bs)) [
  | none ↦ false
  | some (d, rest) ↦ let more = data_match_loop fuel rest d2 in if data_has d2 d then true else more
]

unfoldable pub data_match : List ℕ → List ℕ → Bool
data_match d1 d2 = data_match_loop (length d1) d1 d2

abbrev pub comma : ℕ
comma = b','

abbrev pub space : ℕ
space = b' '

-- `remlen` bytes are left in the output; the result is what the loop writes from here on.
unfoldable pub to_string_loop : ℕ → List ℕ → ℕ → Result (List ℕ)
to_string_loop fuel [] remlen = ok []
to_string_loop zero (b ∷ bs) remlen = err einval
to_string_loop (suc fuel) (b ∷ bs) remlen = elim (next_item (b ∷ bs)) [
  | none ↦ err einval
  | some (d, []) ↦ if ltb remlen (length d) then err eoverflow else ok d
  | some (d, c ∷ cs) ↦
      let more = to_string_loop fuel (c ∷ cs) (remlen - length d - 1) in
      if ltb remlen (length d)
      then err eoverflow
      else if remlen - length d == 0
      then err eoverflow
      else more >>= λ text. ok (d ++ (comma ∷ text))
]

unfoldable pub data_to_string : ℕ → List ℕ → Result (List ℕ)
data_to_string plen from = to_string_loop (length from) from plen

unfoldable pub skip_spaces : List ℕ → List ℕ
skip_spaces [] = []
skip_spaces (c ∷ cs) = let rest = skip_spaces cs in if c == space then rest else c ∷ cs

-- The inner loop: the token, the text behind its comma, and the room that is left.
unfoldable pub take_token : List ℕ → ℕ → Option (List ℕ × List ℕ × ℕ)
take_token [] remlen = some ([], [], remlen)
take_token (c ∷ cs) remlen =
    let more = take_token cs (remlen - 1) in
    if c == comma
    then some ([], cs, remlen)
    else if remlen == 0
    then none
    else elim more [ none ↦ none | some (t, rest, room) ↦ some (c ∷ t, rest, room) ]

-- What one round of the outer loop makes of the text behind the spaces.
pub data Token : Type 0 where
  stop : Token
  fail : Errno → Token
  token : List ℕ → List ℕ → ℕ → Token

unfoldable pub next_token : List ℕ → ℕ → Token
next_token [] remlen = stop
next_token (c ∷ cs) remlen =
    if remlen == 0 then fail eoverflow else elim (take_token (c ∷ cs) (remlen - 1)) [
      | none ↦ fail eoverflow
      | some (t, rest, room) ↦ if ltb 255 (length t) then fail einval else token t rest room
    ]

unfoldable pub from_string_loop : ℕ → List ℕ → ℕ → Result (List ℕ)
from_string_loop fuel [] remlen = ok []
from_string_loop zero (c ∷ cs) remlen = err einval
from_string_loop (suc fuel) (c ∷ cs) remlen = elim (next_token (skip_spaces (c ∷ cs)) remlen) [
  | stop ↦ ok []
  | fail e ↦ err e
  | token t rest room ↦ from_string_loop fuel rest room >>= λ out. ok ((length t ∷ t) ++ out)
]

-- `to_len` is the capacity that `to->len` holds on entry.
unfoldable pub data_from_string : ℕ → List ℕ → Result (List ℕ)
data_from_string to_len from = from_string_loop (length from) from to_len
