-- ===== src/Codec.antt =====
-- The integer codecs of modules/net/quic/common.c. A buffer is the list of its bytes: a pair
-- (`*pp`, `*plen`) is the list of the bytes that are left, and a writer returns the bytes that it
-- stores from `p` on. The unaligned big-endian accessors of the kernel are `be_value` and `be_bytes`.
pub mod BigEndian
pub mod Varint
pub mod Params
pub mod PacketNumber
mod Runs
use Prim.Native.Nat.{bit_and, bit_or}
use quic.Prelude.{
  ℕ, zero, suc, ◌+◌, ◌-◌, ◌*◌, ◌/◌, ◌%◌, ◌^◌, ◌<◌, ◌≤◌, Bool, ◌&&◌, ◌||◌, List, [], ◌∷◌, ◌++◌,
  Option, none, some, length, take, drop, ltb, leb, ◌==◌, if◌then◌else◌,
}

abbrev pub IsByte : ℕ → Type 0
IsByte b = b < 256

abbrev pub varint_1byte_max : ℕ
varint_1byte_max = 0x3f

abbrev pub varint_2byte_max : ℕ
varint_2byte_max = 0x3fff

abbrev pub varint_4byte_max : ℕ
varint_4byte_max = 0x3fff_ffff

abbrev pub varint_8byte_max : ℕ
varint_8byte_max = 0x3fff_ffff_ffff_ffff

-- `QUIC_PN_BITS`
abbrev pub pn_bits : ℕ
pn_bits = 62

-- get_unaligned_be: the bytes most significant first, behind what is already read.
unfoldable pub be_value : ℕ → List ℕ → ℕ
be_value acc [] = acc
be_value acc (b ∷ bs) = be_value (acc * 256 + b) bs

-- put_unaligned_be of a `w`-byte number.
unfoldable pub be_bytes : ℕ → ℕ → List ℕ
be_bytes zero n = []
be_bytes (suc w) n = (n / 256 ^ w % 256) ∷ be_bytes w n

-- `*p |= prefix`
abbrev pub or_first : List ℕ → ℕ → List ℕ
or_first [] prefix = []
or_first (b ∷ bs) prefix = bit_or b prefix ∷ bs

unfoldable pub var_len : ℕ → ℕ
var_len n =
    if leb n varint_1byte_max
    then 1
    else if leb n varint_2byte_max
    then 2
    else if leb n varint_4byte_max
    then 4
    else 8

-- `QUIC_VARINT_LENGTH(p)`: the two top bits of the first byte.
abbrev pub varint_length : ℕ → ℕ
varint_length b = 2 ^ (b / 64)

-- The `switch (len)` of `quic_get_var`: length, value and the bytes behind.
unfoldable pub get_var_switch : ℕ → List ℕ → Option (ℕ × ℕ × List ℕ)
get_var_switch len p =
    if len == 1
    then some (len, be_value 0 (take 1 p), drop len p)
    else if len == 2
    then some (len, bit_and (be_value 0 (take 2 p)) varint_2byte_max, drop len p)
    else if len == 4
    then some (len, bit_and (be_value 0 (take 4 p)) varint_4byte_max, drop len p)
    else if len == 8
    then some (len, bit_and (be_value 0 (take 8 p)) varint_8byte_max, drop len p)
    else none

-- `none` is the return value 0, with the buffer left as it was.
unfoldable pub get_var : List ℕ → Option (ℕ × ℕ × List ℕ)
unfolding get_var_switch
get_var [] = none
get_var (b ∷ bs) =
    if ltb (length (b ∷ bs)) (varint_length b)
    then none
    else get_var_switch (varint_length b) (b ∷ bs)

-- `none` is the return value 0; otherwise `len` bytes are taken.
unfoldable pub get_int : List ℕ → ℕ → Option (ℕ × List ℕ)
get_int p len =
    if ltb (length p) len
    then none
    else if len == 1 || len == 2 || len == 3 || len == 4 || len == 8
    then some (be_value 0 (take len p), drop len p)
    else none

-- The return value, the bytes copied to `data`, and the rest.
unfoldable pub get_data : List ℕ → ℕ → ℕ × List ℕ × List ℕ
get_data p len = if ltb (length p) len then (0, [], p) else (len, take len p, drop len p)

unfoldable pub put_var : ℕ → List ℕ
put_var num =
    if leb num varint_1byte_max
    then (num % 2 ^ 8) ∷ []
    else if leb num varint_2byte_max
    then or_first (be_bytes 2 (num % 2 ^ 16)) 0x40
    else if leb num varint_4byte_max
    then or_first (be_bytes 4 (num % 2 ^ 32)) 0x80
    else or_first (be_bytes 8 num) 0xc0

-- `none` is the NULL of an unsupported length.
unfoldable pub put_int : ℕ → ℕ → Option (List ℕ)
put_int num len =
    if len == 1
    then some ((num % 2 ^ 8) ∷ [])
    else if len == 2
    then some (be_bytes 2 (num % 2 ^ 16))
    else if len == 4
    then some (be_bytes 4 (num % 2 ^ 32))
    else if len == 8
    then some (be_bytes 8 num)
    else none

unfoldable pub put_varint : ℕ → ℕ → Option (List ℕ)
put_varint num len =
    if len == 1
    then some ((num % 2 ^ 8) ∷ [])
    else if len == 2
    then some (or_first (be_bytes 2 (num % 2 ^ 16)) 0x40)
    else if len == 4
    then some (or_first (be_bytes 4 (num % 2 ^ 32)) 0x80)
    else none

unfoldable pub put_param : ℕ → ℕ → List ℕ
put_param id value = put_var id ++ (put_var (var_len value) ++ put_var value)

-- What `quic_get_param` leaves: its return value, `*pdest` if it was written, and the buffer, which
-- has moved on also where the function fails behind a successful read.
pub record ParamRead : Type 0 where
  pub ret : ℕ
  pub dest : Option ℕ
  pub rest : List ℕ

unfoldable pub get_param_value : ℕ → List ℕ → ParamRead
get_param_value valuelen p =
    if ltb (length p) valuelen
    then record { ret = 0; dest = none; rest = p }
    else elim (get_var p) [
      | none ↦ record { ret = 0; dest = none; rest = p }
      | some (len, value, rest) ↦
          if len == valuelen
          then record { ret = valuelen % 2 ^ 8; dest = some value; rest = rest }
          else record { ret = 0; dest = some value; rest = rest }
    ]

unfoldable pub get_param : List ℕ → ParamRead
unfolding get_param_value
get_param p = elim (get_var p) [
  | none ↦ record { ret = 0; dest = none; rest = p }
  | some (_, valuelen, rest) ↦ get_param_value valuelen rest
]

-- The signed comparisons are written with the subtrahend moved to the other side, so that nothing
-- stops at 0. `expected & ~mask` clears the low `8 * n` bits.
unfoldable pub get_num : ℕ → ℕ → ℕ → ℕ
get_num max_pkt_num pkt_num n =
    let expected = max_pkt_num + 1 in
    let win = 2 ^ (n * 8) in
    let hwin = win / 2 in
    let cand = bit_or (expected / win * win) pkt_num in
    if leb (cand + hwin) expected && ltb (cand + win) (2 ^ pn_bits)
    then cand + win
    else if ltb (expected + hwin) cand && leb win cand
    then cand - win
    else cand
