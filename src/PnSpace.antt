-- ===== src/PnSpace.antt =====
-- modules/net/quic/pnspace.c and pnspace.h: one packet number space. The bitmap `pn_map` of
-- `pn_map_len` bits is a list of that many Booleans. `base_pn` is `none` for the -1 that
-- `quic_pnspace_init` stores; all other packet numbers are never negative, and are natural numbers.
-- Whether an allocation succeeds, and the time, are arguments.
pub mod Bitmap
pub mod Invariant
pub mod Growth
pub mod Window
pub mod MarkStep
pub mod Marking
pub mod Check
pub mod Gaps
pub mod Reports
pub mod Chain
pub mod History
pub mod Ecn
mod Runs
use quic.Prelude.{
  ℕ, zero, suc, ◌+◌, ◌-◌, ◌*◌, ◌/◌, ◌%◌, Bool, true, false, not, ◌&&◌, ◌||◌, List, [], ◌∷◌, ◌++◌,
  Option, none, some, length, get_or, set, take, drop, replicate, ltb, leb, ◌==◌, if◌then◌else◌,
  min, max,
}
use quic.Prelude.Words.{u16_mod, u64_mod, add64}
use quic.Prelude.Result.{Errno, einval, enomem, Result, ok, err}

abbrev pub pn_map_max_gabs : ℕ
pn_map_max_gabs = 32

abbrev pub pn_map_initial : ℕ
pn_map_initial = 64

abbrev pub pn_map_increment : ℕ
pn_map_increment = pn_map_initial

abbrev pub pn_map_size : ℕ
pn_map_size = 4096

abbrev pub pn_map_limit : ℕ
pn_map_limit = pn_map_size * 3 / 4

abbrev pub pnspace_next_pn : ℕ
pnspace_next_pn = 0

abbrev pub pnspace_time_limit : ℕ
pnspace_time_limit = 333000 * 3

-- The kernel's operations on a bitmap.
unfoldable pub test_bit : List Bool → ℕ → Bool
test_bit m i = get_or m i false

-- `find_next_bit` (`want` is true) and `find_next_zero_bit` (false): the size if there is none.
unfoldable pub find_next : Bool → List Bool → ℕ → ℕ
find_next want [] offset = 0
find_next want (b ∷ bs) zero =
    let rest = find_next want bs 0 in if (if want then b else not b) then 0 else suc rest
find_next want (b ∷ bs) (suc offset) = suc (find_next want bs offset)

unfoldable pub shift_right : List Bool → ℕ → List Bool
shift_right m n = drop n m ++ replicate (min n (length m)) false

-- `(u16)(a - b)` of two s64.
unfoldable pub u16_diff : ℕ → ℕ → ℕ
u16_diff a b = if leb b a then (a - b) % u16_mod else (u16_mod - (b - a) % u16_mod) % u16_mod

pub record EcnCount : Type 0 where
  pub ect1 : ℕ
  pub ect0 : ℕ
  pub ce : ℕ

pub record PnSpace : Type 0 where
  pub ecn_local : EcnCount
  pub ecn_peer : EcnCount
  pub pn_map : List Bool
  pub need_sack : ℕ
  pub sack_path : ℕ
  pub last_max_pn_seen : ℕ
  pub last_max_pn_time : ℕ
  pub min_pn_seen : ℕ
  pub max_pn_seen : ℕ
  pub max_pn_time : ℕ
  pub base_pn : Option ℕ
  pub time : ℕ
  pub max_pn_acked_seen : ℕ
  pub max_pn_acked_time : ℕ
  pub last_sent_time : ℕ
  pub loss_time : ℕ
  pub next_pn : ℕ
  pub max_time_limit : ℕ
  pub inflight : ℕ

unfoldable pub reset_map : PnSpace → List Bool → PnSpace
reset_map s m = record s {
  pn_map = m;
  max_time_limit = pnspace_time_limit;
  next_pn = pnspace_next_pn;
  base_pn = none;
}

-- A map of no bits stands for the null pointer of a zeroed space.
unfoldable pub pnspace_init : Bool → PnSpace → Result PnSpace
unfolding reset_map
pnspace_init alloc s = elim s.pn_map [
  | [] ↦ if alloc then ok (reset_map s (replicate pn_map_initial false)) else err enomem
  | b ∷ bs ↦ ok (reset_map s (replicate (length (b ∷ bs)) false))
]

-- Called with the successor of a packet number, so that `pn - 1` does not stop at 0.
unfoldable pub set_base_pn : PnSpace → ℕ → PnSpace
set_base_pn s pn = record s {
  base_pn = some pn;
  max_pn_seen = pn - 1;
  last_max_pn_seen = pn - 1;
  min_pn_seen = pn - 1;
  max_pn_time = s.time;
  last_max_pn_time = s.time;
}

-- `base_pn != max_pn_seen + 1`; -1 is never a successor.
unfoldable pub has_gap : PnSpace → Bool
has_gap s = elim s.base_pn [ none ↦ true | some base ↦ not (base == s.max_pn_seen + 1) ]

-- The `inc` of `quic_pnspace_grow`, as a u16: the int `size - pn_map_len` rounded up to a multiple
-- of 64, also where it is negative, and one increment.
unfoldable pub grow_inc : ℕ → ℕ → ℕ
grow_inc size map_len =
    if leb map_len size
    then ((size - map_len + 63) / 64 * 64 + pn_map_increment) % u16_mod
    else (u16_mod + pn_map_increment - (map_len - size) / 64 * 64) % u16_mod

unfoldable pub grow_len : ℕ → ℕ → ℕ
unfolding grow_inc
grow_len size map_len = min (map_len + grow_inc size map_len) pn_map_size

unfoldable pub pnspace_grow : Bool → PnSpace → ℕ → ℕ → Result PnSpace
pnspace_grow alloc s base size =
    if ltb pn_map_size size
    then err einval
    else if not alloc
    then err enomem
    else let len = grow_len size (length s.pn_map) in
      let offset = u16_diff (s.max_pn_seen + 1) base in
      ok (record s { pn_map = take len (take offset s.pn_map ++ replicate len false) })

pub data Checked : Type 0 where
  fresh received out_of_range : Checked

-- 0 is `fresh`, 1 is `received`, -EINVAL is `out_of_range`.
unfoldable pub pnspace_check : PnSpace → ℕ → Checked
pnspace_check s pn = elim s.base_pn [
  | none ↦ fresh
  | some base ↦
      if ltb pn s.min_pn_seen || leb (base + pn_map_size) pn
      then out_of_range
      else if ltb pn base || (ltb (pn - base) (length s.pn_map) && test_bit s.pn_map (pn - base))
      then received
      else fresh
]

-- Called with `base_pn` set, which is handed over.
unfoldable pub pnspace_move : PnSpace → ℕ → ℕ → PnSpace
pnspace_move s base pn =
    let offset = find_next false s.pn_map (u16_diff (pn + 1) base) in
    record s {
      base_pn = some (base + offset % u16_mod);
      pn_map = shift_right s.pn_map (offset % u16_mod);
    }

-- `overrun` is no return value: `set_bit` would write outside the map.
pub data Marked : Type 0 where
  done : PnSpace → Marked
  failed : Errno → Marked
  overrun : Marked

-- Has the time or the number of packets come to move the window on?
unfoldable pub window_due : PnSpace → ℕ → Bool
window_due s base =
    let last = min s.last_max_pn_seen base in
    not (
      ltb s.max_pn_time (add64 s.last_max_pn_time s.max_time_limit)
      && leb s.max_pn_seen (last + pn_map_limit))

-- The end of `quic_pnspace_mark`, behind the bitmap's update.
unfoldable pub mark_window : PnSpace → ℕ → ℕ → PnSpace
mark_window s base pn =
    if not (s.max_pn_seen == pn)
    then s
    else if not (window_due s base)
    then s
    else let moved =
        if ltb base (s.last_max_pn_seen + 1) then pnspace_move s base s.last_max_pn_seen else s in
      record moved {
        min_pn_seen = s.last_max_pn_seen;
        last_max_pn_seen = s.max_pn_seen;
        last_max_pn_time = s.max_pn_time;
      }

unfoldable pub note_max : PnSpace → ℕ → PnSpace
note_max s pn =
    if ltb s.max_pn_seen pn then record s { max_pn_seen = pn; max_pn_time = s.time } else s

unfoldable pub advance_base : PnSpace → ℕ → PnSpace
advance_base s pn = if has_gap s then pnspace_move s pn pn else record s { base_pn = some (pn + 1) }

unfoldable pub mark_rest : PnSpace → ℕ → Marked
mark_rest s pn = elim s.base_pn [ none ↦ done s | some base ↦ done (mark_window s base pn) ]

-- The part of `quic_pnspace_mark` behind the growth of the map.
unfoldable pub mark_bit : PnSpace → ℕ → ℕ → ℕ → Marked
mark_bit s base pn gap =
    let noted = note_max s pn in
    if base == pn
    then mark_rest (advance_base noted pn) pn
    else if ltb gap (length s.pn_map)
    then mark_rest (record noted { pn_map = set noted.pn_map gap true }) pn
    else overrun

-- The map is grown first where the number lies behind its end.
unfoldable pub mark_gap : Bool → PnSpace → ℕ → ℕ → ℕ → Marked
mark_gap alloc s base pn gap =
    if leb (length s.pn_map) gap
    then elim (pnspace_grow alloc s base ((gap + 1) % u16_mod)) [
      | err e ↦ failed e
      | ok grown ↦ mark_bit grown base pn gap
    ]
    else mark_bit s base pn gap

unfoldable pub mark_from : Bool → PnSpace → ℕ → ℕ → Marked
mark_from alloc s base pn =
    if ltb pn base then done s else mark_gap alloc s base pn (u16_diff pn base)

unfoldable pub pnspace_mark : Bool → PnSpace → ℕ → Marked
pnspace_mark alloc s pn = elim s.base_pn [
  | none ↦ done (set_base_pn s (pn + 1))
  | some base ↦ mark_from alloc s base pn
]

-- A gap block: offsets from `base_pn`, each plus one.
pub record GapBlock : Type 0 where
  pub start : ℕ
  pub end : ℕ

-- `max_pn_seen - base_pn`; where that is negative both tests below fail as they do at 0.
unfoldable pub span : PnSpace → ℕ
span s = elim s.base_pn [ none ↦ s.max_pn_seen + 1 | some base ↦ s.max_pn_seen - base ]

-- The iterator is kept as its offset from `base_pn`.
unfoldable pub next_gap_ack : PnSpace → ℕ → Option GapBlock
next_gap_ack s iter =
    let first = find_next false s.pn_map (iter % u16_mod) in
    let last = find_next true s.pn_map first in
    if leb (span s) first
    then none
    else if leb (span s + 1) last
    then none
    else some (record { start = first + 1; end = last })

-- `ngaps` blocks are written already; the last block that fits takes all that follows.
unfoldable pub num_gabs_loop : ℕ → PnSpace → ℕ → ℕ → List GapBlock
num_gabs_loop zero s iter ngaps = []
num_gabs_loop (suc fuel) s iter ngaps = elim (next_gap_ack s iter) [
  | none ↦ []
  | some g ↦
      let rest = num_gabs_loop fuel s g.end (ngaps + 1) in
      if ngaps == pn_map_max_gabs - 1 then record g { end = span s % u16_mod } ∷ [] else g ∷ rest
]

-- At most `pn_map_max_gabs` rounds are made.
unfoldable pub num_gabs : PnSpace → List GapBlock
num_gabs s = if not (has_gap s) then [] else num_gabs_loop pn_map_max_gabs s 0 0

unfoldable pub set_max_pn_acked_seen : PnSpace → ℕ → ℕ → PnSpace
set_max_pn_acked_seen s now max_pn_acked_seen =
    if leb max_pn_acked_seen s.max_pn_acked_seen
    then s
    else record s { max_pn_acked_seen = max_pn_acked_seen; max_pn_acked_time = now }

-- The counter of codepoint `ecn - 1`: ECT(1), ECT(0), CE; the counters are u64.
unfoldable pub bump_ecn : ℕ → EcnCount → EcnCount
bump_ecn zero c = record c { ect1 = add64 c.ect1 1 }
bump_ecn (suc zero) c = record c { ect0 = add64 c.ect0 1 }
bump_ecn (suc (suc n)) c = record c { ce = add64 c.ce 1 }

unfoldable pub inc_ecn_count : PnSpace → ℕ → PnSpace
unfolding bump_ecn
inc_ecn_count s ecn =
    if ecn == 0 then s else record s { ecn_local = bump_ecn (ecn - 1) s.ecn_local }

unfoldable pub has_ecn_count : PnSpace → Bool
has_ecn_count s =
    not (s.ecn_local.ect0 == 0) || not (s.ecn_local.ect1 == 0) || not (s.ecn_local.ce == 0)

unfoldable pub raise_to : ℕ → ℕ → ℕ
raise_to old new = if ltb old new then new else old

unfoldable pub set_ecn_count : PnSpace → EcnCount → PnSpace × Bool
unfolding raise_to
set_ecn_count s c =
    let peer = s.ecn_peer in
    let ect0 = raise_to peer.ect0 c.ect0 in
    let ect1 = raise_to peer.ect1 c.ect1 in
    if ltb peer.ce c.ce
    then (record s { ecn_peer = record { ect1 = ect1; ect0 = ect0; ce = c.ce } }, true)
    else (record s { ecn_peer = record { ect1 = ect1; ect0 = ect0; ce = peer.ce } }, false)
