-- ===== src/PathMtu.antt =====
-- modules/net/quic/path.c, from `enum quic_plpmtud_state` on: the discovery of the path's MTU by
-- probes. `Pl` is the `pl` of `struct quic_path_group`; `number` is 0 where no probe is out.
pub mod Invariant
pub mod Moves
pub mod Search
mod Runs
use quic.Prelude.{
  ◌%◌, ℕ, ◌+◌, ◌≤◌, ◌<◌, Bool, true, false, not, ◌&&◌, ◌||◌, ltb, leb, ◌==◌, if◌then◌else◌, min,
}
use quic.Prelude.Words.{u16_mod}

abbrev pub base_plpmtu : ℕ
base_plpmtu = 1200

abbrev pub max_plpmtu : ℕ
max_plpmtu = 9000

abbrev pub min_plpmtu : ℕ
min_plpmtu = 512

abbrev pub max_probes : ℕ
max_probes = 3

abbrev pub pl_big_step : ℕ
pl_big_step = 32

abbrev pub pl_min_step : ℕ
pl_min_step = 4

pub data PlState : Type 0 where
  disabled base searching complete error : PlState

pub record Pl : Type 0 where
  pub number : ℕ
  pub pmtu : ℕ
  pub probe_size : ℕ
  pub probe_high : ℕ
  pub probe_count : ℕ
  pub state : PlState

-- The path MTU falls back to the base, for a black hole behind `searching` and `complete`.
unfoldable pub fall_back : Pl → Pl
fall_back p = record p { state = base; probe_size = base_plpmtu; pmtu = base_plpmtu }

-- What the fourth unanswered probe does in each state; the number is the new path MTU, or 0.
unfoldable pub probes_failed : Pl → Pl × ℕ
unfolding fall_back
probes_failed p = elim p.state [
  | base ↦
      if p.probe_size == base_plpmtu
      then (record p { state = error; pmtu = base_plpmtu }, base_plpmtu)
      else (p, 0)
  | searching ↦
      if p.pmtu == p.probe_size
      then (record (fall_back p) { probe_high = 0 }, base_plpmtu)
      else (record p { probe_high = p.probe_size; probe_size = p.pmtu }, 0)
  | complete ↦ if p.pmtu == p.probe_size then (fall_back p, base_plpmtu) else (p, 0)
  | _ ↦ (p, 0)
]

-- `probe_count` is a u8, and never passes 4.
unfoldable pub pl_send : Pl → ℕ → Pl × ℕ
unfolding probes_failed
pl_send p number =
    let sent = record p { number = number } in
    if ltb p.probe_count max_probes
    then (record sent { probe_count = p.probe_count + 1 }, 0)
    else (let (q, pathmtu) = probes_failed (record sent { probe_count = 0 }) in
        (record q { probe_count = 1 }, pathmtu))

pub record PlRecv : Type 0 where
  pub pl : Pl
  pub pathmtu : ℕ
  pub raise_timer : Bool
  pub complete : Bool

-- The small step of the search, with a highest size that failed.
unfoldable pub search_up : Pl → ℕ → Pl × ℕ
search_up p high =
    let next = (p.probe_size + pl_min_step) % u16_mod in
    if leb high next
    then (record p { probe_high = 0; state = complete; probe_size = p.pmtu }, p.pmtu)
    else (record p { probe_high = high; probe_size = next }, 0)

abbrev is_complete : PlState → Bool
is_complete complete = true
is_complete _ = false

-- The result in every branch but the two of `searching` that set the flags by themselves.
abbrev received : Pl → ℕ → PlRecv
received p pathmtu = record {
  pl = p;
  pathmtu = pathmtu;
  raise_timer = false;
  complete = is_complete p.state;
}

unfoldable pub pl_recv : Pl → PlRecv
unfolding search_up
pl_recv p =
    let q = record p { number = 0; pmtu = p.probe_size; probe_count = 0 } in
    elim p.state [
      | base ↦
          received
            (record q { state = searching; probe_size = (p.probe_size + pl_big_step) % u16_mod }) 0
      | error ↦
          received
            (record q { state = searching; probe_size = (p.probe_size + pl_big_step) % u16_mod })
            p.probe_size
      | searching ↦
          if (p.probe_high == 0) && ltb p.probe_size max_plpmtu
          then record {
            pl = record q { probe_size = min (p.probe_size + pl_big_step) max_plpmtu };
            pathmtu = 0;
            raise_timer = false;
            complete = false;
          }
          else (let (r, pathmtu) =
                search_up q (if p.probe_high == 0 then max_plpmtu else p.probe_high) in
              record {
                pl = r;
                pathmtu = pathmtu;
                raise_timer = is_complete r.state;
                complete = is_complete r.state;
              })
      | complete ↦
          received
            (record q {
              state = searching;
              probe_size = min (p.probe_size + pl_min_step) max_plpmtu;
            })
            0
      | disabled ↦ received q 0
    ]

pub record PlTooBig : Type 0 where
  pub pl : Pl
  pub pathmtu : ℕ
  pub reset_timer : Bool

abbrev pub shrunk : Pl → Pl
shrunk p = record p {
  state = base;
  probe_size = base_plpmtu;
  probe_count = 0;
  probe_high = 0;
  pmtu = base_plpmtu;
}

unfoldable pub pl_toobig : Pl → ℕ → PlTooBig
pl_toobig p pmtu =
    let same : PlTooBig = record { pl = p; pathmtu = 0; reset_timer = false } in
    if ltb pmtu min_plpmtu || leb p.probe_size pmtu then same else elim p.state [
      | base ↦
          if leb min_plpmtu pmtu && ltb pmtu base_plpmtu
          then record {
            pl = record p { state = error; pmtu = base_plpmtu };
            pathmtu = base_plpmtu;
            reset_timer = false;
          }
          else same
      | searching ↦
          if leb base_plpmtu pmtu && ltb pmtu p.pmtu
          then record { pl = shrunk p; pathmtu = base_plpmtu; reset_timer = false }
          else if ltb p.pmtu pmtu && ltb pmtu p.probe_size
          then record {
            pl = record p { probe_size = pmtu % u16_mod; probe_count = 0 };
            pathmtu = 0;
            reset_timer = false;
          }
          else same
      | complete ↦
          if leb base_plpmtu pmtu && ltb pmtu p.pmtu
          then record { pl = shrunk p; pathmtu = base_plpmtu; reset_timer = true }
          else same
      | _ ↦ same
    ]

unfoldable pub pl_reset : Pl → Pl
pl_reset p = record p {
  number = 0;
  probe_high = 0;
  probe_count = 0;
  state = base;
  pmtu = base_plpmtu;
  probe_size = base_plpmtu;
}

unfoldable pub pl_confirm : Pl → ℕ → ℕ → Bool
pl_confirm p largest smallest = not (p.number == 0) && leb smallest p.number && leb p.number largest
