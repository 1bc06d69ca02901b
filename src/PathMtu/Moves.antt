-- ===== src/PathMtu/Moves.antt =====
-- The state machine of RFC 8899, 5.2, as the three events drive it, and what they report.
use quic.Prelude.{ℕ, ◌≤◌, ◌<◌, ◌≡◌, ◌≢◌, arith}
use quic.PathMtu.{
  Pl, PlState, base, searching, complete, error, base_plpmtu, max_plpmtu, pl_send, pl_recv,
  pl_toobig, pl_reset,
}
use quic.PathMtu.Invariant.{
  IsValid, pl_send-IsValid, pl_recv-IsValid, pl_toobig-IsValid, pl_reset-IsValid,
}

infix 40 ◌⟶◌
-- The edges of the diagram.
pub data ◌⟶◌ : PlState → PlState → Type 0 where
  stays : {s : PlState} → s ⟶ s
  confirmed : base ⟶ searching
  refused : base ⟶ error
  recovered : error ⟶ searching
  finished : searching ⟶ complete
  raised : complete ⟶ searching
  lost_search : searching ⟶ base
  lost_complete : complete ⟶ base

ruleset edges = (stays, confirmed, refused, recovered, finished, raised, lost_search, lost_complete)

-- Every event follows an edge of the diagram.
events_follow_edges :
    (p : Pl) (number pmtu : ℕ)
    → IsValid p
    → (p.state ⟶ (pl_send p number).0.state)
      × (p.state ⟶ (pl_recv p).pl.state)
      × (p.state ⟶ (pl_toobig p pmtu).pl.state)
unfolding pl_send pl_recv pl_toobig
events_follow_edges p number pmtu v =
    (grind (arith, edges), grind (arith, edges), grind (arith, edges))

-- What may happen to a path: a probe is sent, is acknowledged, or meets a router that cannot forward it;
-- or the discovery starts again.
pub data Step (p : Pl) (q : Pl) : Type 0 where
  sends : (number : ℕ) → q ≡ (pl_send p number).0 → Step p q
  receives : q ≡ (pl_recv p).pl → Step p q
  too_big : (pmtu : ℕ) → q ≡ (pl_toobig p pmtu).pl → Step p q
  resets : q ≡ pl_reset p → Step p q

pub data Reach (p : Pl) : Pl → Type 0 where
  here : Reach p p
  next : {q r : Pl} → Reach p q → Step q r → Reach p r

Step-IsValid : (p q : Pl) → Step p q → IsValid p → IsValid q
Step-IsValid p q (sends number e) v = rw e (pl_send-IsValid p number v)
Step-IsValid p q (receives e) v = rw e (pl_recv-IsValid p v)
Step-IsValid p q (too_big pmtu e) v = rw e (pl_toobig-IsValid p pmtu v)
Step-IsValid p q (resets e) v = rw e (pl_reset-IsValid p)

Reach-IsValid : {p q : Pl} → IsValid p → Reach p q → IsValid q
Reach-IsValid v here = v
Reach-IsValid v (next {q} {r} way step) = Step-IsValid q r step (Reach-IsValid v way)

-- From a reset on, whatever happens, the confirmed MTU stays between 1200 and the probe size, and the
-- probe size at most 9000.
pub Reach-bounds :
    (p q : Pl)
    → Reach (pl_reset p) q
    → (base_plpmtu ≤ q.pmtu) × (q.pmtu ≤ q.probe_size) × (q.probe_size ≤ max_plpmtu)
Reach-bounds p q way = let v = Reach-IsValid (pl_reset-IsValid p) way in (v.floor, v.above, v.bound)

-- A path MTU that an event reports is the confirmed one behind it, which lies between the bounds; a
-- smaller one confirmed is always reported.
pub pathmtu_reported :
    (p : Pl) (number pmtu : ℕ)
    → IsValid p
    → let (sent, after_send) = pl_send p number in
      let got = pl_recv p in
      let big = pl_toobig p pmtu in
      (after_send ≢ 0 → after_send ≡ sent.pmtu)
      × (got.pathmtu ≢ 0 → got.pathmtu ≡ got.pl.pmtu)
      × (big.pathmtu ≢ 0 → big.pathmtu ≡ big.pl.pmtu)
      × (sent.pmtu < p.pmtu → after_send ≡ sent.pmtu)
      × (p.pmtu ≤ got.pl.pmtu)
      × (big.pl.pmtu < p.pmtu → big.pathmtu ≡ big.pl.pmtu)
unfolding pl_send pl_recv pl_toobig
pathmtu_reported p number pmtu v =
    (ground arith, ground arith, ground arith, ground arith, ground arith, ground arith)
