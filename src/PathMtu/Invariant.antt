-- ===== src/PathMtu/Invariant.antt =====
-- The invariant of the probe sizes, through each event.
use quic.Prelude.{ℕ, ◌+◌, ◌≤◌, ◌<◌, ◌≡◌, ◌≢◌, ◌⊎◌, arith}
use quic.PathMtu.{
  Pl, disabled, base, searching, error, base_plpmtu, max_plpmtu, max_probes, pl_send, pl_recv,
  pl_toobig, pl_reset,
}

-- How the sizes relate: the confirmed MTU is at least the base, the probe is no smaller and below the
-- smallest size that failed, if one did; only the search has probes above the confirmed MTU.
pub record IsValid (p : Pl) : Type 0 where
  pub enabled : p.state ≢ disabled
  pub floor : base_plpmtu ≤ p.pmtu
  pub above : p.pmtu ≤ p.probe_size
  pub bound : p.probe_size ≤ max_plpmtu
  pub high : (p.probe_high ≡ 0) ⊎ ((p.probe_size < p.probe_high) × (p.probe_high ≤ max_plpmtu))
  pub only_search : p.state ≢ searching → (p.probe_high ≡ 0) × (p.probe_size ≡ p.pmtu)
  pub at_base : (p.state ≡ base) ⊎ (p.state ≡ error) → p.pmtu ≡ base_plpmtu
  pub probes : p.probe_count ≤ max_probes + 1

pub pl_reset-IsValid : (p : Pl) → IsValid (pl_reset p)
unfolding pl_reset
pl_reset-IsValid p = ground arith

pub pl_send-IsValid : (p : Pl) (number : ℕ) → IsValid p → IsValid (pl_send p number).0
unfolding pl_send
pl_send-IsValid p number v = ground arith

pub pl_recv-IsValid : (p : Pl) → IsValid p → IsValid (pl_recv p).pl
unfolding pl_recv
pl_recv-IsValid p v = ground arith

pub pl_toobig-IsValid : (p : Pl) (pmtu : ℕ) → IsValid p → IsValid (pl_toobig p pmtu).pl
unfolding pl_toobig
pl_toobig-IsValid p pmtu v = ground arith
