-- ===== src/PathMtu/Search.antt =====
-- The search comes to an end: where every probe is acknowledged, it completes.
use quic.Prelude.{ℕ, zero, suc, ◌+◌, ◌-◌, ◌≤◌, ◌<◌, ◌≡◌, ◌⊎◌, inl, inr, arith, ◌==◌, if◌then◌else◌}
use quic.PathMtu.{Pl, searching, complete, max_plpmtu, pl_recv, pl_min_step}
use quic.PathMtu.Invariant.{IsValid, pl_recv-IsValid}

-- `n` probes acknowledged, one after the other.
unfoldable pub acked : ℕ → Pl → Pl
acked zero p = p
acked (suc n) p = acked n (pl_recv p).pl

-- How many more can be acknowledged before the search ends.
abbrev distance : Pl → ℕ
distance p =
    if p.probe_high == 0 then max_plpmtu + 1 - p.probe_size else p.probe_high - p.probe_size

-- The size that the search closes in on: the failed size that it remembers, or the largest there is.
abbrev pub limit : Pl → ℕ
limit p = if p.probe_high == 0 then max_plpmtu else p.probe_high

-- The search is over, and less than a step below the limit.
abbrev Found : ℕ → Pl → Type 0
Found high q = (q.state ≡ complete) × (high ≤ q.pmtu + pl_min_step) × (q.pmtu ≤ high)

closer :
    (p : Pl)
    → IsValid p
    → p.state ≡ searching
    → Found (limit p) (pl_recv p).pl
      ⊎ (((pl_recv p).pl.state ≡ searching)
          × (distance (pl_recv p).pl < distance p)
          × (limit (pl_recv p).pl ≡ limit p))
unfolding pl_recv
closer p v searches = ground arith

completes_within :
    (bound : ℕ) (p : Pl)
    → IsValid p
    → p.state ≡ searching
    → distance p ≤ bound
    → (n : ℕ) × (n ≤ bound + 1) × Found (limit p) (acked n p)
unfolding acked
completes_within zero p v searches near = elim (closer p v searches) [
  | inl done ↦ (1, omega arith, done)
  | inr (still, less, same) ↦ absurd (omega (arith, less, near))
]
completes_within (suc bound) p v searches near = elim (closer p v searches) [
  | inl done ↦ (1, omega arith, done)
  | inr (still, less, same) ↦
      let (n, le, (done, low, high)) =
        completes_within bound (pl_recv p).pl (pl_recv-IsValid p v) still
          (omega (arith, less, near)) in
      (suc n, omega (arith, le), (done, omega (arith, same, low), omega (arith, same, high)))
]

distance_bound : (p : Pl) → IsValid p → distance p ≤ 7801
distance_bound p v = ground (arith, v)

-- A search whose probes are all acknowledged completes, after at most 7802 of them; the MTU that it
-- confirms is at most `probe_high`, the failed size that the state remembers, or 9000 where it
-- remembers none, and at most four bytes below that.
pub search_completes :
    (p : Pl)
    → IsValid p
    → p.state ≡ searching
    → (n : ℕ) × (n ≤ 7802)
      × ((acked n p).state ≡ complete)
      × (limit p ≤ (acked n p).pmtu + pl_min_step)
      × ((acked n p).pmtu ≤ limit p)
search_completes p v searches =
    let (n, le, (done, low, high)) = completes_within 7801 p v searches (distance_bound p v) in
    (n, omega (arith, le), done, low, high)
