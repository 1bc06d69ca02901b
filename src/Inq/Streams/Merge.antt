-- ===== src/Inq/Streams/Merge.antt =====
-- After a call nothing waits that could be delivered.
use quic.Prelude.{
  ℕ, ◌+◌, ◌<◌, ◌≡◌, ◌⊎◌, refl, sym, subst, ◌∙◌, arith, Bool, Option, none, some, List, [], ◌∷◌, All,
  All-imp,
}
use quic.Prelude.Words.{sub32, u32_mod}
use quic.Inq.{RxFrame, Env}
use quic.Inq.Streams.{Rx, sid, merge, skip, then_merge, one_less, stream_tail}
use quic.Inq.Streams.Steps.{
  of_earlier, at_end, old, due, merge_step, merge-nil, drop_first, stream_tail-Keeps,
}
use quic.Inq.Streams.Order.{Before, IsSorted, count}

-- The frames of the stream wait for bytes that are missing.
abbrev pub IsAhead : ℕ → ℕ → RxFrame → Type 0
IsAhead id offset f = sid f ≡ id → offset < f.offset

-- What the merge leaves of a list of waiting frames.
pub record Left (id : ℕ) (fs kept : List RxFrame) (r : Rx) : Type 0 where
  pub same : r.stream.id ≡ id
  pub sorted : IsSorted kept
  pub ahead : All (IsAhead id r.stream.recv.offset) kept
  pub counted : r.stream.recv.frags ≡ count id kept
  pub below : (g : RxFrame) → All (Before g) fs → All (Before g) kept

abbrev pub AfterMerge : ℕ → List RxFrame → Option (List RxFrame × Rx) → Type 0
AfterMerge id fs none = Unit
AfterMerge id fs (some (kept, r)) = Left id fs kept r

AfterMerge-skip :
    (id : ℕ) (f : RxFrame) (fs : List RxFrame) (o : Option (List RxFrame × Rx))
    → sid f < id
    → All (Before f) fs
    → AfterMerge id fs o
    → AfterMerge id (f ∷ fs) (skip f o)
unfolding count
AfterMerge-skip id f fs none lower first left = tt
AfterMerge-skip id f fs (some (kept, r)) lower first left = record {
  same = left.same;
  sorted = (left.below f first, left.sorted);
  ahead = (λ mine. absurd (omega (arith, lower, mine)), left.ahead);
  counted = ground (arith, lower, left.counted);
  below = λ g (before, others). (before, left.below g others);
}

AfterMerge-drop :
    (id : ℕ) (f : RxFrame) (fs : List RxFrame) (o : Option (List RxFrame × Rx))
    → AfterMerge id fs o
    → AfterMerge id (f ∷ fs) o
AfterMerge-drop id f fs none left = tt
AfterMerge-drop id f fs (some (kept, r)) left = record {
  same = left.same;
  sorted = left.sorted;
  ahead = left.ahead;
  counted = left.counted;
  below = λ g (before, others). left.below g others;
}

-- Behind a frame that is ahead, all are.
stopped-IsAhead :
    (id offset : ℕ) (f : RxFrame) (fs : List RxFrame)
    → (id < sid f) ⊎ ((sid f ≡ id) × (offset < f.offset))
    → All (Before f) fs
    → All (IsAhead id offset) (f ∷ fs)
stopped-IsAhead id offset f fs past first = (
  λ mine. ground (arith, past, mine),
  All-imp (λ g after mine. ground (arith, past, after, mine)) fs first,
)

sub32_one : (a n : ℕ) → a ≡ n + 1 → a < u32_mod → sub32 a 1 ≡ n
sub32_one a n e small = omega (arith, e, small)

count-mine :
    (id : ℕ) (f : RxFrame) (fs : List RxFrame) → sid f ≡ id → count id (f ∷ fs) ≡ count id fs + 1
unfolding count
count-mine id f fs mine = ground (arith, mine)

count-other :
    (id : ℕ) (f : RxFrame) (fs : List RxFrame) → sid f < id → count id (f ∷ fs) ≡ count id fs
unfolding count
count-other id f fs lower = ground (arith, lower)

AfterMerge-then :
    (id : ℕ) (fs : List RxFrame) (o : Option Rx) (go : Rx → Option (List RxFrame × Rx))
    → ((r : Rx) → o ≡ some r → AfterMerge id fs (go r))
    → AfterMerge id fs (then_merge o go)
AfterMerge-then id fs none go each = tt
AfterMerge-then id fs (some r) go each = each r refl

pub merge_leaves :
    (env : Env) (is_serv : Bool) (id : ℕ) (fs : List RxFrame) (r : Rx)
    → r.stream.id ≡ id
    → IsSorted fs
    → r.stream.recv.frags ≡ count id fs
    → count id fs < u32_mod
    → AfterMerge id fs (merge env is_serv id fs r)
merge_leaves env is_serv id [] r same sorted counted small =
    subst (AfterMerge id []) (sym (merge-nil env is_serv id r)) (record {
      same = same;
      sorted = tt;
      ahead = tt;
      counted = counted;
      below = λ g others. others;
    })
merge_leaves env is_serv id (f ∷ fs) r same (first, sorted) counted small =
    elim (merge_step env is_serv id f fs r) [
      | of_earlier lower e ↦ subst (AfterMerge id (f ∷ fs)) (sym e) (
          AfterMerge-skip id f fs (merge env is_serv id fs r) lower first (
            let skipped = count-other id f fs lower in
            merge_leaves env is_serv id fs r same sorted (counted ∙ skipped)
              (omega (arith, skipped, small))))
      | at_end past e ↦ subst (AfterMerge id (f ∷ fs)) (sym e) (record {
        same = same;
        sorted = (first, sorted);
        ahead = stopped-IsAhead id r.stream.recv.offset f fs past first;
        counted = counted;
        below = λ g others. others;
      })
      | old mine ends e ↦ subst (AfterMerge id (f ∷ fs)) (sym e) (
          AfterMerge-drop id f fs _ (
            let one = count-mine id f fs mine in
            merge_leaves env is_serv id fs (drop_first r f) same sorted
              (sub32_one r.stream.recv.frags (count id fs) (counted ∙ one)
                (omega (arith, counted, small)))
              (omega (arith, one, small))))
      | due mine starts ends e ↦ subst (AfterMerge id (f ∷ fs)) (sym e) (
          AfterMerge-drop id f fs _ (
            AfterMerge-then id fs (stream_tail env is_serv (one_less r) f) (merge env is_serv id fs)
              (λ r' run.
                (let one = count-mine id f fs mine in
                  let k = stream_tail-Keeps env is_serv (one_less r) r' f run in
                  merge_leaves env is_serv id fs r' (k.id ∙ same) sorted
                    (k.frags
                      ∙ sub32_one r.stream.recv.frags (count id fs) (counted ∙ one)
                          (omega (arith, counted, small)))
                    (omega (arith, one, small))))))
    ]
