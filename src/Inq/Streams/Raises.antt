-- ===== src/Inq/Streams/Raises.antt =====
-- How the counts of received data move on by the parts of quic_inq_stream_recv.
use quic.Prelude.{
  ℕ, ◌+◌, ◌≡◌, refl, sym, subst, ◌∙◌, arith, Bool, Option, none, some, List, [], ◌∷◌,
}
use quic.Inq.{RxFrame, Env, rfree}
use quic.Inq.Streams.{Rx, merge, skip, then_merge, one_less, stream_tail}
use quic.Inq.Streams.Steps.{
  Keeps, stream_tail-Keeps, of_earlier, at_end, old, due, merge_step, merge-nil, drop_first,
}

-- Both counts of received bytes moved on by `n`, and both limits stayed.
pub record Raises (n : ℕ) (r r' : Rx) : Type 0 where
  pub highest : r'.inq.highest ≡ r.inq.highest + n
  pub max_bytes : r'.inq.max_bytes ≡ r.inq.max_bytes
  pub stream_highest : r'.stream.recv.highest ≡ r.stream.recv.highest + n
  pub stream_max_bytes : r'.stream.recv.max_bytes ≡ r.stream.recv.max_bytes

pub Raises-zero : (r r' : Rx) → Keeps r r' → Raises 0 r r'
Raises-zero r r' k = record {
  highest = omega (arith, k.highest);
  max_bytes = k.max_bytes;
  stream_highest = omega (arith, k.stream_highest);
  stream_max_bytes = k.stream_max_bytes;
}

pub Raises-trans :
    (n m k : ℕ) (r r' r'' : Rx) → n + m ≡ k → Raises n r r' → Raises m r' r'' → Raises k r r''
Raises-trans n m k r r' r'' sum a b = record {
  highest = omega (arith, sum, a.highest, b.highest);
  max_bytes = b.max_bytes ∙ a.max_bytes;
  stream_highest = omega (arith, sum, a.stream_highest, b.stream_highest);
  stream_max_bytes = b.stream_max_bytes ∙ a.stream_max_bytes;
}

abbrev pub RaisesMerge : Rx → Option (List RxFrame × Rx) → Type 0
RaisesMerge r none = Unit
RaisesMerge r (some (kept, r')) = Raises 0 r r'

pub RaisesMerge-skip :
    (r : Rx) (f : RxFrame) (o : Option (List RxFrame × Rx))
    → RaisesMerge r o
    → RaisesMerge r (skip f o)
RaisesMerge-skip r f none h = tt
RaisesMerge-skip r f (some (kept, r')) h = h

pub RaisesMerge-from :
    (r r' : Rx) (o : Option (List RxFrame × Rx))
    → Raises 0 r r'
    → RaisesMerge r' o
    → RaisesMerge r o
RaisesMerge-from r r' none first h = tt
RaisesMerge-from r r' (some (kept, r'')) first h = Raises-trans 0 0 0 r r' r'' (omega arith) first h

pub RaisesMerge-then :
    (r : Rx) (o : Option Rx) (go : Rx → Option (List RxFrame × Rx))
    → ((r' : Rx) → o ≡ some r' → RaisesMerge r (go r'))
    → RaisesMerge r (then_merge o go)
RaisesMerge-then r none go each = tt
RaisesMerge-then r (some r') go each = each r' refl

pub same_limits : (r : Rx) → Raises 0 r r
same_limits r = record {
  highest = omega arith;
  max_bytes = refl;
  stream_highest = omega arith;
  stream_max_bytes = refl;
}

pub merge-Raises :
    (env : Env) (is_serv : Bool) (id : ℕ) (fs : List RxFrame) (r : Rx)
    → RaisesMerge r (merge env is_serv id fs r)
unfolding rfree
merge-Raises env is_serv id [] r =
    subst (RaisesMerge r) (sym (merge-nil env is_serv id r)) (same_limits r)
merge-Raises env is_serv id (f ∷ fs) r = elim (merge_step env is_serv id f fs r) [
  | of_earlier lower e ↦
      subst (RaisesMerge r) (sym e) (RaisesMerge-skip r f _ (merge-Raises env is_serv id fs r))
  | at_end past e ↦ subst (RaisesMerge r) (sym e) (same_limits r)
  | old mine ends e ↦
      let first : Raises 0 r (drop_first r f) = record {
        highest = omega arith;
        max_bytes = refl;
        stream_highest = omega arith;
        stream_max_bytes = refl;
      } in
      subst (RaisesMerge r) (sym e) (
        RaisesMerge-from r (drop_first r f) _ first
          (merge-Raises env is_serv id fs (drop_first r f)))
  | due mine starts ends e ↦ subst (RaisesMerge r) (sym e) (
      RaisesMerge-then r (stream_tail env is_serv (one_less r) f) (merge env is_serv id fs)
        (λ r' run.
          (let k =
              Raises-zero (one_less r) r' (stream_tail-Keeps env is_serv (one_less r) r' f run) in
            RaisesMerge-from r r' _
              (record {
                highest = k.highest;
                max_bytes = k.max_bytes;
                stream_highest = k.stream_highest;
                stream_max_bytes = k.stream_max_bytes;
              })
              (merge-Raises env is_serv id fs r'))))
]
