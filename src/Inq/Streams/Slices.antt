-- ===== src/Inq/Streams/Slices.antt =====
-- The bytes of a stream: stretches of what the peer sent, and what a list of frames holds of it.
use quic.Prelude.{
  ℕ, zero, suc, ◌+◌, ◌-◌, ◌≡◌, ◌≤◌, refl, sym, ap, ◌∙◌, if◌then◌else◌, some, List, [], ◌∷◌, ◌++◌,
  length, drop, arith, inl, inr, Bool-cases,
}
use mathlib.Core.List.{append_assoc}
use quic.Inq.{RxFrame, Inq, Env, insert_event, event_frame, event_recv, of_stream}

-- The `n` bytes from offset `o` on, of a stream whose byte at each offset is `d`.
unfoldable pub slice : (ℕ → ℕ) → ℕ → ℕ → List ℕ
slice d o zero = []
slice d o (suc n) = d o ∷ slice d (suc o) n

pub slice-cong : (d : ℕ → ℕ) {o o' n n' : ℕ} → o ≡ o' → n ≡ n' → slice d o n ≡ slice d o' n'
slice-cong d {o' = o'} {n = n} starts lengths =
    ap (λ x. slice d x n) starts ∙ ap (λ y. slice d o' y) lengths

pub length-slice : (d : ℕ → ℕ) (o n : ℕ) → length (slice d o n) ≡ n
unfolding slice
length-slice d o zero = refl
length-slice d o (suc n) = ap suc (length-slice d (suc o) n)

pub drop-slice : (d : ℕ → ℕ) (k o n : ℕ) → drop k (slice d o n) ≡ slice d (o + k) (n - k)
unfolding slice
drop-slice d zero o n = slice-cong d (omega arith) (omega arith)
drop-slice d (suc k) o zero = slice-cong d {n = 0} (refl {a = o + suc k}) (omega arith)
drop-slice d (suc k) o (suc n) = drop-slice d k (suc o) n ∙ slice-cong d (omega arith) (omega arith)

pub slice-append : (d : ℕ → ℕ) (o n m : ℕ) → slice d o n ++ slice d (o + n) m ≡ slice d o (n + m)
unfolding slice
slice-append d o zero m = slice-cong d (omega arith) (omega arith)
slice-append d o (suc n) m =
    ap (λ l. d o ∷ l)
      (ap (λ l. slice d (suc o) n ++ l) (slice-cong d (omega arith) refl)
        ∙ slice-append d (suc o) n m)
    ∙ slice-cong d {n = suc (n + m)} (refl {a = o}) (omega arith)

pub slice-join :
    (d : ℕ → ℕ) (o o' o'' : ℕ)
    → o ≤ o'
    → o' ≤ o''
    → slice d o (o' - o) ++ slice d o' (o'' - o') ≡ slice d o (o'' - o)
slice-join d o o' o'' a b =
    ap (λ l. slice d o (o' - o) ++ l) (slice-cong d (omega (arith, a)) refl)
    ∙ slice-append d o (o' - o) (o'' - o')
    ∙ slice-cong d refl (omega (arith, a, b))

-- The data that a list of frames holds for a stream.
unfoldable pub data_of : ℕ → List RxFrame → List ℕ
data_of id [] = []
data_of id (f ∷ fs) = if of_stream (some id) f then f.bytes ++ data_of id fs else data_of id fs

pub data_of-append :
    (id : ℕ) (fs gs : List RxFrame) → data_of id (fs ++ gs) ≡ data_of id fs ++ data_of id gs
unfolding data_of
data_of-append id [] gs = refl
data_of-append id (f ∷ fs) gs = elim (Bool-cases (of_stream (some id) f)) [
  | inl mine ↦ rw mine (
      ap (λ l. f.bytes ++ l) (data_of-append id fs gs)
      ∙ sym (append_assoc f.bytes (data_of id fs) (data_of id gs)))
  | inr other ↦ rw other (data_of-append id fs gs)
]

-- Events are not data.
data_of-insert_event :
    (id : ℕ) (fs : List RxFrame) (content : List ℕ)
    → data_of id (insert_event fs (event_frame content)) ≡ data_of id fs
unfolding data_of insert_event
data_of-insert_event id [] content = refl
data_of-insert_event id (f ∷ fs) content = ground (arith, data_of-insert_event id fs content)

pub data_of-event_recv :
    (id : ℕ) (env : Env) (q : Inq) (event : ℕ) (payload : List ℕ)
    → data_of id (event_recv env q event payload).0.recv_list ≡ data_of id q.recv_list
unfolding event_recv
data_of-event_recv id env q event payload =
    let same = data_of-insert_event id q.recv_list (event ∷ payload) in ground arith
