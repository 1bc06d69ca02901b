-- ===== src/PnSpace/Bitmap.antt =====
-- Laws of the bitmap operations that pnspace.c calls.
use quic.Prelude.{
  ℕ, zero, suc, ◌+◌, ◌≤◌, ◌<◌, ◌≡◌, refl, ap, sym, ◌∙◌, inl, inr, Bool, true, false, not, List, [],
  ◌∷◌, ◌++◌, length, length-append, length-drop, length-take, length-replicate, set, take, drop,
  replicate, if◌then◌else◌, ◌==◌, min, arith, lt_or_le,
}
use quic.PnSpace.{test_bit, find_next, shift_right}

pub find_next-le : (w : Bool) (m : List Bool) (o : ℕ) → find_next w m o ≤ length m
unfolding find_next
find_next-le w [] o = omega arith
find_next-le w (b ∷ bs) zero = ground (arith, find_next-le w bs 0)
find_next-le w (b ∷ bs) (suc o) = omega (arith, find_next-le w bs o)

pub le-find_next : (w : Bool) (m : List Bool) (o : ℕ) → o ≤ length m → o ≤ find_next w m o
unfolding find_next
le-find_next w [] o h = omega arith
le-find_next w (b ∷ bs) zero h = omega arith
le-find_next w (b ∷ bs) (suc o) h = omega (arith, le-find_next w bs o (omega arith))

-- Every bit that the search passes over is of the other kind.
pub find_next_passed :
    (w : Bool) (m : List Bool) (o i : ℕ) → o ≤ i → i < find_next w m o → test_bit m i ≡ not w
unfolding find_next test_bit
find_next_passed w [] o i h k = absurd (omega arith)
find_next_passed w (b ∷ bs) zero zero h k = ground arith
find_next_passed w (b ∷ bs) zero (suc i) h k =
    ground (arith, find_next_passed w bs 0 i (omega arith))
find_next_passed w (b ∷ bs) (suc o) zero h k = absurd (omega arith)
find_next_passed w (b ∷ bs) (suc o) (suc i) h k =
    find_next_passed w bs o i (omega arith) (omega arith)

-- It stops at a bit of the kind that it seeks, or at the end.
pub find_next_hit :
    (w : Bool) (m : List Bool) (o : ℕ)
    → find_next w m o < length m
    → test_bit m (find_next w m o) ≡ w
unfolding find_next test_bit
find_next_hit w [] o k = absurd (omega arith)
find_next_hit w (b ∷ bs) zero k = ground (arith, find_next_hit w bs 0)
find_next_hit w (b ∷ bs) (suc o) k = find_next_hit w bs o (omega arith)

pub test_bit_beyond : (m : List Bool) (i : ℕ) → length m ≤ i → test_bit m i ≡ false
unfolding test_bit
test_bit_beyond [] i h = refl
test_bit_beyond (b ∷ bs) zero h = absurd (omega arith)
test_bit_beyond (b ∷ bs) (suc i) h = test_bit_beyond bs i (omega arith)

test_bit-replicate : (n i : ℕ) → test_bit (replicate n false) i ≡ false
unfolding test_bit
test_bit-replicate zero i = refl
test_bit-replicate (suc n) zero = refl
test_bit-replicate (suc n) (suc i) = test_bit-replicate n i

test_bit-append_zeros :
    (m : List Bool) (n i : ℕ) → test_bit (m ++ replicate n false) i ≡ test_bit m i
unfolding test_bit
test_bit-append_zeros [] n i = test_bit-replicate n i
test_bit-append_zeros (b ∷ bs) n zero = refl
test_bit-append_zeros (b ∷ bs) n (suc i) = test_bit-append_zeros bs n i

test_bit-drop : (n : ℕ) (m : List Bool) (i : ℕ) → test_bit (drop n m) i ≡ test_bit m (n + i)
unfolding test_bit
test_bit-drop zero m i = ap (test_bit m) (omega arith)
test_bit-drop (suc n) [] i = refl
test_bit-drop (suc n) (b ∷ bs) i =
    let e : suc n + i ≡ suc (n + i) = omega arith in rw e (test_bit-drop n bs i)

pub test_bit-shift_right :
    (m : List Bool) (n i : ℕ) → test_bit (shift_right m n) i ≡ test_bit m (n + i)
unfolding shift_right
test_bit-shift_right m n i = test_bit-append_zeros (drop n m) _ i ∙ test_bit-drop n m i

pub length-shift_right : (m : List Bool) (n : ℕ) → length (shift_right m n) ≡ length m
unfolding shift_right
length-shift_right m n = omega (
  arith,
  length-append (drop n m) (replicate (min n (length m)) false),
  length-drop n m,
  length-replicate (min n (length m)) false,
)

pub test_bit-set :
    (m : List Bool) (i j : ℕ)
    → i < length m
    → test_bit (set m i true) j ≡ (if i == j then true else test_bit m j)
unfolding test_bit
test_bit-set [] i j h = absurd (omega arith)
test_bit-set (b ∷ bs) zero zero h = refl
test_bit-set (b ∷ bs) zero (suc j) h = ground arith
test_bit-set (b ∷ bs) (suc i) zero h = ground arith
test_bit-set (b ∷ bs) (suc i) (suc j) h = test_bit-set bs i j (omega arith) ∙ ground arith

test_bit-take : (n : ℕ) (m : List Bool) (i : ℕ) → i < n → test_bit (take n m) i ≡ test_bit m i
unfolding test_bit
test_bit-take zero m i h = absurd (omega arith)
test_bit-take (suc n) [] i h = refl
test_bit-take (suc n) (b ∷ bs) zero h = refl
test_bit-take (suc n) (b ∷ bs) (suc i) h = test_bit-take n bs i (omega arith)

test_bit-take_clear :
    (m : List Bool) (offset i : ℕ)
    → ((j : ℕ) → offset ≤ j → test_bit m j ≡ false)
    → test_bit (take offset m) i ≡ test_bit m i
test_bit-take_clear m offset i clear = elim (lt_or_le i offset) [
  | inl below ↦ test_bit-take offset m i below
  | inr above ↦
      test_bit_beyond (take offset m) i (omega (arith, length-take offset m)) ∙ sym (clear i above)
]

-- The copy into a larger map keeps each bit, if none is set from `offset` on.
pub test_bit-grown :
    (m : List Bool) (offset len i : ℕ)
    → ((j : ℕ) → offset ≤ j → test_bit m j ≡ false)
    → length m ≤ len
    → test_bit (take len (take offset m ++ replicate len false)) i ≡ test_bit m i
test_bit-grown m offset len i clear h = elim (lt_or_le i len) [
  | inl below ↦
      test_bit-take len (take offset m ++ replicate len false) i below
      ∙ test_bit-append_zeros (take offset m) len i
      ∙ test_bit-take_clear m offset i clear
  | inr above ↦
      test_bit_beyond (take len (take offset m ++ replicate len false)) i
        (omega (arith, length-take len (take offset m ++ replicate len false)))
      ∙ sym (test_bit_beyond m i (omega arith))
]

pub length-grown :
    (m : List Bool) (offset len : ℕ)
    → length (take len (take offset m ++ replicate len false)) ≡ len
length-grown m offset len = omega (
  arith,
  length-take len (take offset m ++ replicate len false),
  length-append (take offset m) (replicate len false),
  length-replicate len false,
)
