-- ===== src/Frame/Dispatch/Lengths.antt =====
-- What the readers of the frames leave of the bytes, and how long a payload can be.
use quic.Prelude.{
  ℕ, ◌≤◌, ◌≡◌, inl, inr, ltb, some, List, [], ◌∷◌, length, length-drop, arith, Bool-cases,
  Option-cases,
}
use quic.Codec.{get_var, get_var_switch, varint_length}
use quic.Frame.{get_var2}
use quic.Frame.Streams.{StreamHead, read_offset, read_length, stream_head}
use quic.Frame.Other.{padding_process, close_head, CloseHead, dgram_head, close_ftype}

switch-le :
    (k : ℕ) (p : List ℕ) (len n : ℕ) (rest : List ℕ)
    → get_var_switch k p ≡ some (len, n, rest)
    → length rest ≤ length p
unfolding get_var_switch
switch-le k p len n rest h = ground (arith, length-drop k p, h)

get_var-le :
    (p : List ℕ) (len n : ℕ) (rest : List ℕ)
    → get_var p ≡ some (len, n, rest)
    → length rest ≤ length p
unfolding get_var
get_var-le [] len n rest h = cc
get_var-le (b ∷ bs) len n rest h = elim (Bool-cases (ltb (length (b ∷ bs)) (varint_length b))) [
  | inl short ↦ cc (rw short at h)
  | inr enough ↦ switch-le (varint_length b) (b ∷ bs) len n rest (rw enough at h)
]

read-le : (p : List ℕ) (x : ℕ × ℕ × List ℕ) → get_var p ≡ some x → length x.2 ≤ length p
read-le p (len, n, rest) h = get_var-le p len n rest h

pub padding_process-le : (p : List ℕ) → padding_process p ≤ length p
unfolding padding_process
padding_process-le [] = omega arith
padding_process-le (b ∷ bs) = ground (arith, padding_process-le bs)

read_offset-le :
    (type : ℕ) (p : List ℕ) (n : ℕ) (rest : List ℕ)
    → read_offset type p ≡ some (n, rest)
    → length rest ≤ length p
read_offset-le type p n rest h = grind (arith, read-le, h)

read_length-le :
    (type : ℕ) (p : List ℕ) (n : ℕ) (rest : List ℕ)
    → read_length type p ≡ some (n, rest)
    → (n ≤ length rest) × (length rest ≤ length p)
read_length-le type p n rest h = grind (arith, read-le, h)

pub stream_head-le :
    (type : ℕ) (p : List ℕ) (h : StreamHead)
    → stream_head type p ≡ some h
    → (h.payload_len ≤ length h.payload) × (length h.payload ≤ length p)
unfolding stream_head
stream_head-le type p h e = elim (Option-cases (get_var p)) [
  | inl none_there ↦ cc (rw (none_there, stream_head) at e)
  | inr ((len, id, p1), e1) ↦ elim (Option-cases (read_offset type p1)) [
    | inl none_there ↦ cc (rw (e1, stream_head, none_there) at e)
    | inr ((offset, p2), e2) ↦ elim (Option-cases (read_length type p2)) [
      | inl none_there ↦ cc (rw (e1, stream_head, e2, none_there) at e)
      | inr ((n, p3), e3) ↦
          let (fits, shorter) = read_length-le type p2 n p3 e3 in
          let same : some
                (record { stream_id = id; offset = offset; payload_len = n; payload = p3 })
              ≡ some h =
            rw (e1, stream_head, e2, e3) at e in
          ground (
            arith,
            fits,
            shorter,
            same,
            get_var-le p len id p1 e1,
            read_offset-le type p1 offset p2 e2,
          )
    ]
  ]
]

pub get_var2-le :
    (p : List ℕ) (a b : ℕ) (rest : List ℕ) → get_var2 p ≡ some (a, b, rest) → length rest ≤ length p
unfolding get_var2
get_var2-le p a b rest h = elim (Option-cases (get_var p)) [
  | inl none_there ↦ cc (rw (none_there, get_var2) at h)
  | inr (x, e1) ↦ elim (Option-cases (get_var x.2)) [
    | inl none_there ↦ cc (rw (e1, get_var2, none_there) at h)
    | inr (y, e2) ↦
        let same : some (x.1, y.1, y.2) ≡ some (a, b, rest) = rw (e1, get_var2, e2) at h in
        ground (arith, same, read-le p x e1, read-le x.2 y e2)
  ]
]

pub dgram_head-le :
    (type : ℕ) (p : List ℕ) (n : ℕ) (rest : List ℕ)
    → dgram_head type p ≡ some (n, rest)
    → (n ≤ length rest) × (length rest ≤ length p)
dgram_head-le type p n rest h = grind (arith, read-le, h)

close_ftype-le :
    (type : ℕ) (p : List ℕ) (n : ℕ) (rest : List ℕ)
    → close_ftype type p ≡ some (n, rest)
    → length rest ≤ length p
close_ftype-le type p n rest h = grind (arith, read-le, h)

pub close_head-le :
    (level type : ℕ) (p : List ℕ) (h : CloseHead)
    → close_head level type p ≡ some h
    → (h.phrase_len ≤ length h.rest) × (length h.rest ≤ length p)
unfolding close_head
close_head-le level type p h e = elim (Option-cases (get_var p)) [
  | inl none_there ↦ cc (rw (none_there, close_head) at e)
  | inr (x, e1) ↦ elim (Option-cases (close_ftype type x.2)) [
    | inl none_there ↦ cc (rw (e1, close_head, none_there) at e)
    | inr ((ftype, rest), e2) ↦ elim (Option-cases (get_var rest)) [
      | inl none_there ↦ ground (arith, e, e1, e2, none_there)
      | inr (z, e3) ↦ ground (
        arith,
        e,
        e1,
        e2,
        e3,
        read-le p x e1,
        close_ftype-le type x.2 ftype rest e2,
        read-le rest z e3,
      )
    ]
  ]
]
