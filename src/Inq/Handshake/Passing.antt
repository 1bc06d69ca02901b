-- ===== src/Inq/Handshake/Passing.antt =====
-- The handshake messages that wait for TLS, and what it is to pass bytes on to it.
use quic.Prelude.{
  ℕ, ◌-◌, ◌≤◌, ◌<◌, ◌≡◌, inl, inr, refl, sym, ap, ◌∙◌, true, false, ◌==◌, if◌then◌else◌, List, [],
  ◌∷◌, ◌++◌, arith, Bool-cases,
}
use mathlib.Core.List.{append_assoc, append-nil}
use quic.Inq.{RxFrame, len}
use quic.Inq.Streams.Slices.{slice, slice-cong, slice-join}
use quic.Inq.Handshake.{Hs, insert_message}

-- The handshake messages of a level that wait for the reader.
unfoldable pub messages : ℕ → List RxFrame → List ℕ
messages level [] = []
messages level (f ∷ fs) =
    let rest = messages level fs in
    if f.level == 0 then [] else if f.level == level then f.bytes ++ rest else rest

messages-mine :
    (level : ℕ) (fs : List RxFrame) (f : RxFrame)
    → f.level ≡ level
    → 0 < level
    → messages level (f ∷ fs) ≡ f.bytes ++ messages level fs
unfolding messages
messages-mine level fs f mine above =
    let on : (f.level == level) ≡ true = ground (arith, mine) in
    let message : (f.level == 0) ≡ false = ground (arith, mine, above) in rw message (rw on refl)

pub messages-insert_message :
    (level : ℕ) (fs : List RxFrame) (f : RxFrame)
    → f.level ≡ level
    → 0 < level
    → messages level (insert_message fs f) ≡ messages level fs ++ f.bytes
unfolding messages insert_message
messages-insert_message level [] f mine above =
    messages-mine level [] f mine above ∙ append-nil f.bytes
messages-insert_message level (g ∷ gs) f mine above = elim (Bool-cases (g.level == 0)) [
  | inl user ↦
      let none_left : messages level (g ∷ gs) ≡ [] = rw user refl in
      let put : insert_message (g ∷ gs) f ≡ f ∷ g ∷ gs = rw user refl in
      ap (messages level) put
      ∙ messages-mine level (g ∷ gs) f mine above
      ∙ ap (λ l. f.bytes ++ l) none_left
      ∙ append-nil f.bytes
      ∙ ap (λ l. l ++ f.bytes) (sym none_left)
  | inr message ↦
      let put : insert_message (g ∷ gs) f ≡ g ∷ insert_message gs f = rw message refl in
      let rest = messages-insert_message level gs f mine above in
      ap (messages level) put ∙ elim (Bool-cases (g.level == level)) [
        | inl same ↦ rw message (
            rw same (
              ap (λ l. g.bytes ++ l) rest ∙ sym (append_assoc g.bytes (messages level gs) f.bytes)))
        | inr other ↦ rw message (rw other rest)
      ]
]

-- A frame of the level whose messages are the bytes `d`.
pub record IsPart (d : ℕ → ℕ) (number : ℕ) (f : RxFrame) : Type 0 where
  pub level : f.level ≡ number
  pub bytes : f.bytes ≡ slice d f.offset (len f)

-- From `h` to `h'`, the reader got the bytes between the two offsets.
pub record Passes (d : ℕ → ℕ) (level : ℕ) (h h' : Hs) : Type 0 where
  pub forward : h.crypto.recv_offset ≤ h'.crypto.recv_offset
  pub bytes :
      messages level h'.inq.recv_list
      ≡ messages level h.inq.recv_list
        ++ slice d h.crypto.recv_offset (h'.crypto.recv_offset - h.crypto.recv_offset)

pub Passes-refl :
    (d : ℕ → ℕ) (level : ℕ) (h h' : Hs)
    → h'.crypto.recv_offset ≡ h.crypto.recv_offset
    → messages level h'.inq.recv_list ≡ messages level h.inq.recv_list
    → Passes d level h h'
unfolding slice
Passes-refl d level h h' offset recv = record {
  forward = omega (arith, offset);
  bytes =
      recv
      ∙ sym (append-nil (messages level h.inq.recv_list))
      ∙ ap (λ l. messages level h.inq.recv_list ++ l)
          (slice-cong d {n = 0} refl (omega (arith, offset)));
}

pub Passes-trans :
    (d : ℕ → ℕ) (level : ℕ) (h h' h'' : Hs)
    → Passes d level h h'
    → Passes d level h' h''
    → Passes d level h h''
Passes-trans d level h h' h'' a b =
    let o = h.crypto.recv_offset in
    let o' = h'.crypto.recv_offset in
    let o'' = h''.crypto.recv_offset in
    let shown = messages level h.inq.recv_list in
    record {
      forward = omega (arith, a.forward, b.forward);
      bytes =
          b.bytes
          ∙ ap (λ l. l ++ slice d o' (o'' - o')) a.bytes
          ∙ append_assoc shown (slice d o (o' - o)) (slice d o' (o'' - o'))
          ∙ ap (λ l. shown ++ l) (slice-join d o o' o'' a.forward b.forward);
    }
