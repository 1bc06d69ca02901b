-- ===== src/Frame/Writers/Close.antt =====
-- A CONNECTION_CLOSE frame, from `quic_frame_connection_close_create` to
-- `quic_frame_connection_close_process`.
use mathlib.Core.List.{append_assoc}
use quic.Prelude.{
  ℕ, ◌+◌, ◌≤◌, ◌<◌, ◌≡◌, refl, ap, ◌∙◌, inl, inr, Bool, true, false, not, ◌&&◌, some, List, [],
  ◌++◌, length, length-append, arith, ltb, ◌==◌, if◌then◌else◌, Bool-cases, le→ltb,
  take-length-append,
}
use quic.Prelude.Words.{u32_mod}
use quic.Codec.{put_var, get_var}
use quic.Codec.Varint.{get_var-put_var}
use quic.Frame.{Conn, FrameEnv, took, used}
use quic.Frame.Other.{
  frame_connection_close, frame_connection_close_app, close_phrase_max_len, CloseHead, close_ftype,
  close_head, close, connection_close_process,
}
use quic.Frame.Writers.{c_string, close_body}

-- What the frame says of its own type.
abbrev pub sent_ftype : ℕ → Conn → ℕ
sent_ftype type c = if type == frame_connection_close then c.close_frame else 0

ftype_bytes : ℕ → Conn → List ℕ
ftype_bytes type c = if type == frame_connection_close then put_var c.close_frame else []

close_ftype-read :
    (type : ℕ) (c : Conn) (rest : List ℕ)
    → c.close_frame < 256
    → close_ftype type (ftype_bytes type c ++ rest) ≡ some (sent_ftype type c, rest)
unfolding ftype_bytes
close_ftype-read type c rest small = elim (Bool-cases (type == frame_connection_close)) [
  | inl e ↦ rw (e, get_var-put_var c.close_frame rest (omega arith)) refl
  | inr e ↦ rw e refl
]

close_head-read :
    (level type n : ℕ) (h : CloseHead) (m : ℕ) (p p1 p2 : List ℕ)
    → get_var p ≡ some (n, h.errcode, p1)
    → close_ftype type p1 ≡ some (h.ftype, p2)
    → ((type == frame_connection_close_app) && not (level == 0)) ≡ false
    → get_var p2 ≡ some (m, h.phrase_len, h.rest)
    → ltb (length h.rest) h.phrase_len ≡ false
    → close_head level type p ≡ some h
unfolding close_head
close_head-read level type n h m p p1 p2 e e1 allowed e2 there =
    rw (e, close_head, e1, allowed, e2, there) refl

assoc_four :
    (p1 p2 p3 p4 rest : List ℕ)
    → (p1 ++ (p2 ++ (p3 ++ p4))) ++ rest ≡ p1 ++ (p2 ++ (p3 ++ (p4 ++ rest)))
assoc_four p1 p2 p3 p4 rest = simp append_assoc

and_not-true : (b : Bool) → (b && not true) ≡ false
and_not-true true = refl
and_not-true false = refl

sent_ftype-lt : (type : ℕ) (c : Conn) → c.close_frame < 256 → sent_ftype type c < 256
sent_ftype-lt type c byte = elim (Bool-cases (type == frame_connection_close)) [
  | inl e ↦ rw e byte
  | inr e ↦ rw e (omega arith)
]

module _ (env : FrameEnv) (level type : ℕ) (c peer : Conn) (rest : List ℕ)
    (short : length (c_string c.close_phrase) ≤ close_phrase_max_len)
    (word : c.close_errcode < u32_mod) (byte : c.close_frame < 256)
    (allowed : ((type == frame_connection_close_app) && not (level == 0)) ≡ false) where
  abbrev phrase : List ℕ
  phrase = c_string c.close_phrase

  abbrev written : CloseHead
  written = record {
    errcode = c.close_errcode;
    ftype = sent_ftype type c;
    phrase_len = length phrase;
    rest = phrase ++ rest;
  }

  close_head-close_body : close_head level type (close_body type c ++ rest) ≡ some written
  unfolding close_body ftype_bytes
  close_head-close_body =
      ap (close_head level type) (
        assoc_four (put_var c.close_errcode) (ftype_bytes type c) (put_var (length phrase)) phrase
          rest)
      ∙ close_head-read level type _ written _ _ _ _
          (get_var-put_var c.close_errcode _ (omega arith)) (close_ftype-read type c _ byte) allowed
          (get_var-put_var (length phrase) (phrase ++ rest) (omega arith))
          (le→ltb (length (phrase ++ rest)) (length phrase)
            (omega (arith, length-append phrase rest)))

  phrase_within : length phrase ≤ length (close_body type c)
  unfolding close_body ftype_bytes
  phrase_within =
      let tail = put_var (length phrase) ++ phrase in
      omega (
        arith,
        length-append (put_var c.close_errcode) (ftype_bytes type c ++ tail),
        length-append (ftype_bytes type c) tail,
        length-append (put_var (length phrase)) phrase,
      )

  close_used :
      used (close_body type c ++ rest) (phrase ++ rest) + length phrase ≡ length (close_body type c)
  close_used =
      omega
        (arith, length-append (close_body type c) rest, length-append phrase rest, phrase_within)

  -- An endpoint that is sent a CONNECTION_CLOSE frame of either type is closed with the error code,
  -- the phrase up to its first zero byte, and, for the transport's type, the frame type that the
  -- other endpoint has stored; for the application's type the frame type is 0. All bytes of the
  -- frame are taken. The phrase has at most 80 bytes, and its copy can be allocated; the
  -- application's type comes in a packet of the application's level only.
  pub connection_close_process-create :
      env.phrase_mem ≡ true
      → (c' : Conn) × (connection_close_process env level type (close_body type c ++ rest) peer
          ≡ took (length (close_body type c)) c')
        × (c'.closed ≡ true)
        × (c'.close_errcode ≡ c.close_errcode)
        × (c'.close_frame ≡ sent_ftype type c)
        × (c'.close_phrase ≡ c_string c.close_phrase)
  unfolding connection_close_process close
  connection_close_process-create mem = (
    close env peer written,
    rw
        (
          close_head-close_body,
          connection_close_process,
          le→ltb close_phrase_max_len (length phrase) short,
          mem,
          and_not-true (not (length phrase == 0)),
        )
        (ap (λ (n : ℕ). took n (close env peer written)) close_used),
    refl,
    omega (arith, word),
    omega (arith, sent_ftype-lt type c byte),
    take-length-append phrase rest,
  )
