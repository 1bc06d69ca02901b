-- ===== src/Outq/Loss/Inflight.antt =====
-- The bytes in flight are those of the packets sent and not yet acknowledged or lost.
use quic.Prelude.{
  ℕ, ◌+◌, ◌<◌, ◌≡◌, ◌≢◌, refl, sym, subst, ◌∙◌, arith, Bool, ◌==◌, if◌then◌else◌, Option, none,
  some, List, [], ◌∷◌,
}
use quic.Prelude.Words.{sub32, u32_mod}
use quic.Cong.Ops.{on_packet_lost}
use quic.Outq.{TxFrame, Outq, PacketSent, retransmit_frame, wfree, sync_window}
use quic.Outq.Loss.Steps.{beyond, other, newer, recent, gone, mark_step}
use quic.Outq.Loss.{
  Sending, lose, lost_frames, take_frame, requeue, mark_loop, retransmit_mark, started,
  set_loss_time,
}

unfoldable pub sent_bytes : List PacketSent → ℕ
sent_bytes [] = 0
sent_bytes (p ∷ ps) = p.frame_len + sent_bytes ps

unfoldable pub level_bytes : ℕ → List PacketSent → ℕ
level_bytes level [] = 0
level_bytes level (p ∷ ps) =
    if level == p.level then p.frame_len + level_bytes level ps else level_bytes level ps

requeue_keeps :
    (q : Outq) (o : Option (TxFrame × List TxFrame)) → (requeue q o).0.inflight ≡ q.inflight
unfolding retransmit_frame
requeue_keeps q none = refl
requeue_keeps q (some (f, rest)) = ground arith

lost_frames_keeps :
    (ids : List ℕ) (q : Outq) (bytes : ℕ) → (lost_frames ids q bytes).inflight ≡ q.inflight
unfolding lost_frames wfree
lost_frames_keeps [] q bytes = refl
lost_frames_keeps (id ∷ ids) q bytes =
    let o = take_frame id q.transmitted_list in
    lost_frames_keeps ids (requeue q o).0 (bytes + (requeue q o).1) ∙ requeue_keeps q o

pub sync_window_keeps : (q : Outq) (w : ℕ) → (sync_window q w).inflight ≡ q.inflight
unfolding sync_window
sync_window_keeps q w = ground arith

lose_inflight :
    (s : Sending) (p : PacketSent)
    → ((lose s p).outq.inflight ≡ sub32 s.outq.inflight p.frame_len)
      × ((lose s p).space.inflight ≡ sub32 s.space.inflight p.frame_len)
unfolding lose
lose_inflight s p =
    let q = record s.outq { inflight = sub32 s.outq.inflight p.frame_len } in
    (
      sync_window_keeps (lost_frames p.frame_array q 0)
            (on_packet_lost s.cong s.space.max_pn_acked_time).window
          ∙ lost_frames_keeps p.frame_array q 0,
      refl,
    )

-- The count of the queue and of the level are `list` and `x` more, and a word.
pub record Counts (level : ℕ) (list : List PacketSent) (x y : ℕ) (s : Sending) : Type 0 where
  pub all : s.outq.inflight ≡ sent_bytes list + x
  pub mine : s.space.inflight ≡ level_bytes level list + y
  pub word : s.outq.inflight < u32_mod
  pub space_word : s.space.inflight < u32_mod

pub sub32_lem : (a b n : ℕ) → a ≡ b + n → a < u32_mod → sub32 a b ≡ n
sub32_lem a b n e small = omega (arith, e, small)

abbrev Counted : ℕ → ℕ → ℕ → List PacketSent × Sending → Type 0
Counted level x y (kept, s) = Counts level kept x y s

Counted-skip :
    (level x y : ℕ) (p : PacketSent) (r : List PacketSent × Sending)
    → level ≢ p.level
    → Counted level (p.frame_len + x) y r
    → Counted level x y (p ∷ r.0, r.1)
unfolding sent_bytes level_bytes
Counted-skip level x y p (kept, s) differs c = record {
  all = omega (arith, c.all);
  mine = ground (arith, differs, c.mine);
  word = c.word;
  space_word = c.space_word;
}

set_loss_time_keeps :
    (level x y : ℕ) (list : List PacketSent) (s : Sending) (p : PacketSent)
    → Counts level list x y s
    → Counts level list x y (set_loss_time s p)
set_loss_time_keeps level x y list s p c = record {
  all = ground (arith, c.all);
  mine = ground (arith, c.mine);
  word = ground (arith, c.word);
  space_word = ground (arith, c.space_word);
}

mark_loop-Counted :
    (immediate : Bool) (level : ℕ) (list : List PacketSent) (s : Sending) (x y : ℕ)
    → Counts level list x y s
    → Counted level x y (mark_loop immediate level list s)
unfolding mark_loop sent_bytes level_bytes
mark_loop-Counted immediate level [] s x y c = c
mark_loop-Counted immediate level (p ∷ ps) s x y c = elim (mark_step immediate level p ps s) [
  | beyond above app e ↦ subst (Counted level x y) (sym e) c
  | newer same later e ↦ subst (Counted level x y) (sym e) c
  | recent same young e ↦
      subst (Counted level x y) (sym e) (set_loss_time_keeps level x y (p ∷ ps) s p c)
  | other differs e ↦
      let rest : Counts level ps (p.frame_len + x) y s = record {
        all = omega (arith, c.all);
        mine = ground (arith, differs, c.mine);
        word = c.word;
        space_word = c.space_word;
      } in
      subst (Counted level x y) (sym e) (
        Counted-skip level x y p (mark_loop immediate level ps s) differs
          (mark_loop-Counted immediate level ps s (p.frame_len + x) y rest))
  | gone same e ↦
      let (all, mine) = lose_inflight s p in
      let total =
        sub32_lem s.outq.inflight p.frame_len (sent_bytes ps + x) (omega (arith, c.all)) c.word in
      let of_level : s.space.inflight ≡ p.frame_len + (level_bytes level ps + y) =
        ground (arith, same, c.mine) in
      let rest_level =
        sub32_lem s.space.inflight p.frame_len (level_bytes level ps + y) of_level c.space_word in
      let rest : Counts level ps x y (lose s p) = record {
        all = all ∙ total;
        mine = mine ∙ rest_level;
        word = omega (arith, all, total, c.all, c.word);
        space_word = omega (arith, mine, rest_level, of_level, c.space_word);
      } in
      subst (Counted level x y) (sym e) (mark_loop-Counted immediate level ps (lose s p) x y rest)
]

-- The counts of bytes in flight are the bytes of the packets in the list, the level's those of its
-- packets; and both are words.
pub record IsAccounted (level : ℕ) (s : Sending) : Type 0 where
  pub all : s.outq.inflight ≡ sent_bytes s.outq.packet_sent_list
  pub mine : s.space.inflight ≡ level_bytes level s.outq.packet_sent_list
  pub word : s.outq.inflight < u32_mod
  pub space_word : s.space.inflight < u32_mod

-- Whatever packets are declared lost, by a timeout or at once, the bytes in flight, of the connection
-- and of the level, stay the bytes of the packets that are still in the list of sent packets.
pub retransmit_mark-IsAccounted :
    (s : Sending) (level : ℕ) (immediate : Bool) (now : ℕ)
    → IsAccounted level s
    → IsAccounted level (retransmit_mark s level immediate now)
unfolding retransmit_mark
retransmit_mark-IsAccounted s level immediate now a =
    let list = s.outq.packet_sent_list in
    let first : Counts level list 0 0 (started s now) = record {
      all = omega (arith, a.all);
      mine = omega (arith, a.mine);
      word = a.word;
      space_word = a.space_word;
    } in
    let c = mark_loop-Counted immediate level list (started s now) 0 0 first in
    record {
      all = omega (arith, c.all);
      mine = omega (arith, c.mine);
      word = c.word;
      space_word = c.space_word;
    }
