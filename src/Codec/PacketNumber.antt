-- ===== src/Codec/PacketNumber.antt =====
-- `quic_get_num` against the packet number that was truncated (RFC 9000, A.3).
use quic.Prelude.{ℕ, zero, suc, ◌+◌, ◌*◌, ◌/◌, ◌%◌, ◌^◌, ◌<◌, ◌≤◌, ◌≡◌, arith}
use quic.Prelude.Bits.{bit_or_disjoint}
use quic.Codec.{get_num}

-- A packet number of at most 62 bits that lies in the window of `2 ^ (8 * n)` numbers around the
-- expected one is recovered from its low `n` bytes, for `n` from 1 to 4.
pub get_num-truncated :
    (n max_pn pn : ℕ)
    → 1 ≤ n
    → n ≤ 4
    → pn < 2 ^ 62
    → max_pn + 1 < pn + 2 ^ (n * 8) / 2
    → pn ≤ max_pn + 1 + 2 ^ (n * 8) / 2
    → get_num max_pn (pn % 2 ^ (n * 8)) n ≡ pn
unfolding get_num
get_num-truncated zero max_pn pn lo hi small below above = absurd (omega arith)
get_num-truncated (suc zero) max_pn pn lo hi small below above =
    ground (arith, bit_or_disjoint 8 ((max_pn + 1) / 2 ^ 8) (pn % 2 ^ 8))
get_num-truncated (suc (suc zero)) max_pn pn lo hi small below above =
    ground (arith, bit_or_disjoint 16 ((max_pn + 1) / 2 ^ 16) (pn % 2 ^ 16))
get_num-truncated (suc (suc (suc zero))) max_pn pn lo hi small below above =
    ground (arith, bit_or_disjoint 24 ((max_pn + 1) / 2 ^ 24) (pn % 2 ^ 24))
get_num-truncated (suc (suc (suc (suc zero)))) max_pn pn lo hi small below above =
    ground (arith, bit_or_disjoint 32 ((max_pn + 1) / 2 ^ 32) (pn % 2 ^ 32))
get_num-truncated (suc (suc (suc (suc (suc n))))) max_pn pn lo hi small below above =
    absurd (omega arith)
