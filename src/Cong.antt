-- ===== src/Cong.antt =====
-- modules/net/quic/cong.c and cong.h: congestion control, by New Reno and by CUBIC with HyStart++.
pub mod Types
pub mod Root
pub mod Cubic
pub mod Reno
pub mod Ops
pub mod States
pub mod Conservative
pub mod Windows
pub mod Rtt
pub mod Pacing
mod Runs
