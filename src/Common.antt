-- ===== src/Common.antt =====
-- vortex-common: the shared helpers (Bps), and what their rounding does (Rounds).
pub mod Bps
pub mod Rounds
mod Examples
