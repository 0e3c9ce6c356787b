-- ===== src/Arbiters.antt =====
-- arbiter_panel/src/lib.rs: the panel's data (State), its operations (Rounds), the size of a
-- majority (Majority), what an operation does (Success, Release), the invariants of its runs (Runs,
-- Locks, Verdicts, Solvency, Expiry), and concrete runs (Examples).
pub mod State
pub mod Rounds
pub mod Majority
pub mod Success
pub mod Release
pub mod Runs
pub mod Locks
pub mod Verdicts
pub mod Solvency
pub mod Expiry
mod Examples
