-- ===== src/Governor.antt =====
-- governor/src/lib.rs: the data and the voting power (Power), the proposals (Proposals), the binary
-- search (Search), the snapshots of power (Snapshots), what a call does (Success), the runs (Runs,
-- Tallies), and concrete ones (Examples).
pub mod Power
pub mod Proposals
pub mod Search
pub mod Success
pub mod Runs
pub mod Tallies
pub mod Snapshots
mod Examples
