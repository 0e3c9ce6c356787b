-- ===== src/Staking.antt =====
-- solver_registry/src/lib.rs: the storage and the tiers (State), administration (Admin), stakes and
-- writes (Stakes), what an operation does (Changes, Outcomes, Writes), the runs (Runs), the tokens
-- behind the bonds (Backing), obligations (Obligations), replayed writes (Once), tiers (Tiers),
-- scores (Scores), and a concrete run (Examples).
pub mod State
pub mod Admin
pub mod Stakes
pub mod Changes
pub mod Outcomes
pub mod Writes
pub mod Slashes
pub mod Runs
pub mod Kinds
pub mod Backing
pub mod Obligations
pub mod Once
pub mod Tiers
pub mod Scores
mod Examples
