-- ===== src/Timelock.antt =====
-- timelock/src/lib.rs: the controller (Model), what its operations find and write (Runs), its runs
-- as a step relation (Trace), and concrete ones (Examples).
pub mod Model
pub mod Runs
pub mod Trace
mod Examples
