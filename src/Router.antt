-- ===== src/Router.antt =====
-- fee_router/src/lib.rs: the router (Model), the sink sets it accepts (Sinks), what a distribution
-- credits (Shares) and when it goes through (Succeeds), its runs (Runs), and concrete ones (Examples).
pub mod Model
pub mod Sinks
pub mod Shares
pub mod Succeeds
pub mod Runs
mod Examples
