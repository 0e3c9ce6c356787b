-- ===== src/Settlement.antt =====
-- intent_settlement: the model of the contract (Types to Extend), what a successful call implies
-- (Success), the counters (Counts), the contract as a step relation (Trace), and what the
-- operations guarantee (Slashing, Payouts, Timing, Access).
pub mod Types
pub mod Const
pub mod State
pub mod Bonds
pub mod Index
pub mod Accept
pub mod Chains
pub mod Fill
pub mod Close
pub mod Slash
pub mod Dispute
pub mod Solvers
pub mod Submit
pub mod Prune
pub mod Extend
pub mod Success
pub mod Counts
pub mod Trace
pub mod Slashing
pub mod Payouts
pub mod Timing
pub mod Access
mod Examples
