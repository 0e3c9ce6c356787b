-- ===== src/Settlement/Success.antt =====
-- What each operation has found, and what it has written, when it succeeds.
pub mod Payments
pub mod Checks
pub mod Others
pub mod Outcomes
pub mod Pruned
pub mod Extended
pub mod Escrows
pub mod Bonded
